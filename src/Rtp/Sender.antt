-- ===== src/Rtp/Sender.antt =====
-- lib/rtpsenderreport.cpp: the RTCP report of a side that sends.
pub mod RoundTrip
use net_isdn.Common.{
  ℕ, zero, suc, ◌+◌, ◌-◌, ◌*◌, bit_and, bit_or, Bool, true, false, not, Option, none, some, List,
  [], ◌∷◌, ◌++◌, length, set, ltb, ◌==◌, if◌then◌else◌, ◌>>=◌,
}
use net_isdn.Common.Bits.{◌<<◌, ◌>>◌}
use net_isdn.Rtp.Wire.{ByteOrder, load, store_words}
use net_isdn.Rtp.Head.{head_word, head_type, head_version, head_padding, head_count}
use net_isdn.Rtp.Block.{
  Fractions, ReceptionBlock, block_size, read_reception_block, write_reception_block,
}

-- The accessors of the class are the fields, its setters updates of them. The blocks, which the class
-- owns through pointers, are values.
pub record SenderReport (D : Type 0) : Type 0 where
  pub version : ℕ
  pub padding_bit : Bool
  pub ssrc : ℕ
  pub ntp_timestamp : ℕ
  pub rtp_timestamp : ℕ
  pub sender_packet_count : ℕ
  pub sender_octet_count : ℕ
  pub reception_blocks : List (ReceptionBlock D)

-- `RTPSENDERREPORT_PT`, `RTPSENDERREPORT_MAX_BLOCKS`, `RTPSENDERREPORT_BASE_SIZE`
abbrev pub sender_pt : ℕ
sender_pt = 200

abbrev pub max_blocks : ℕ
max_blocks = 31

abbrev pub sender_base_size : ℕ
sender_base_size = 7

-- The blocks that the size of a report counts: at least one.
unfoldable pub blocks_sent : ℕ → ℕ
blocks_sent n = if n == 0 then 1 else n

-- The loop over the words of a null block, which are stored as they are.
unfoldable pub zero_words : List ℕ → ℕ → ℕ → List ℕ
zero_words d i zero = d
zero_words d i (suc n) = zero_words (set d i 0) (i + 1) n

module _ {D : Type 0} where
  -- `clear`, and the constructor.
  abbrev pub cleared_report : SenderReport D
  cleared_report = record {
    version = 2;
    padding_bit = false;
    ssrc = 0;
    ntp_timestamp = 0;
    rtp_timestamp = 0;
    sender_packet_count = 0;
    sender_octet_count = 0;
    reception_blocks = [];
  }

  abbrev pub new_report : ℕ → ℕ → SenderReport D
  new_report ssrc version = record cleared_report { ssrc = ssrc; version = version }

  -- `false`: the list is full.
  unfoldable pub add_reception_block : SenderReport D → ReceptionBlock D → Bool × SenderReport D
  add_reception_block r b =
      if length r.reception_blocks == max_blocks
      then (false, r)
      else (true, record r { reception_blocks = r.reception_blocks ++ (b ∷ []) })

  module _ (fr : Fractions D) (net : ByteOrder) where
    -- The loops over the blocks, from word `at` on.
    unfoldable pub read_blocks : List ℕ → ℕ → ℕ → Option (List (ReceptionBlock D))
    read_blocks d at zero = some []
    read_blocks d at (suc n) = do
      (_, b) ← read_reception_block fr net d at
      bs ← read_blocks d (at + block_size) n
      some (b ∷ bs)

    unfoldable pub write_blocks : List ℕ → ℕ → List (ReceptionBlock D) → List ℕ
    write_blocks d at [] = d
    write_blocks d at (b ∷ bs) =
        write_blocks (write_reception_block fr net b d at block_size).1 (at + block_size) bs

    -- `readBlock (data + at)`; `none`: it reads outside of `d`.
    unfoldable pub read_sender_report : List ℕ → ℕ → Option (ℕ × SenderReport D)
    read_sender_report d at = do
      w ← load net d at
      if not (head_type w == sender_pt) then some (0, cleared_report) else do
        ssrc ← load net d (at + 1)
        ntp_high ← load net d (at + 2)
        ntp_low ← load net d (at + 3)
        stamp ← load net d (at + 4)
        packets ← load net d (at + 5)
        octets ← load net d (at + 6)
        blocks ← read_blocks d (at + sender_base_size) (head_count w)
        some (
          sender_base_size + head_count w * block_size,
          record {
            version = head_version w;
            padding_bit = head_padding w;
            ssrc = ssrc;
            ntp_timestamp = bit_or (ntp_high << 32) ntp_low;
            rtp_timestamp = stamp;
            sender_packet_count = packets;
            sender_octet_count = octets;
            reception_blocks = blocks;
          },
        )

    -- The words in front of the blocks.
    abbrev pub sender_words : SenderReport D → List ℕ
    sender_words r =
        head_word r.version r.padding_bit (length r.reception_blocks) sender_pt
          (sender_base_size + block_size * blocks_sent (length r.reception_blocks) - 1)
        ∷ r.ssrc
        ∷ bit_and 0xffffffff (r.ntp_timestamp >> 32)
        ∷ bit_and 0xffffffff r.ntp_timestamp
        ∷ r.rtp_timestamp
        ∷ r.sender_packet_count
        ∷ r.sender_octet_count
        ∷ []

    -- `writeBlock (data + at, len)`: what it returns, and the array after it. A write outside of the
    -- array, such as that of the null block where `len` ends before it, changes nothing here.
    unfoldable pub write_sender_report : SenderReport D → List ℕ → ℕ → ℕ → ℕ × List ℕ
    write_sender_report r d at len =
        let n = length r.reception_blocks in
        let size = sender_base_size + block_size * blocks_sent n in
        let headed = store_words net d at (sender_words r) in
        if ltb len size
        then (0, d)
        else if n == 0
        then (size, zero_words headed (at + sender_base_size) block_size)
        else (size, write_blocks headed (at + sender_base_size) r.reception_blocks)

-- ===== src/Rtp/Reception.antt =====
-- lib/rtpreceptionreport.cpp: the RTCP report of a side that only receives.
pub mod Refused
use net_isdn.Common.{
  ℕ, zero, suc, ◌+◌, ◌-◌, ◌*◌, bit_and, Bool, true, false, not, Option, none, some, List, [], ◌∷◌,
  ◌++◌, length, ltb, ◌==◌, if◌then◌else◌, ◌>>=◌,
}
use net_isdn.Common.Bits.{◌>>◌}
use net_isdn.Rtp.Wire.{ByteOrder, load, store_words}
use net_isdn.Rtp.Head.{head_word, head_version, head_padding, head_count}
use net_isdn.Rtp.Block.{Fractions, ReceptionBlock, block_size, read_reception_block}
use net_isdn.Rtp.Sender.{max_blocks, blocks_sent, zero_words, read_blocks, write_blocks}

-- The accessors of the class are the fields, its setters updates of them.
pub record ReceptionReport (D : Type 0) : Type 0 where
  pub version : ℕ
  pub padding_bit : Bool
  pub ssrc : ℕ
  pub reception_blocks : List (ReceptionBlock D)

-- `RTPRECEPTIONREPORT_PT`, `RTPRECEPTIONREPORT_BASE_SIZE`; the number of blocks is limited as in a
-- sender report.
abbrev pub reception_pt : ℕ
reception_pt = 201

abbrev pub reception_base_size : ℕ
reception_base_size = 2

module _ {D : Type 0} where
  -- `clear`, and the constructor.
  abbrev pub cleared_reception : ReceptionReport D
  cleared_reception = record { version = 2; padding_bit = false; ssrc = 0; reception_blocks = [] }

  abbrev pub new_reception : ℕ → ℕ → ReceptionReport D
  new_reception ssrc version = record cleared_reception { ssrc = ssrc; version = version }

  -- `false`: the list is full.
  unfoldable pub append_block : ReceptionReport D → ReceptionBlock D → Bool × ReceptionReport D
  append_block r b =
      if length r.reception_blocks == max_blocks
      then (false, r)
      else (true, record r { reception_blocks = r.reception_blocks ++ (b ∷ []) })

  module _ (fr : Fractions D) (net : ByteOrder) where
    -- `readBlock (data + at)`: the type is compared with all of the upper half of the word, and the
    -- blocks are read and dropped. `none`: the call reads outside of `d`.
    unfoldable pub read_reception_report : List ℕ → ℕ → Option (ℕ × ReceptionReport D)
    read_reception_report d at = do
      w ← load net d at
      if not (bit_and 0xffff (w >> 16) == reception_pt) then some (0, cleared_reception) else do
        ssrc ← load net d (at + 1)
        _ ← read_blocks fr net d (at + reception_base_size) (head_count w)
        some (
          reception_base_size + head_count w * block_size,
          record cleared_reception {
            version = head_version w;
            padding_bit = head_padding w;
            ssrc = ssrc;
          },
        )

    abbrev pub reception_words : ReceptionReport D → List ℕ
    reception_words r =
        head_word r.version r.padding_bit (length r.reception_blocks) reception_pt
          (reception_base_size + block_size * blocks_sent (length r.reception_blocks) - 1)
        ∷ r.ssrc
        ∷ []

    -- `writeBlock (data + at, len)`: the blocks go to the start of the packet, over the two words
    -- before.
    unfoldable pub write_reception_report : ReceptionReport D → List ℕ → ℕ → ℕ → ℕ × List ℕ
    write_reception_report r d at len =
        let n = length r.reception_blocks in
        let size = reception_base_size + block_size * blocks_sent n in
        let headed = store_words net d at (reception_words r) in
        if ltb len size
        then (0, d)
        else if n == 0
        then (size, zero_words headed (at + reception_base_size) block_size)
        else (size, write_blocks fr net headed at r.reception_blocks)

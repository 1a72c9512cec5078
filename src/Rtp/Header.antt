-- ===== src/Rtp/Header.antt =====
-- lib/rtpheader.cpp: the fixed header of an RTP packet with its contributing sources.
pub mod Fields
pub mod RoundTrip
pub mod Total
mod Tests
use net_isdn.Common.{
  ◌>>=◌, ℕ, zero, suc, ◌+◌, ◌%◌, ◌^◌, bit_and, bit_or, Bool, true, false, Option, none, some, List,
  [], ◌∷◌, ◌++◌, length, drop, set, ltb, ◌==◌, if◌then◌else◌, bit,
}
use net_isdn.Common.Bits.{◌<<◌, ◌>>◌}
use net_isdn.Rtp.Wire.{ByteOrder, load, store, store_words}

-- The accessors of the class are the fields, its setters updates of them. A payload type is the number of its constant in `RTPHeader::PayloadType`.
pub record RtpHeader : Type 0 where
  pub version : ℕ
  pub padding_bit : Bool
  pub extension_bit : Bool
  pub marker_bit : Bool
  pub payload_type : ℕ
  pub sequence_number : ℕ
  pub timestamp : ℕ
  pub timestamp_interval : ℕ
  pub ssrc : ℕ
  pub random_seedp : ℕ
  pub csrcs : List ℕ

abbrev pub max_csrcs : ℕ
max_csrcs = 15

abbrev pub payload_l16_2 : ℕ
payload_l16_2 = 10

-- The switch of the constructor (RFC 3551, tables 4 and 5).
pub clock_rate : ℕ → ℕ
clock_rate t =
    if (t == 6)
    then 16000
    else if (t == 10)
    then 44100
    else if (t == 11)
    then 44100
    else if (t == 14)
    then 90000
    else if (t == 16)
    then 11025
    else if (t == 17)
    then 22050
    else if (t == 21)
    then 16000
    else if (t == 22)
    then 32000
    else if (t == 25)
    then 90000
    else if (t == 26)
    then 90000
    else if (t == 28)
    then 90000
    else if (t == 31)
    then 90000
    else if (t == 32)
    then 90000
    else if (t == 33)
    then 90000
    else if (t == 34)
    then 90000
    else 8000

-- `false`: the list is full.
pub add_csrc : RtpHeader → ℕ → Bool × RtpHeader
add_csrc h csrc =
    if length h.csrcs == max_csrcs
    then (false, h)
    else (true, record h { csrcs = h.csrcs ++ (csrc ∷ []) })

-- The argument is not used: the first entry goes. `none`: the list is empty, and `erase` is not
-- defined.
pub remove_csrc : RtpHeader → ℕ → Option RtpHeader
remove_csrc h n = if length h.csrcs == 0 then none else some (record h { csrcs = drop 1 h.csrcs })

-- `operator++`, on a `uint16_t` and a `uint32_t`.
pub next : RtpHeader → RtpHeader
next h = record h {
  sequence_number = (h.sequence_number + 1) % 2 ^ 16;
  timestamp = (h.timestamp + h.timestamp_interval) % 2 ^ 32;
}

-- The members before `clear` has set them.
abbrev unset : ℕ → RtpHeader
unset seed = record {
  version = 0;
  padding_bit = false;
  extension_bit = false;
  marker_bit = false;
  payload_type = 0;
  sequence_number = 0;
  timestamp = 0;
  timestamp_interval = 0;
  ssrc = 0;
  random_seedp = seed;
  csrcs = [];
}

-- `rand_r` of <stdlib.h>: a number and the next seed.
module _ (rand_r : ℕ → ℕ × ℕ) where
  pub clear : RtpHeader → RtpHeader
  clear h =
      let (n, seed) = rand_r h.random_seedp in
      record {
        version = 0;
        padding_bit = false;
        extension_bit = false;
        marker_bit = false;
        payload_type = payload_l16_2;
        sequence_number = bit_and 0xffff n;
        timestamp = 0;
        timestamp_interval = 44100;
        ssrc = 0;
        random_seedp = seed;
        csrcs = [];
      }

  -- The constructor; `msec` is the time that seeds the generator.
  pub create : ℕ → ℕ → ℕ → RtpHeader
  create msec type version = record (clear (unset msec)) {
    version = version;
    payload_type = type;
    timestamp_interval = clock_rate type;
  }

-- The first word that `writeBlock` composes. `0x01 & rtp_extension_bit << 27` shifts first.
pub first_word : RtpHeader → ℕ
first_word h =
    bit_or
      (bit_or
        (bit_or
          (bit_or
            (bit_or (bit_or (bit_and 0x03 h.version << 30) (bit_and 0x01 (bit h.padding_bit) << 28))
              (bit_and 0x01 (bit h.extension_bit << 27)))
            (bit_and 0x0f (length h.csrcs) << 24))
          (bit_and 0x01 (bit h.marker_bit) << 23))
        (bit_and 0x7f h.payload_type << 16))
      (bit_and 0xffff h.sequence_number)

-- A bit field that is read into a `bool`.
abbrev pub flag : ℕ → Bool
flag n = if n == 0 then false else true

module _ (net : ByteOrder) where
  -- The loop of `readBlock` over the contributing sources, `n` of them from word `i` on.
  pub read_csrcs : List ℕ → ℕ → ℕ → RtpHeader → Option RtpHeader
  read_csrcs d i zero h = some h
  read_csrcs d i (suc n) h = load net d i >>= λ w. read_csrcs d (i + 1) n (add_csrc h w).1

  -- The number of words that the header takes: the extension, if there is one, is measured by the
  -- word at `4 + csrcCount ()`.
  pub header_words : List ℕ → RtpHeader → Option ℕ
  header_words d h =
      if h.extension_bit
      then (load net d (4 + length h.csrcs) >>= λ w. some (3 + length h.csrcs + bit_and 0xffff w))
      else some (3 + length h.csrcs)

  -- The header read from an array of `len` words, with what the call returns: 0 if the header is
  -- longer than the array. `none`: the call reads outside of `d`.
  pub read_block : (ℕ → ℕ × ℕ) → RtpHeader → List ℕ → ℕ → Option (ℕ × RtpHeader)
  read_block rand_r h0 d len = load net d 0 >>= λ fields. load net d 1 >>= λ timestamp.
      load net d 2 >>= λ ssrc.
      read_csrcs d 3 (bit_and (fields >> 24) 0x0f) (record (clear rand_r h0) {
        version = fields >> 30;
        padding_bit = flag (bit_and (fields >> 28) 0x01);
        extension_bit = flag (bit_and (fields >> 27) 0x01);
        marker_bit = flag (bit_and (fields >> 23) 0x01);
        payload_type = bit_and (fields >> 16) 0x7f;
        sequence_number = bit_and fields 0xffff;
        timestamp = timestamp;
        ssrc = ssrc;
      })
      >>= λ h. header_words d h >>= λ ret. some (if ltb len ret then 0 else ret, h)

  -- What `writeBlock` returns, and the array after it.
  pub write_block : RtpHeader → List ℕ → ℕ → ℕ × List ℕ
  write_block h d len = if ltb len (3 + length h.csrcs) then (0, d) else (
    3 + length h.csrcs,
    store_words net (store net (store net (store net d 0 (first_word h)) 1 h.timestamp) 2 h.ssrc) 3
        h.csrcs,
  )

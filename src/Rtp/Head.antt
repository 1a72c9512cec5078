-- ===== src/Rtp/Head.antt =====
-- The first word of the RTCP packets, which the classes of lib/rtpbye.cpp, lib/rtpsenderreport.cpp
-- and lib/rtpreceptionreport.cpp compose alike, and the fields that are taken from it.
use net_isdn.Common.{
  ℕ, ◌+◌, ◌*◌, ◌/◌, ◌%◌, ◌^◌, ◌<◌, ◌≡◌, ap, ◌∙◌, bit_and, bit_or, Bool, true, false, arith, bit,
  ltb,
}
use net_isdn.Common.Bits.{◌<<◌, ◌>>◌, bit_or-add, mask-bit_and}
use net_isdn.Rtp.Wire.{IsWord}
use net_isdn.Rtp.Header.{flag}

-- Version, padding bit, number of items, packet type and length less one.
unfoldable pub head_word : ℕ → Bool → ℕ → ℕ → ℕ → ℕ
head_word version padding_bit count type size =
    bit_or
      (bit_or
        (bit_or (bit_or (bit_and 0x03 version << 30) (bit_and 0x01 (bit padding_bit) << 28))
          (bit_and 0x1f count << 24))
        (bit_and 0xff type << 16))
      (bit_and 0xffff size)

-- The fields as `readBlock` takes them.
abbrev pub head_type : ℕ → ℕ
head_type w = bit_and 0xff (w >> 16)

abbrev pub head_version : ℕ → ℕ
head_version w = bit_and 0x03 (w >> 30)

abbrev pub head_padding : ℕ → Bool
head_padding w = flag (bit_and 0x01 (w >> 28))

abbrev pub head_count : ℕ → ℕ
head_count w = bit_and 0x1f (w >> 24)

abbrev pub head_size : ℕ → ℕ
head_size w = bit_and 0xffff w

abbrev sum_of : ℕ → ℕ → ℕ → ℕ → ℕ → ℕ
sum_of v p c t n = v * 2 ^ 30 + p * 2 ^ 28 + c * 2 ^ 24 + t * 2 ^ 16 + n

-- The fields add up where the number of items leaves the place of the padding bit free.
joined :
    (v p c t n : ℕ)
    → v < 4
    → p < 2
    → c < 16
    → t < 256
    → n < 2 ^ 16
    → bit_or (bit_or (bit_or (bit_or (v << 30) (p << 28)) (c << 24)) (t << 16)) n ≡ sum_of v p c t n
joined v p c t n hv hp hc ht hn =
    rw
      (
        bit_or-add 30 (v << 30) (p << 28) (omega arith) (omega arith),
        bit_or-add 28 (v * 2 ^ 30 + p * 2 ^ 28) (c << 24) (omega arith) (omega arith),
        bit_or-add 24 (v * 2 ^ 30 + p * 2 ^ 28 + c * 2 ^ 24) (t << 16) (omega arith) (omega arith),
        bit_or-add 16 (v * 2 ^ 30 + p * 2 ^ 28 + c * 2 ^ 24 + t * 2 ^ 16) n (omega arith)
            (omega arith),
      )
      (omega arith)

joined_all :
    (v c t n : ℕ)
    → v < 4
    → c < 32
    → t < 256
    → n < 2 ^ 16
    → bit_or (bit_or (bit_or (bit_or (v << 30) 0) (c << 24)) (t << 16)) n ≡ sum_of v 0 c t n
joined_all v c t n hv hc ht hn =
    rw
      (
        bit_or-add 1 (v << 30) 0 (omega arith) (omega arith),
        bit_or-add 29 (v * 2 ^ 30 + 0) (c << 24) (omega arith) (omega arith),
        bit_or-add 24 (v * 2 ^ 30 + 0 + c * 2 ^ 24) (t << 16) (omega arith) (omega arith),
        bit_or-add 16 (v * 2 ^ 30 + 0 + c * 2 ^ 24 + t * 2 ^ 16) n (omega arith) (omega arith),
      )
      (omega arith)

-- Without the padding bit, or with fewer than 16 items, the word is the sum of its fields.
pub head_word_plain :
    (v c t n : ℕ)
    → v < 4
    → c < 32
    → t < 256
    → n < 2 ^ 16
    → head_word v false c t n ≡ sum_of v 0 c t n
unfolding head_word
head_word_plain v c t n hv hc ht hn =
    rw (mask-bit_and 2 v, mask-bit_and 5 c, mask-bit_and 8 t, mask-bit_and 16 n)
      (joined_all (v % 4) (c % 32) (t % 256) (n % 2 ^ 16) (omega arith) (omega arith) (omega arith)
          (omega arith)
        ∙ omega arith)

pub head_word_padded :
    (v c t n : ℕ)
    → v < 4
    → c < 16
    → t < 256
    → n < 2 ^ 16
    → head_word v true c t n ≡ sum_of v 1 c t n
unfolding head_word
head_word_padded v c t n hv hc ht hn =
    rw (mask-bit_and 2 v, mask-bit_and 5 c, mask-bit_and 8 t, mask-bit_and 16 n)
      (joined (v % 4) 1 (c % 32) (t % 256) (n % 2 ^ 16) (omega arith) (omega arith) (omega arith)
          (omega arith) (omega arith)
        ∙ omega arith)

-- The fields that come back.
pub record HeadReads (w v c t n : ℕ) (p : Bool) : Type 0 where
  pub version : head_version w ≡ v
  pub padding : head_padding w ≡ p
  pub count : head_count w ≡ c
  pub type : head_type w ≡ t
  pub size : head_size w ≡ n
  pub word : IsWord w

pub flag_small : (b n : ℕ) → b ≡ n / 16 → n < 32 → flag b ≡ ltb 15 n
flag_small b n e h = ground arith

-- The padding bit is read from the top bit of the number of items.
pub head_word-plain_reads :
    (v c t n : ℕ)
    → v < 4
    → c < 32
    → t < 256
    → n < 2 ^ 16
    → HeadReads (head_word v false c t n) v c t n (ltb 15 c)
head_word-plain_reads v c t n hv hc ht hn =
    let w = head_word v false c t n in
    let sum = head_word_plain v c t n hv hc ht hn in
    record {
      version = mask-bit_and 2 (w >> 30) ∙ omega arith;
      padding = ap flag (mask-bit_and 1 (w >> 28)) ∙ flag_small (w / 2 ^ 28 % 2) c (omega arith) hc;
      count = mask-bit_and 5 (w >> 24) ∙ omega arith;
      type = mask-bit_and 8 (w >> 16) ∙ omega arith;
      size = mask-bit_and 16 w ∙ omega arith;
      word = omega arith;
    }

-- With the padding bit the number of items comes back with 16 added.
pub head_word-padded_reads :
    (v c t n : ℕ)
    → v < 4
    → c < 16
    → t < 256
    → n < 2 ^ 16
    → HeadReads (head_word v true c t n) v (c + 16) t n true
head_word-padded_reads v c t n hv hc ht hn =
    let w = head_word v true c t n in
    let sum = head_word_padded v c t n hv hc ht hn in
    let one : w / 2 ^ 28 % 2 ≡ 1 = omega arith in
    record {
      version = mask-bit_and 2 (w >> 30) ∙ omega arith;
      padding = ap flag (mask-bit_and 1 (w >> 28) ∙ one);
      count = mask-bit_and 5 (w >> 24) ∙ omega arith;
      type = mask-bit_and 8 (w >> 16) ∙ omega arith;
      size = mask-bit_and 16 w ∙ omega arith;
      word = omega arith;
    }

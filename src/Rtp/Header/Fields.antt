-- ===== src/Rtp/Header/Fields.antt =====
-- The first word of the header as a sum of its fields, and the fields that are read back from it.
use net_isdn.Common.{
  ℕ, ◌+◌, ◌*◌, ◌/◌, ◌%◌, ◌^◌, ◌≤◌, ◌<◌, ◌≡◌, refl, ap, ◌∙◌, bit_and, bit_or, Bool, true, false,
  arith, length, bit, ltb,
}
use net_isdn.Common.Bits.{◌<<◌, ◌>>◌, bit_or-add, bit_and-mask, mask-bit_and}
use net_isdn.Rtp.Wire.{All, IsWord}
use net_isdn.Rtp.Header.{RtpHeader, max_csrcs, first_word, flag}

extension_lost : (e : Bool) → bit_and 0x01 (bit e << 27) ≡ 0
extension_lost true = refl
extension_lost false = refl

bit-lt : (b : Bool) → bit b < 2
bit-lt true = omega arith
bit-lt false = omega arith

module _ (h : RtpHeader) where
  abbrev sum_30 : ℕ
  sum_30 = h.version % 4 * 2 ^ 30

  abbrev sum_28 : ℕ
  sum_28 = sum_30 + bit h.padding_bit * 2 ^ 28

  abbrev sum_24 : ℕ
  sum_24 = sum_28 + length h.csrcs % 16 * 2 ^ 24

  abbrev sum_23 : ℕ
  sum_23 = sum_24 + bit h.marker_bit * 2 ^ 23

  abbrev pub sum_16 : ℕ
  sum_16 = sum_23 + h.payload_type % 128 * 2 ^ 16

-- Fields that do not overlap add up.
joined :
    (v p c m t s : ℕ)
    → v < 4
    → p < 2
    → c < 16
    → m < 2
    → t < 128
    → s < 2 ^ 16
    → bit_or
        (bit_or
          (bit_or (bit_or (bit_or (bit_or (v << 30) (p << 28)) 0) (c << 24)) (m << 23))
          (t << 16))
        s
      ≡ v * 2 ^ 30 + p * 2 ^ 28 + c * 2 ^ 24 + m * 2 ^ 23 + t * 2 ^ 16 + s
joined v p c m t s hv hp hc hm ht hs =
    rw
      (
        bit_or-add 30 (v << 30) (p << 28) (omega arith) (omega arith),
        bit_or-add 1 (v * 2 ^ 30 + p * 2 ^ 28) 0 (omega arith) (omega arith),
        bit_or-add 28 (v * 2 ^ 30 + p * 2 ^ 28 + 0) (c << 24) (omega arith) (omega arith),
        bit_or-add 24 (v * 2 ^ 30 + p * 2 ^ 28 + 0 + c * 2 ^ 24) (m << 23) (omega arith)
            (omega arith),
        bit_or-add 23 (v * 2 ^ 30 + p * 2 ^ 28 + 0 + c * 2 ^ 24 + m * 2 ^ 23) (t << 16)
            (omega arith) (omega arith),
        bit_or-add 16 (v * 2 ^ 30 + p * 2 ^ 28 + 0 + c * 2 ^ 24 + m * 2 ^ 23 + t * 2 ^ 16) s
            (omega arith) (omega arith),
      )
      (omega arith)

-- The word holds the version from bit 30 on, the padding bit as bit 28, the number of sources from
-- bit 24 on, the marker as bit 23, the payload type from bit 16 on and the sequence number.
pub first_word_sum : (h : RtpHeader) → first_word h ≡ sum_16 h + h.sequence_number % 2 ^ 16
unfolding first_word
first_word_sum h =
    rw
      (
        mask-bit_and 2 h.version,
        mask-bit_and 1 (bit h.padding_bit),
        extension_lost h.extension_bit,
        mask-bit_and 4 (length h.csrcs),
        mask-bit_and 1 (bit h.marker_bit),
        mask-bit_and 7 h.payload_type,
        mask-bit_and 16 h.sequence_number,
      )
      (joined (h.version % 4) (bit h.padding_bit % 2) (length h.csrcs % 16) (bit h.marker_bit % 2)
          (h.payload_type % 128) (h.sequence_number % 2 ^ 16) (omega arith) (omega arith)
          (omega arith) (omega arith) (omega arith) (omega arith)
        ∙ omega (arith, bit-lt h.padding_bit, bit-lt h.marker_bit))

-- A header whose fields fit the wire.
pub record Fits (h : RtpHeader) : Type 0 where
  pub version : h.version < 4
  pub payload_type : h.payload_type < 128
  pub sequence_number : h.sequence_number < 2 ^ 16
  pub timestamp : IsWord h.timestamp
  pub ssrc : IsWord h.ssrc
  pub count : length h.csrcs ≤ max_csrcs
  pub csrcs : All IsWord h.csrcs

-- The first word of an RTP packet, RFC 3550 section 5.1: version, padding, extension, number of
-- contributing sources, marker, payload type, sequence number.
abbrev pub rfc_word : ℕ → ℕ → ℕ → ℕ → ℕ → ℕ → ℕ → ℕ
rfc_word v p x cc m pt seq =
    v * 2 ^ 30 + p * 2 ^ 29 + x * 2 ^ 28 + cc * 2 ^ 24 + m * 2 ^ 23 + pt * 2 ^ 16 + seq

-- For a header that fits the wire the first word is that of RFC 3550, except that the padding bit
-- stands in the place of the extension bit, the padding bit of the standard is always 0, and the
-- extension bit of the header is not written.
pub first_word_rfc :
    (h : RtpHeader)
    → Fits h
    → first_word h
      ≡ rfc_word h.version 0
          (bit h.padding_bit)
          (length h.csrcs)
          (bit h.marker_bit)
          h.payload_type
          h.sequence_number
first_word_rfc h f = omega (arith, first_word_sum h)

pub first_word-IsWord : (h : RtpHeader) → IsWord (first_word h)
first_word-IsWord h = omega (arith, first_word_sum h, bit-lt h.padding_bit, bit-lt h.marker_bit)

flag-bit : (b : Bool) → flag (bit b) ≡ b
flag-bit true = refl
flag-bit false = refl

-- The fields that `readBlock` takes from the first word.
pub record ReadsBack (h : RtpHeader) (w : ℕ) : Type 0 where
  pub version : w >> 30 ≡ h.version
  pub padding : flag (bit_and (w >> 28) 0x01) ≡ h.padding_bit
  pub extension : flag (bit_and (w >> 27) 0x01) ≡ ltb 7 (length h.csrcs)
  pub count : bit_and (w >> 24) 0x0f ≡ length h.csrcs
  pub marker : flag (bit_and (w >> 23) 0x01) ≡ h.marker_bit
  pub payload_type : bit_and (w >> 16) 0x7f ≡ h.payload_type
  pub sequence_number : bit_and w 0xffff ≡ h.sequence_number

pub first_word-ReadsBack : (h : RtpHeader) → Fits h → ReadsBack h (first_word h)
first_word-ReadsBack h f = record {
  version = omega (arith, sums, p2, m2);
  padding =
      ap flag (
        bit_and-mask 1 (first_word h >> 28)
        ∙ (let e : first_word h / 2 ^ 28 % 2 ≡ bit h.padding_bit = omega (arith, sums, p2, m2) in
            e))
      ∙ flag-bit h.padding_bit;
  extension =
      ap flag (bit_and-mask 1 (first_word h >> 27))
      ∙ many (length h.csrcs) (first_word h / 2 ^ 27 % 2) f.count (omega (arith, sums, p2, m2));
  count = bit_and-mask 4 (first_word h >> 24) ∙ omega (arith, sums, p2, m2);
  marker =
      ap flag (
        bit_and-mask 1 (first_word h >> 23)
        ∙ (let e : first_word h / 2 ^ 23 % 2 ≡ bit h.marker_bit = omega (arith, sums, p2, m2) in e))
      ∙ flag-bit h.marker_bit;
  payload_type = bit_and-mask 7 (first_word h >> 16) ∙ omega (arith, sums, p2, m2);
  sequence_number = bit_and-mask 16 (first_word h) ∙ omega (arith, sums, p2, m2);
}
  where
    sums : first_word h ≡ sum_16 h + h.sequence_number % 2 ^ 16
    sums = first_word_sum h

    p2 : bit h.padding_bit < 2
    p2 = bit-lt h.padding_bit

    m2 : bit h.marker_bit < 2
    m2 = bit-lt h.marker_bit

    many : (n b : ℕ) → n ≤ 15 → b ≡ n / 8 → flag b ≡ ltb 7 n
    many n b hn e = ground arith

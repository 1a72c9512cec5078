-- ===== src/Ring/Read.antt =====
-- `read` of lib/ringbuffer.cpp: which bytes it delivers.
use net_isdn.Common.{
  ℕ, ◌+◌, ◌-◌, ◌≤◌, min, ◌≡◌, refl, sym, ap, ap₂, ◌∙◌, List, ◌++◌, arith, length, get_or, ltb, ◌==◌,
  Bool-cases, inl, inr, slice-tabulate, tabulate, tabulate_ext, tabulate-add, length-tabulate,
}
use net_isdn.Ring.{RingBuffer, read}
use net_isdn.Ring.Inv.{IsValid, held, read_space_lem}
use net_isdn.Ring.Copy.{wrap, fetched, fetch_eq}
use net_isdn.Ring.Contents.{contents, smaller-eq-min}

-- What a call of `read` must do: take the first `min cnt held` bytes off.
pub record Took (r : RingBuffer) (cnt : ℕ) (out : ℕ × List ℕ × RingBuffer) : Type 0 where
  pub count : out.0 ≡ min cnt (held r)
  pub length_is : length out.1 ≡ min cnt (held r)
  pub bytes : contents r ≡ out.1 ++ contents out.2
  pub valid : IsValid out.2
  pub same_size : out.2.size ≡ r.size

module _ (r : RingBuffer) (n : ℕ) (v : IsValid r) (hn : n ≤ held r) where
  abbrev after_fetch : RingBuffer
  after_fetch = record r { read_ptr = wrap r (r.read_ptr + n) }

  after_fetch-IsValid : IsValid after_fetch
  after_fetch-IsValid = record {
    power = v.power;
    size_is = v.size_is;
    mask_is = v.mask_is;
    storage = v.storage;
    at_least = v.at_least;
    at_most = v.at_most;
    write_in = v.write_in;
    read_in = ground arith;
  }

  held-fetch : held r ≡ n + held after_fetch
  held-fetch = ground arith

  abbrev pub byte : ℕ → ℕ
  byte i = get_or r.buf (wrap r (r.read_ptr + i)) 0

  pub fetched-tabulate : fetched r n ≡ tabulate byte n
  fetched-tabulate = elim (Bool-cases (ltb r.size (r.read_ptr + n))) [
    | inl two ↦ rw two (
        ap₂ ◌++◌
          (slice-tabulate r.buf r.read_ptr (r.size - r.read_ptr) (omega arith)
            ∙ tabulate_ext (λ i. get_or r.buf (r.read_ptr + i) 0) byte (r.size - r.read_ptr)
                (λ i hi. ground arith))
          (slice-tabulate r.buf 0 (r.read_ptr + n - r.size) (ground arith)
            ∙ tabulate_ext (λ i. get_or r.buf (0 + i) 0) (λ i. byte (r.size - r.read_ptr + i))
                (r.read_ptr + n - r.size) (λ i hi. ground arith))
        ∙ sym (tabulate-add byte (r.size - r.read_ptr) (r.read_ptr + n - r.size))
        ∙ ap (tabulate byte)
            (let e : r.size - r.read_ptr + (r.read_ptr + n - r.size) ≡ n = ground arith in e))
    | inr one ↦ rw one (
        slice-tabulate r.buf r.read_ptr n (ground arith)
        ∙ tabulate_ext (λ i. get_or r.buf (r.read_ptr + i) 0) byte n (λ i hi. ground arith))
  ]

  contents-fetch : contents r ≡ fetched r n ++ contents after_fetch
  contents-fetch =
      ap (tabulate byte) held-fetch
      ∙ tabulate-add byte n (held after_fetch)
      ∙ ap₂ ◌++◌ (sym fetched-tabulate) (
          tabulate_ext (λ i. byte (n + i))
            (λ i. get_or r.buf (wrap r (wrap r (r.read_ptr + n) + i)) 0) (held after_fetch)
            (λ i hi. ground arith))

-- `read` of `cnt` bytes returns the number of bytes that it delivers, delivers exactly that many of
-- the oldest in order, keeps the others, the invariant and the size.
pub read-Took : (r : RingBuffer) (cnt : ℕ) → IsValid r → Took r cnt (read r cnt)
unfolding read
read-Took r cnt v =
    rw (read_space_lem r v, smaller-eq-min)
      (elim (Bool-cases (held r == 0)) [
        | inl empty ↦ rw empty (record {
          count = ground arith;
          length_is = ground arith;
          bytes = refl;
          valid = v;
          same_size = refl;
        })
        | inr some ↦
            rw (some, fetch_eq r n v (ground arith))
              (record {
                count = refl;
                length_is =
                    ap length (fetched-tabulate r n v (omega arith))
                    ∙ length-tabulate (byte r n v (omega arith)) n;
                bytes = contents-fetch r n v (omega arith);
                valid = after_fetch-IsValid r n v (omega arith);
                same_size = refl;
              })
      ])
  where
    n : ℕ
    n = min cnt (held r)

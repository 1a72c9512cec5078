-- ===== src/Ring/Write.antt =====
-- `write` of lib/ringbuffer.cpp: how many bytes it takes, which, and where they go.
use net_isdn.Common.{
  ℕ, ◌+◌, ◌-◌, ◌≤◌, ◌<◌, min, ◌≡◌, refl, sym, ap, ap₂, ◌∙◌, ◌&&◌, List, ◌++◌, append-nil, arith,
  length, get_or, take, drop, ltb, leb, ◌==◌, if◌then◌else◌, Bool-cases, inl, inr, memcpy,
  length-memcpy, get_or-memcpy, length-drop, get_or-drop, tabulate, tabulate_ext, tabulate-add,
  take-tabulate,
}
use net_isdn.Ring.{RingBuffer, write_space, write}
use net_isdn.Ring.Inv.{IsValid, held, write_space_lem}
use net_isdn.Ring.Copy.{wrap, stored, room, store_eq}
use net_isdn.Ring.Contents.{contents, smaller-eq-min}

module _ (r : RingBuffer) (src : List ℕ) (n : ℕ) (v : IsValid r) (hs : n ≤ length src) where
  length-stored : length (stored r src n) ≡ length r.buf
  length-stored = elim (Bool-cases (ltb r.size (r.write_ptr + n))) [
    | inl two ↦ rw (two, length-memcpy, length-memcpy)
    | inr one ↦ rw (one, length-memcpy)
  ]

  -- Index `j` of the storage after the write.
  stored_at :
      (j : ℕ)
      → n < r.size
      → j < r.size
      → get_or (stored r src n) j 0 ≡ (
          if leb r.write_ptr j && ltb j (r.write_ptr + n)
          then get_or src (j - r.write_ptr) 0
          else if ltb (j + r.size) (r.write_ptr + n)
          then get_or src (j + r.size - r.write_ptr) 0
          else get_or r.buf j 0)
  stored_at j hn hj = ground (
    arith,
    get_or-memcpy r.buf r.write_ptr src n j,
    get_or-memcpy r.buf r.write_ptr src (r.size - r.write_ptr) j,
    get_or-memcpy (memcpy r.buf r.write_ptr src (r.size - r.write_ptr)) 0
        (drop (r.size - r.write_ptr) src) (r.write_ptr + n - r.size) j,
    length-memcpy r.buf r.write_ptr src (r.size - r.write_ptr),
    length-drop (r.size - r.write_ptr) src,
    get_or-drop (r.size - r.write_ptr) src j,
  )

  -- What was written is found behind what was held.
  stored_new :
      (i : ℕ)
      → n < r.size
      → i < n
      → get_or (stored r src n) (wrap r (r.write_ptr + i)) 0 ≡ get_or src i 0
  stored_new i hn hi = rw (stored_at (wrap r (r.write_ptr + i)) hn (ground arith)) (ground arith)

  -- Bytes that were held are left alone.
  stored_old :
      (i : ℕ)
      → n ≤ room r
      → i < held r
      → get_or (stored r src n) (wrap r (r.read_ptr + i)) 0
        ≡ get_or r.buf (wrap r (r.read_ptr + i)) 0
  stored_old i hn hi =
      rw (stored_at (wrap r (r.read_ptr + i)) (ground arith) (ground arith)) (ground arith)

  -- The ring after a transfer of `n` bytes into it.
  abbrev pub after_store : RingBuffer
  after_store = record r { buf = stored r src n; write_ptr = wrap r (r.write_ptr + n) }

  after_store-IsValid : n ≤ room r → IsValid after_store
  after_store-IsValid hn = record {
    power = v.power;
    size_is = v.size_is;
    mask_is = v.mask_is;
    storage = length-stored ∙ v.storage;
    at_least = v.at_least;
    at_most = v.at_most;
    write_in = ground arith;
    read_in = v.read_in;
  }

  held-store : n ≤ room r → held after_store ≡ held r + n
  held-store hn = ground arith

  pub contents-store : n ≤ room r → contents after_store ≡ contents r ++ take n src
  contents-store hn =
      ap (tabulate byte) (held-store hn)
      ∙ tabulate-add byte (held r) n
      ∙ ap₂ ◌++◌
          (tabulate_ext byte (λ i. get_or r.buf (wrap r (r.read_ptr + i)) 0) (held r)
            (λ i hi. stored_old i hn hi))
          (tabulate_ext (λ i. byte (held r + i)) (λ i. get_or src i 0) n
              (λ i hi.
                ap (λ k. get_or (stored r src n) k 0)
                  (let e : wrap r (r.read_ptr + (held r + i)) ≡ wrap r (r.write_ptr + i) =
                      ground arith in
                    e)
                ∙ stored_new i (ground arith) hi)
            ∙ sym (take-tabulate n src hs))
    where
      byte : ℕ → ℕ
      byte i = get_or (stored r src n) (wrap r (r.read_ptr + i)) 0

-- What a call of `write` must do: append the first `min cnt (size - 1 - held)` bytes of `src`.
pub record Wrote (r : RingBuffer) (src : List ℕ) (cnt : ℕ) (out : ℕ × RingBuffer) : Type 0 where
  pub count : out.0 ≡ min cnt (room r)
  pub bytes : contents out.1 ≡ contents r ++ take (min cnt (room r)) src
  pub valid : IsValid out.1
  pub same_size : out.1.size ≡ r.size

-- `write` of `cnt` bytes, where `src` has as many: it returns the number of bytes that fit, appends
-- exactly those in order, leaves the bytes held alone, and keeps the invariant and the size.
pub write-Wrote :
    (r : RingBuffer) (src : List ℕ) (cnt : ℕ)
    → IsValid r
    → cnt ≤ length src
    → Wrote r src cnt (write r src cnt)
unfolding write
write-Wrote r src cnt v h =
    rw (space, smaller-eq-min)
      (elim (Bool-cases (room r == 0)) [
        | inl full ↦ rw full (record {
          count = ground arith;
          bytes =
              rw (let e : min cnt (room r) ≡ 0 = ground arith in e) (sym (append-nil (contents r)));
          valid = v;
          same_size = refl;
        })
        | inr free ↦
            rw (free, store_eq r src n v (omega arith))
              (record {
                count = refl;
                bytes = contents-store r src n v (omega arith) (omega arith);
                valid = after_store-IsValid r src n v (omega arith) (omega arith);
                same_size = refl;
              })
      ])
  where
    n : ℕ
    n = min cnt (room r)

    space : write_space r ≡ room r
    space = omega (arith, write_space_lem r v)

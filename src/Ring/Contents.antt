-- ===== src/Ring/Contents.antt =====
-- The bytes that a ring holds, as a list.
use net_isdn.Common.{
  ℕ, ◌+◌, min, ◌≡◌, List, arith, length, get_or, ltb, if◌then◌else◌, tabulate, length-tabulate,
}
use net_isdn.Ring.{RingBuffer}
use net_isdn.Ring.Inv.{held}
use net_isdn.Ring.Copy.{wrap}

-- The bytes held, oldest first.
abbrev pub contents : RingBuffer → List ℕ
contents r = tabulate (λ i. get_or r.buf (wrap r (r.read_ptr + i)) 0) (held r)

pub length-contents : (r : RingBuffer) → length (contents r) ≡ held r
length-contents r = length-tabulate (λ i. get_or r.buf (wrap r (r.read_ptr + i)) 0) (held r)

pub smaller-eq-min : (a b : ℕ) → (if ltb b a then b else a) ≡ min a b
smaller-eq-min a b = ground arith

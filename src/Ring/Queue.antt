-- ===== src/Ring/Queue.antt =====
-- A bounded FIFO of bytes, and that no sequence of calls tells a valid ring from it.
use net_isdn.Common.{
  ℕ, zero, suc, ◌-◌, min, ◌≡◌, refl, sym, ap, ap₂, ◌∙◌, List, [], ◌∷◌, ◌++◌, arith, length, take,
  drop,
}
use net_isdn.Ring.{RingBuffer, read, write, reset}
use net_isdn.Ring.Inv.{IsValid}
use net_isdn.Ring.Contents.{contents, length-contents}
use net_isdn.Ring.Write.{Wrote, write-Wrote}
use net_isdn.Ring.Read.{Took, read-Took}

-- The calls of a client: `write (src, length src)`, `read (dest, cnt)`, `reset ()`.
pub data Call : Type 0 where
  put : List ℕ → Call
  get : ℕ → Call
  clear : Call

-- What a client sees of a call: the count returned and the bytes delivered.
abbrev pub Reply : Type 0
Reply = ℕ × List ℕ

pub run : RingBuffer → List Call → List Reply
run r [] = []
run r (put src ∷ calls) = let (n, r') = write r src (length src) in (n, []) ∷ run r' calls
run r (get cnt ∷ calls) = let (n, out, r') = read r cnt in (n, out) ∷ run r' calls
run r (clear ∷ calls) = (0, []) ∷ run (reset r) calls

-- The same calls on a queue of at most `cap` bytes.
pub run_queue : ℕ → List ℕ → List Call → List Reply
run_queue cap q [] = []
run_queue cap q (put src ∷ calls) =
    let n = min (length src) (cap - length q) in (n, []) ∷ run_queue cap (q ++ take n src) calls
run_queue cap q (get cnt ∷ calls) =
    (min cnt (length q), take cnt q) ∷ run_queue cap (drop cnt q) calls
run_queue cap q (clear ∷ calls) = (0, []) ∷ run_queue cap [] calls

-- A front part of the right length is what `take` and `drop` split off.
split_front :
    (cnt : ℕ) (xs ys : List ℕ)
    → length xs ≡ min cnt (length (xs ++ ys))
    → (take cnt (xs ++ ys) ≡ xs) × (drop cnt (xs ++ ys) ≡ ys)
split_front zero [] ys h = (refl, refl)
split_front (suc cnt) [] [] h = (refl, refl)
split_front (suc cnt) [] (y ∷ ys) h = absurd (omega arith)
split_front zero (x ∷ xs) ys h = absurd (omega arith)
split_front (suc cnt) (x ∷ xs) ys h =
    let (t, d) = split_front cnt xs ys (omega arith) in (ap (◌∷◌ x) t, d)

reset-IsValid : (r : RingBuffer) → IsValid r → IsValid (reset r) × (contents (reset r) ≡ [])
unfolding reset
reset-IsValid r v = (
  record {
    power = v.power;
    size_is = v.size_is;
    mask_is = v.mask_is;
    storage = v.storage;
    at_least = v.at_least;
    at_most = v.at_most;
    write_in = omega arith;
    read_in = omega arith;
  },
  refl,
)

same_size : (r : RingBuffer) → (reset r).size - 1 ≡ r.size - 1
unfolding reset
same_size r = refl

same_run :
    {cap cap' : ℕ} {q q' : List ℕ} (calls : List Call)
    → cap ≡ cap'
    → q ≡ q'
    → run_queue cap q calls ≡ run_queue cap' q' calls
same_run calls e f = ap₂ (λ c l. run_queue c l calls) e f

-- Any sequence of writes, reads and resets of a valid ring returns what a queue of at most
-- `size - 1` bytes returns, started with the bytes that the ring holds.
pub run_refines :
    (calls : List Call) (r : RingBuffer)
    → IsValid r
    → run r calls ≡ run_queue (r.size - 1) (contents r) calls
unfolding run run_queue
run_refines [] r v = refl
run_refines (put src ∷ calls) r v =
    let w : Wrote r src (length src) (write r src (length src)) =
      write-Wrote r src (length src) v (omega arith) in
    rw (length-contents r) (
      ap₂ (λ (n : ℕ) (l : List Reply). (n, []) ∷ l) w.count
        (run_refines calls (write r src (length src)).1 w.valid
          ∙ same_run calls (ap (λ s. s - 1) w.same_size) w.bytes))
run_refines (get cnt ∷ calls) r v =
    let t : Took r cnt (read r cnt) = read-Took r cnt v in
    let (front, back) =
      split_front cnt (read r cnt).1 (contents (read r cnt).2)
        (t.length_is ∙ ap (min cnt) (sym (length-contents r) ∙ ap length t.bytes)) in
    rw (length-contents r) (
      ap₂ ◌∷◌ (ap₂ (λ (n : ℕ) (l : List ℕ). (n, l)) t.count (sym (ap (take cnt) t.bytes ∙ front))) (
        run_refines calls (read r cnt).2 t.valid
        ∙ same_run calls (ap (λ s. s - 1) t.same_size) (sym (ap (drop cnt) t.bytes ∙ back))))
run_refines (clear ∷ calls) r v =
    ap (λ (l : List Reply). (0, []) ∷ l)
      (run_refines calls (reset r) (reset-IsValid r v).0
        ∙ same_run calls (same_size r) (reset-IsValid r v).1)

-- ===== src/Ring/Tests.antt =====
-- Runs of the ring on a storage of four bytes, and the theorems at concrete rings.

use net_isdn.Common.{
  ℕ, ◌+◌, ◌≡◌, refl, false, some, List, [], ◌∷◌, ◌++◌, arith, replicate, length-replicate,
}
use net_isdn.Ring.{
  RingBuffer, Segment, power_of_two, create, read, write, fetch, store, read_space, write_space,
  first_part, second_part, read_advance, write_advance, get_read_vector, get_write_vector,
}
use net_isdn.Ring.Inv.{IsValid, read_space_lem, write_space_lem, held}
use net_isdn.Ring.Contents.{contents}
use net_isdn.Ring.Create.{Created, create-Created}
use net_isdn.Ring.Write.{Wrote, write-Wrote}
use net_isdn.Ring.Read.{Took, read-Took}
use net_isdn.Ring.Queue.{Call, put, get, clear, run, run_queue, run_refines}
use net_isdn.Ring.Vectors.{read_vector_contents, write_vector_fill, fill, shown}

-- Holds 6, then 9, round the end of the storage.
abbrev wrapped : RingBuffer
wrapped = record {
  buf = 9 ∷ 7 ∷ 8 ∷ 6 ∷ [];
  write_ptr = 1;
  read_ptr = 3;
  size = 4;
  size_mask = 3;
  mlocked = false;
}

wrapped-IsValid : IsValid wrapped
wrapped-IsValid = record {
  power = 2;
  size_is = refl;
  mask_is = refl;
  storage = refl;
  at_least = omega arith;
  at_most = omega arith;
  write_in = omega arith;
  read_in = omega arith;
}

abbrev idle : Segment
idle = record { start = 0; len = 0 }

abbrev calls : List Call
calls = put (1 ∷ 2 ∷ []) ∷ get 2 ∷ put (3 ∷ 4 ∷ []) ∷ get 9 ∷ clear ∷ get 1 ∷ []

abbrev zeros : ℕ → List ℕ
zeros n = replicate n 0

read_wraps : (read wrapped 3).1 ≡ 6 ∷ 9 ∷ []
unfolding read fetch read_space first_part second_part read_advance
read_wraps = refl

one_byte_stays_free : (write wrapped (1 ∷ 2 ∷ 3 ∷ []) 3).0 ≡ 1
unfolding write store write_space first_part second_part write_advance
one_byte_stays_free = refl

power_of_two_five : power_of_two 30 1 5 ≡ some 3
unfolding power_of_two
power_of_two_five = refl

create-Created_example : (r : RingBuffer) × (create zeros 5 ≡ some r) × Created 5 r
create-Created_example = create-Created zeros 5 (λ n. length-replicate n 0) (omega arith)

read_space_lem_example : read_space wrapped ≡ held wrapped
read_space_lem_example = read_space_lem wrapped wrapped-IsValid

write_space_lem_example : write_space wrapped + held wrapped + 1 ≡ 4
write_space_lem_example = write_space_lem wrapped wrapped-IsValid

write-Wrote_example : Wrote wrapped (1 ∷ 2 ∷ []) 2 (write wrapped (1 ∷ 2 ∷ []) 2)
write-Wrote_example = write-Wrote wrapped (1 ∷ 2 ∷ []) 2 wrapped-IsValid (omega arith)

read-Took_example : Took wrapped 3 (read wrapped 3)
read-Took_example = read-Took wrapped 3 wrapped-IsValid

run_refines_example : run wrapped calls ≡ run_queue 3 (6 ∷ 9 ∷ []) calls
run_refines_example = run_refines calls wrapped wrapped-IsValid

read_vector_contents_example :
    let (first, second) = get_read_vector wrapped idle in
    shown wrapped first ++ shown wrapped second ≡ 6 ∷ 9 ∷ []
read_vector_contents_example = read_vector_contents wrapped idle wrapped-IsValid

one_left : 1 ≡ write_space wrapped
unfolding write_space
one_left = refl

write_vector_fill_example :
    let parts = get_write_vector wrapped idle in
    (parts.0.len + parts.1.len ≡ write_space wrapped)
    × (contents (write_advance (record wrapped { buf = fill wrapped parts (5 ∷ []) }) 1)
        ≡ 6 ∷ 9 ∷ 5 ∷ [])
write_vector_fill_example = write_vector_fill wrapped idle (5 ∷ []) wrapped-IsValid one_left

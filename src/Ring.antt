-- ===== src/Ring.antt =====
-- lib/ringbuffer.cpp and lib/ringbuffer.h: the single-reader, single-writer byte ring that carries
-- audio between threads. `size_t` has 64 bits; a byte is any number, since bytes are only moved.
-- `malloc` and `::mlock` are arguments: the storage that the one returned, the success of the other.
pub mod Inv
pub mod Copy
pub mod Contents
pub mod Create
pub mod Write
pub mod Read
pub mod Queue
pub mod Vectors
mod Tests
use net_isdn.Common.{
  ℕ, zero, suc, ◌+◌, ◌-◌, ◌%◌, ◌^◌, bit_and, Bool, true, false, Option, none, some, List, ◌++◌, ltb,
  ◌==◌, [], if◌then◌else◌, memcpy, slice, drop,
}
use mathlib.Core.Option

pub record RingBuffer : Type 0 where
  pub buf : List ℕ
  pub write_ptr : ℕ
  pub read_ptr : ℕ
  pub size : ℕ
  pub size_mask : ℕ
  pub mlocked : Bool

abbrev pub add_size : ℕ → ℕ → ℕ
add_size a b = (a + b) % 2 ^ 64

abbrev pub sub_size : ℕ → ℕ → ℕ
sub_size a b = (a + 2 ^ 64 - b) % 2 ^ 64

-- The loop `for (p = 1; 1 << p < sz; p++)`, at `p`, with 31 - p shifts of an `int` to go. `none`: it
-- would evaluate `1 << 31`, which overflows.
pub power_of_two : ℕ → ℕ → ℕ → Option ℕ
power_of_two zero p sz = none
power_of_two (suc left) p sz =
    let rest = power_of_two left (p + 1) sz in if ltb (2 ^ p) sz then rest else some p

-- The constructor; `malloc n` is the block of `n` bytes that was allocated.
pub create : (ℕ → List ℕ) → ℕ → Option RingBuffer
create malloc sz = Option.map fresh (power_of_two 30 1 sz)
  where
    fresh : ℕ → RingBuffer
    fresh p = record {
      buf = malloc (2 ^ p);
      write_ptr = 0;
      read_ptr = 0;
      size = 2 ^ p;
      size_mask = 2 ^ p - 1;
      mlocked = false;
    }

-- `locks` is whether `::mlock` returns 0.
pub mlock : Bool → RingBuffer → Bool × RingBuffer
mlock locks r = if locks then (true, record r { mlocked = true }) else (false, r)

pub reset : RingBuffer → RingBuffer
reset r = record r { read_ptr = 0; write_ptr = 0 }

pub write_advance : RingBuffer → ℕ → RingBuffer
write_advance r cnt = record r { write_ptr = bit_and (add_size r.write_ptr cnt) r.size_mask }

pub read_advance : RingBuffer → ℕ → RingBuffer
read_advance r cnt = record r { read_ptr = bit_and (add_size r.read_ptr cnt) r.size_mask }

pub write_space : RingBuffer → ℕ
write_space rb =
    let w = rb.write_ptr in
    let r = rb.read_ptr in
    if ltb r w
    then sub_size (bit_and (add_size (sub_size r w) rb.size) rb.size_mask) 1
    else if ltb w r
    then sub_size (sub_size r w) 1
    else sub_size rb.size 1

pub read_space : RingBuffer → ℕ
read_space rb =
    let w = rb.write_ptr in
    let r = rb.read_ptr in
    if ltb r w then sub_size w r else bit_and (add_size (sub_size w r) rb.size) rb.size_mask

-- The lengths of the two parts of a transfer of `n` bytes from index `ptr` on.
pub first_part : RingBuffer → ℕ → ℕ → ℕ
first_part rb ptr n = if ltb rb.size (add_size ptr n) then sub_size rb.size ptr else n

pub second_part : RingBuffer → ℕ → ℕ → ℕ
second_part rb ptr n =
    if ltb rb.size (add_size ptr n) then bit_and (add_size ptr n) rb.size_mask else 0

-- The second half of `read`: the transfer of `to_read` bytes, in one part or two.
pub fetch : RingBuffer → ℕ → List ℕ × RingBuffer
fetch rb to_read =
    let n1 = first_part rb rb.read_ptr to_read in
    let n2 = second_part rb rb.read_ptr to_read in
    let out1 = slice rb.buf rb.read_ptr n1 in
    let rb1 = read_advance rb n1 in
    if n2 == 0 then (out1, rb1) else (out1 ++ slice rb1.buf rb1.read_ptr n2, read_advance rb1 n2)

-- What the call returns, the bytes that it leaves at `dest`, and the ring after it.
pub read : RingBuffer → ℕ → ℕ × List ℕ × RingBuffer
read rb cnt =
    let free_cnt = read_space rb in
    let to_read = if ltb free_cnt cnt then free_cnt else cnt in
    if free_cnt == 0
    then (0, [], rb)
    else (let (out, rb') = fetch rb to_read in (to_read, out, rb'))

-- The second half of `write`: the transfer of `to_write` bytes, in one part or two.
pub store : RingBuffer → List ℕ → ℕ → RingBuffer
store rb src to_write =
    let n1 = first_part rb rb.write_ptr to_write in
    let n2 = second_part rb rb.write_ptr to_write in
    let rb1 = write_advance (record rb { buf = memcpy rb.buf rb.write_ptr src n1 }) n1 in
    let buf2 = memcpy rb1.buf rb1.write_ptr (drop n1 src) n2 in
    if n2 == 0 then rb1 else write_advance (record rb1 { buf = buf2 }) n2

pub write : RingBuffer → List ℕ → ℕ → ℕ × RingBuffer
write rb src cnt =
    let free_cnt = write_space rb in
    let to_write = if ltb free_cnt cnt then free_cnt else cnt in
    if free_cnt == 0 then (0, rb) else (to_write, store rb src to_write)

-- `ringbuffer_data_t`, with `buf` as an index into the storage.
pub record Segment : Type 0 where
  pub start : ℕ
  pub len : ℕ

-- The two entries of a vector for `free_cnt` bytes from `ptr` on; the second keeps its pointer where
-- one part is enough.
pub vector : RingBuffer → ℕ → ℕ → Segment → Segment × Segment
vector rb ptr free_cnt old =
    if ltb rb.size (add_size ptr free_cnt)
    then (
      record { start = ptr; len = sub_size rb.size ptr },
      record { start = 0; len = bit_and (add_size ptr free_cnt) rb.size_mask },
    )
    else (record { start = ptr; len = free_cnt }, record old { len = 0 })

pub get_read_vector : RingBuffer → Segment → Segment × Segment
get_read_vector rb old =
    let w = rb.write_ptr in
    let r = rb.read_ptr in
    vector rb r
      (if ltb r w then sub_size w r else bit_and (add_size (sub_size w r) rb.size) rb.size_mask) old

pub get_write_vector : RingBuffer → Segment → Segment × Segment
get_write_vector rb old =
    let w = rb.write_ptr in
    let r = rb.read_ptr in
    vector rb w
      (if ltb r w
        then sub_size (bit_and (add_size (sub_size r w) rb.size) rb.size_mask) 1
        else if ltb w r
        then sub_size (sub_size r w) 1
        else sub_size rb.size 1)
      old

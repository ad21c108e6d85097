-- ===== src/App/Malloc.antt =====
-- lib/app/src/tiny-malloc.c with `MALLOC_DIRECTION` 1: a heap that grows upwards, and a list of the
-- free blocks in it. A block is the address of its size word; its second word is the next free
-- block's address while it is free, and the first of its payload while it is in use.
pub mod Blocks
pub mod Cleared
pub mod Aligned
pub mod Alloc
pub mod Backed
pub mod Freed
pub mod Giving
pub mod Grant
pub mod Resized
pub mod Sizes
mod Tests
use keystone_sdk.Base.{
  ℕ, zero, suc, Bool, ◌&&◌, Option, none, some, not, ltb, leb, ◌==◌, if◌then◌else◌, add64, sub64,
  bit_and,
}
use keystone_sdk.Memory.{Mem, load64, store64}

-- `M_ALIGN`
unfoldable pub m_align : (x align : ℕ) → ℕ
m_align x align = bit_and (sub64 0 x) (sub64 align 1)

-- `sizeof (struct freelist_entry)` and `sizeof (size_t)`
abbrev pub sizeof_entry : ℕ
sizeof_entry = 16

abbrev pub sizeof_size : ℕ
sizeof_size = 8

-- `REAL_SIZE`
unfoldable pub real_size : ℕ → ℕ
unfolding m_align
real_size sz =
    if ltb sz (sub64 sizeof_entry sizeof_size)
    then sizeof_entry
    else add64 (add64 sz sizeof_size) (m_align sz sizeof_size)

-- `MALLOC_MINIMUM_GAP`
abbrev pub minimum_gap : ℕ
minimum_gap = 32

-- What is fixed during a call: the address `&__malloc_start`, the address of the variable
-- `__malloc_freelist`, and `MALLOC_LIMIT`, the address of the stack frame.
pub record Env : Type 0 where
  pub start : ℕ
  pub freelist : ℕ
  pub limit : ℕ

-- The memory, `__malloc_end`, and the state of the runtime, which the system calls change.
pub record Heap (S : Type 0) : Type 0 where
  pub mem : Mem
  pub end : ℕ
  pub os : S

abbrev pub null : ℕ
null = 0

-- `block->size`, and the addresses of the second word, as a field and as the payload.
abbrev pub size_of : Mem → ℕ → ℕ
size_of m block = load64 m block

abbrev pub next_at : ℕ → ℕ
next_at block = add64 block 8

abbrev pub next_of : Mem → ℕ → ℕ
next_of m block = load64 m (next_at block)

-- `CAN_ALLOC_P`
unfoldable pub can_alloc : Env → (end required : ℕ) → Bool
can_alloc env end required = leb required (sub64 (sub64 env.limit end) minimum_gap)

-- `s_brk` is the runtime's system call, and `env` the call's environment.
module _ {S : Type 0} (s_brk : ℕ → S → ℕ × S) (env : Env) where
  unfoldable pub check_range_and_call_sbrk : (addr sz : ℕ) → Heap S → Heap S
  check_range_and_call_sbrk addr sz h =
      let (cur_sbrk, os) = s_brk 0 h.os in
      let top = add64 addr sz in
      if ltb cur_sbrk top
      then record h { os = (s_brk (sub64 top cur_sbrk) os).1 }
      else record h { os = os }

  -- The pointer to the payload, once the range is backed by the runtime.
  unfoldable pub hand_out : (block real : ℕ) → Heap S → ℕ × Heap S
  hand_out block real h = (next_at block, check_range_and_call_sbrk (next_at block) real h)

  -- The label `done`.
  unfoldable pub done : (block real : ℕ) → Heap S → ℕ × Heap S
  done block real h = hand_out block real (record h { mem = store64 h.mem block real })

  -- The block found is unlinked when what would be left of it is no block; else it is split.
  unfoldable pub take_block : (nextfree block real : ℕ) → Heap S → ℕ × Heap S
  take_block nextfree block real h =
      let size = size_of h.mem block in
      let next = next_of h.mem block in
      if ltb size (add64 real sizeof_entry)
      then hand_out block real (record h { mem = store64 h.mem nextfree next })
      else (let rest = add64 block real in
          let m = store64 (store64 h.mem nextfree rest) rest (sub64 size real) in
          done block real (record h { mem = store64 m (next_at rest) next }))

  -- The last free block, at the end of the heap, is enlarged.
  unfoldable pub enlarge : (nextfree block real : ℕ) → Heap S → ℕ × Heap S
  enlarge nextfree block real h =
      if not (can_alloc env h.end (sub64 real (size_of h.mem block)))
      then (null, h)
      else done block real (record h { mem = store64 h.mem nextfree null; end = add64 block real })

  -- New space at the end of the heap.
  unfoldable pub fresh : (real : ℕ) → Heap S → ℕ × Heap S
  fresh real h =
      if not (can_alloc env h.end real)
      then (null, h)
      else done h.end real (record h { end = add64 h.end real })

  -- The loop of `malloc` over the list, at the link that `nextfree` points at.
  unfoldable pub malloc_loop : (fuel nextfree real : ℕ) → Heap S → Option (ℕ × Heap S)
  malloc_loop zero nextfree real h = none
  malloc_loop (suc fuel) nextfree real h =
      let block = load64 h.mem nextfree in
      let rest = malloc_loop fuel (next_at block) real h in
      if block == null
      then some (fresh real h)
      else if leb real (size_of h.mem block)
      then some (take_block nextfree block real h)
      else if next_of h.mem block == null && h.end == add64 block (size_of h.mem block)
      then some (enlarge nextfree block real h)
      else rest

  -- The forced initialisation of `__malloc_end`.
  unfoldable pub init_end : Heap S → Heap S
  init_end h = if h.end == null then record h { end = env.start } else h

  unfoldable pub malloc : (fuel sz : ℕ) → Heap S → Option (ℕ × Heap S)
  malloc fuel sz h = malloc_loop fuel env.freelist (real_size sz) (init_end h)

  -- The block at the link's place, before what the link leads to.
  unfoldable pub insert : (nextfree block : ℕ) → Heap S → Heap S
  insert nextfree block h = record h {
    mem = store64 (store64 h.mem (next_at block) (load64 h.mem nextfree)) nextfree block;
  }

  -- The block is joined to the free block before it, and then to the one after it.
  unfoldable pub join_before : (this block : ℕ) → Heap S → Heap S
  join_before this block h =
      let m = store64 h.mem this (add64 (size_of h.mem this) (size_of h.mem block)) in
      let next = next_of m this in
      if not (next == null) && add64 block (size_of m block) == next
      then (let m' = store64 m this (add64 (size_of m this) (size_of m next)) in
          record h { mem = store64 m' (next_at this) (next_of m' next) })
      else record h { mem = m }

  -- The block is joined to the free block after it, and takes its place.
  unfoldable pub join_after : (nextfree this block : ℕ) → Heap S → Heap S
  join_after nextfree this block h =
      let m = store64 h.mem block (add64 (size_of h.mem block) (size_of h.mem this)) in
      record h { mem = store64 (store64 m (next_at block) (next_of m this)) nextfree block }

  -- The loop of `free`.
  unfoldable pub free_loop : (fuel nextfree block : ℕ) → Heap S → Option (Heap S)
  free_loop zero nextfree block h = none
  free_loop (suc fuel) nextfree block h =
      let this = load64 h.mem nextfree in
      let rest = free_loop fuel (next_at this) block h in
      if this == null
      then some (insert nextfree block h)
      else if add64 this (size_of h.mem this) == block
      then some (join_before this block h)
      else if this == add64 block (size_of h.mem block)
      then some (join_after nextfree this block h)
      else if ltb block this
      then some (insert nextfree block h)
      else rest

  unfoldable pub free : (fuel block_p : ℕ) → Heap S → Option (Heap S)
  free fuel block_p h =
      if block_p == null then some h else free_loop fuel env.freelist (sub64 block_p 8) h

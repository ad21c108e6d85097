-- ===== src/App/Malloc/Aligned.antt =====
-- lib/app/src/tiny-malloc.c with `MALLOC_DIRECTION` 1: `memalign`, a block whose payload starts at a multiple of
-- a power of two, with `valloc`, `pvalloc` and `cfree`.
use keystone_sdk.Base.{
  ℕ, zero, suc, ◌&&◌, ◌||◌, Option, none, some, not, ltb, leb, ◌==◌, if◌then◌else◌, add64, sub64,
  bit_and,
}
use keystone_sdk.Memory.{load64, store64}
use keystone_sdk.App.Malloc.{
  m_align, real_size, sizeof_entry, sizeof_size, Env, Heap, null, size_of, next_at, next_of,
  can_alloc, free,
}

-- `block` and `old_size`, with the heap.
pub record Candidate (S : Type 0) : Type 0 where
  pub block : ℕ
  pub old_size : ℕ
  pub heap : Heap S

-- How the search for a block in a round ends: with a null result, or with a block and the space before it.
pub data Attempt (S : Type 0) : Type 0 where
  refused : Heap S → Attempt S
  found : (before : ℕ) → Candidate S → Attempt S

-- The space before the block, so that its payload is aligned.
unfoldable pub before_size : (align block : ℕ) → ℕ
before_size align block =
    if m_align (next_at block) align == 0
    then 0
    else add64 sizeof_entry (m_align (next_at (add64 block sizeof_entry)) align)

module _ {S : Type 0} (env : Env) where
  -- New space at the end of the heap, as a free block; `none` is a null result.
  unfoldable pub add_space : (align real nextfree : ℕ) → Heap S → Option (Candidate S)
  add_space align real nextfree h =
      let block = h.end in
      let old_size = add64 real (m_align (add64 h.end sizeof_size) align) in
      let m = store64 (store64 h.mem nextfree block) block old_size in
      if not (can_alloc env h.end old_size)
      then none
      else some (record {
        block = block;
        old_size = old_size;
        heap = record h { mem = store64 m (next_at block) null; end = add64 h.end old_size };
      })

  -- The block at the link, or new space.
  unfoldable pub find_block : (align real nextfree : ℕ) → Heap S → Option (Candidate S)
  find_block align real nextfree h =
      let block = load64 h.mem nextfree in
      if block == null
      then add_space align real nextfree h
      else some (record { block = block; old_size = size_of h.mem block; heap = h })

  -- The last free block, at the end of the heap, is enlarged if it is too small.
  unfoldable pub enlarge_last : (real before : ℕ) → Candidate S → Option (Candidate S)
  enlarge_last real before c =
      let h = c.heap in
      let size = size_of h.mem c.block in
      let wanted = add64 before real in
      if (next_of h.mem c.block == null && ltb c.old_size (add64 real before))
        && h.end == add64 c.block size
      then (if not (can_alloc env h.end (sub64 wanted size))
          then none
          else some (record c {
            old_size = wanted;
            heap = record h {
              mem = store64 h.mem c.block wanted;
              end = add64 (add64 c.block before) real;
            };
          }))
      else some c

  -- The block is split: a free block stays before it, and another after it when there is room.
  unfoldable pub split_before : (real before : ℕ) → Candidate S → ℕ × Heap S
  split_before real before c =
      let m = store64 c.heap.mem c.block before in
      let block = add64 c.block before in
      let new_block = add64 block real in
      let m1 = store64 m new_block (sub64 (sub64 c.old_size before) real) in
      let m2 = store64 m1 (next_at new_block) (next_of m1 c.block) in
      let m3 = store64 m2 (next_at c.block) new_block in
      if leb (sub64 c.old_size before) (add64 real sizeof_entry)
      then (next_at block, record c.heap { mem = store64 m block (sub64 c.old_size before) })
      else (next_at block, record c.heap { mem = store64 m3 block real })

  -- The block is unlinked, or split when there is room after it.
  unfoldable pub split_after : (real nextfree : ℕ) → Candidate S → ℕ × Heap S
  split_after real nextfree c =
      let next = next_of c.heap.mem c.block in
      let rest = add64 c.block real in
      let m = store64 c.heap.mem nextfree rest in
      let m1 = store64 m rest (sub64 c.old_size real) in
      let m2 = store64 m1 (next_at rest) next in
      if leb c.old_size (add64 real sizeof_entry)
      then (next_at c.block, record c.heap { mem = store64 c.heap.mem nextfree next })
      else (next_at c.block, record c.heap { mem = store64 m2 c.block real })

  -- The end of a round for a block that will do.
  unfoldable pub take_aligned : (real before nextfree : ℕ) → Candidate S → ℕ × Heap S
  take_aligned real before nextfree c =
      if before == 0 then split_after real nextfree c else split_before real before c

  -- The space before a block, and the block once it is enlarged.
  unfoldable pub prepare_block : (align real : ℕ) → Heap S → Option (Candidate S) → Attempt S
  prepare_block align real h none = refused h
  prepare_block align real h (some c) =
      let before = before_size align c.block in
      elim (enlarge_last real before c) [ none ↦ refused c.heap | some c' ↦ found before c' ]

  -- The loop over the list, at the link that `nextfree` points at.
  unfoldable pub memalign_loop : (fuel align real nextfree : ℕ) → Heap S → Option (ℕ × Heap S)
  memalign_loop zero align real nextfree h = none
  memalign_loop (suc fuel) align real nextfree h =
      elim (prepare_block align real h (find_block align real nextfree h)) [
        | refused h' ↦ some (null, h')
        | found before c ↦
            let rest = memalign_loop fuel align real (next_at c.block) c.heap in
            if leb (add64 real before) c.old_size
            then some (take_aligned real before nextfree c)
            else rest
      ]

  unfoldable pub memalign : (fuel align sz : ℕ) → Heap S → Option (ℕ × Heap S)
  memalign fuel align sz h =
      if not (bit_and align (sub64 align 1) == 0) || align == 0
      then some (null, h)
      else memalign_loop fuel align (real_size sz) env.freelist h

  unfoldable pub valloc : (fuel sz : ℕ) → Heap S → Option (ℕ × Heap S)
  valloc fuel sz h = memalign fuel 128 sz h

  unfoldable pub pvalloc : (fuel sz : ℕ) → Heap S → Option (ℕ × Heap S)
  pvalloc fuel sz h = memalign fuel 128 (add64 sz (m_align sz 128)) h

unfoldable pub cfree :
    {S : Type 0} → (s_brk : ℕ → S → ℕ × S) (env : Env) (fuel p : ℕ) → Heap S → Option (Heap S)
cfree s_brk env fuel p h = free s_brk env fuel p h

-- ===== src/App/Malloc/Tests.antt =====
-- Runs of the allocator over a small heap, and its theorems there.
use keystone_sdk.Base.{
  ℕ, ◌+◌, ◌*◌, ◌%◌, ◌-◌, ◌^◌, ◌≤◌, ◌≡◌, ◌⊎◌, inl, refl, arith, true, some, [], ◌∷◌,
}
use keystone_sdk.Memory.{Mem, load64, store64}
use keystone_sdk.Memory.Laws.{store64-outside}
use keystone_sdk.App.Malloc.{
  Env, Heap, init_end, malloc, free, real_size, can_alloc, malloc_loop, take_block, done, hand_out,
  check_range_and_call_sbrk,
}
use keystone_sdk.App.Malloc.Sizes.{real_size_bounds, real_size_wraps, can_alloc_wraps}
use keystone_sdk.App.Malloc.Blocks.{Block, block}
use keystone_sdk.App.Malloc.Grant.{IsEnv}
use keystone_sdk.App.Malloc.Alloc.{IsHeap, Exhausted, Succeeds, malloc_lem}
use keystone_sdk.App.Malloc.Freed.{IsUsed, IsFreed, free_lem, GivenBack, free-malloc}
use keystone_sdk.App.Malloc.Cleared.{calloc}
use keystone_sdk.App.Malloc.Cleared.Zeroed.{Zeroed, calloc_lem}
use keystone_sdk.App.Malloc.Backed.{IsBreak, check_range_and_call_sbrk_lem}
use keystone_sdk.App.Malloc.Resized.{realloc}
use keystone_sdk.App.Malloc.Resized.Fits.{Resized, realloc_fits}

real_size_bounds_example :
    (real_size 17 % 8 ≡ 0)
    × (16 ≤ real_size 17)
    × (17 + 8 ≤ real_size 17)
    × (real_size 17 ≤ 17 + 16)
real_size_bounds_example = real_size_bounds 17 (omega arith)

real_size_wraps_example : real_size (2 ^ 64 - 1) ≤ 8
real_size_wraps_example = real_size_wraps (2 ^ 64 - 1) (omega arith) (omega arith)

-- A program break that never moves.
abbrev s_brk : ℕ → ℕ → ℕ × ℕ
s_brk n calls = (0x9000, calls + 1)

abbrev env : Env
env = record { start = 0x1000; freelist = 0x800; limit = 0x8000 }

env-IsEnv : IsEnv env
env-IsEnv = record {
  start_pos = omega arith;
  limit_word = omega arith;
  freelist_word = omega arith;
  freelist_apart = inl (omega arith);
}

can_alloc_wraps_example : can_alloc env 0x7ff0 4096 ≡ true
can_alloc_wraps_example =
    can_alloc_wraps env 0x7ff0 4096 (omega arith) (omega arith) (omega arith) (omega arith)

-- A block in use at 0x1000, one free at 0x1040, and one in use at 0x1080.
abbrev memory : Mem
memory =
    store64 (store64 (store64 (store64 (λ _. 0) 0x800 0x1040) 0x1000 0x40) 0x1040 0x40) 0x1080 0x40

abbrev heap : Heap ℕ
heap = record { mem = memory; end = 0x10c0; os = 0 }

abbrev free_block : Block
free_block = block 0x1040 0x40

abbrev used_block : Block
used_block = block 0x1080 0x40

heap-IsHeap : IsHeap env heap (free_block ∷ [])
unfolding load64 store64
heap-IsHeap = record {
  begun = omega arith;
  gap = omega arith;
  layout = omega arith;
  chain = (refl, refl, refl);
}

used_block-IsUsed : IsUsed env heap (free_block ∷ []) used_block
unfolding load64 store64
used_block-IsUsed = record {
  header = refl;
  big = omega arith;
  inside = omega arith;
  apart = omega arith;
}

heap-IsHeap_begun : IsHeap env (init_end s_brk env heap) (free_block ∷ [])
unfolding init_end
heap-IsHeap_begun = heap-IsHeap

-- 20 bytes are taken from the block at 0x1040.
malloc_lem_example :
    Exhausted s_brk env env-IsEnv 20
      (init_end s_brk env heap)
      (free_block ∷ [])
      (malloc s_brk env 2 20 heap)
    ⊎ Succeeds s_brk env env-IsEnv 20
        (init_end s_brk env heap)
        (free_block ∷ [])
        (malloc s_brk env 2 20 heap)
malloc_lem_example =
    malloc_lem s_brk env env-IsEnv 2 20 heap (free_block ∷ []) (omega arith) (omega arith)
      heap-IsHeap_begun

free_lem_example :
    (h' : Heap ℕ) × (free s_brk env 2 0x1088 heap ≡ some h')
    × IsFreed env heap (free_block ∷ []) used_block h'
free_lem_example =
    free_lem s_brk env env-IsEnv 2 used_block heap (free_block ∷ []) (omega arith) heap-IsHeap
      used_block-IsUsed

-- The upper half of the block stays free.
abbrev heap_split : Heap ℕ
heap_split = record {
  mem = store64 (store64 (store64 (store64 memory 0x800 0x1060) 0x1060 0x20) 0x1068 0) 0x1040 0x20;
  end = 0x10c0;
  os = 1;
}

malloc-split : malloc s_brk env 2 20 heap ≡ some (0x1048, heap_split)
unfolding malloc malloc_loop load64 init_end store64 real_size take_block done hand_out
    check_range_and_call_sbrk
malloc-split = refl

-- The caller writes a word to the payload, and gives the block back.
free-malloc_example :
    GivenBack s_brk env env-IsEnv 2
      (init_end s_brk env heap)
      (free_block ∷ [])
      0x1048
      heap_split
      (store64 heap_split.mem 0x1048 42)
free-malloc_example =
    free-malloc s_brk env env-IsEnv 2 20 heap (free_block ∷ []) 0x1048 heap_split
      (store64 heap_split.mem 0x1048 42) (omega arith) (omega arith) heap-IsHeap_begun malloc-split
      (λ e. omega arith) (λ x o. store64-outside heap_split.mem 0x1048 42 x (omega arith))

-- Five elements of four bytes each.
calloc_lem_example :
    Exhausted s_brk env env-IsEnv
      (5 * 4)
      (init_end s_brk env heap)
      (free_block ∷ [])
      (calloc s_brk env 2 5 4 heap)
    ⊎ Zeroed s_brk env env-IsEnv
        (5 * 4)
        (init_end s_brk env heap)
        (free_block ∷ [])
        (calloc s_brk env 2 5 4 heap)
calloc_lem_example =
    calloc_lem s_brk env env-IsEnv 2 5 4 heap (free_block ∷ []) (omega arith) (omega arith)
      heap-IsHeap_begun

-- A program break that is the state itself.
abbrev moving_brk : ℕ → ℕ → ℕ × ℕ
moving_brk n os = (os, os + n)

moving_brk-IsBreak : IsBreak moving_brk (λ os. os)
moving_brk-IsBreak = record { returned = λ n os. refl; moved = λ n os h. refl }

abbrev low_heap : Heap ℕ
low_heap = record { mem = memory; end = 0x10c0; os = 0x1000 }

check_range_and_call_sbrk_lem_example :
    let h' = check_range_and_call_sbrk moving_brk env 0x1048 0x20 low_heap in
    (0x1048 + 0x20 ≤ h'.os)
    × (0x1000 ≤ h'.os)
    × (0x1048 + 0x20 ≤ 0x1000 → h'.os ≡ 0x1000)
    × (h'.mem ≡ memory)
    × (h'.end ≡ 0x10c0)
check_range_and_call_sbrk_lem_example =
    check_range_and_call_sbrk_lem moving_brk env (λ os. os) moving_brk-IsBreak 0x1048 0x20 low_heap
      (omega arith) (omega arith)

-- The block at 0x1080 shrinks to 24 bytes of payload, and what is cut off is free.
realloc_fits_example :
    Resized s_brk env env-IsEnv 24 heap
      (free_block ∷ [])
      used_block
      (realloc s_brk env 2 0x1088 24 heap)
realloc_fits_example =
    realloc_fits s_brk env env-IsEnv 2 24 used_block heap (free_block ∷ []) (omega arith)
      heap-IsHeap used_block-IsUsed (omega arith)
      (let r = real_size_bounds 24 (omega arith) in omega arith)

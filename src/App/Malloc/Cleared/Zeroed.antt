-- ===== src/App/Malloc/Cleared/Zeroed.antt =====
-- What a caller of `calloc` may rely on.
use keystone_sdk.Base.{
  ℕ, ◌+◌, ◌-◌, ◌*◌, ◌^◌, ◌≤◌, ◌<◌, ◌≡◌, ◌⊎◌, inl, inr, refl, arith, Option, some, List, length,
  ◌==◌, false, mul64, word_mod, ◌%◌,
}
use keystone_sdk.Memory.{Mem}
use keystone_sdk.App.Str.Fill.{fill, memset-fill}
use keystone_sdk.App.Malloc.{Env, Heap, null, init_end, malloc}
use keystone_sdk.App.Malloc.Blocks.{Block}
use keystone_sdk.App.Malloc.Grant.{IsEnv}
use keystone_sdk.App.Malloc.Alloc.{IsHeap, IsAllocated, Exhausted, Succeeds, malloc_lem}
use keystone_sdk.App.Malloc.Freed.{IsUsed, written-IsHeap}
use keystone_sdk.App.Malloc.Cleared.{clear, with_memory, calloc}

mod_small : (t : ℕ) → t < word_mod → t % word_mod ≡ t
mod_small t h = omega arith

module _ {S : Type 0} (s_brk : ℕ → S → ℕ × S) (env : Env) (is_env : IsEnv env) where
  -- A pointer to a payload of zeros, to a block in use before which the heap is as `malloc` left it.
  abbrev pub Zeroed : (sz : ℕ) (h : Heap S) (bs : List Block) → Option (ℕ × Heap S) → Type 0
  Zeroed sz h bs run =
      (p : ℕ) × (h' : Heap S) × (m : Mem) × (is : IsAllocated env sz h bs p h') × (run
        ≡ some (p, record h' { mem = m }))
      × IsHeap env (record h' { mem = m }) is.rest
      × IsUsed env (record h' { mem = m }) is.rest is.granted
      × ((x : ℕ) → p ≤ x → x < p + sz → m x ≡ 0)
      × ((x : ℕ) → (x < p) ⊎ (p + sz ≤ x) → m x ≡ h'.mem x)

  fill-zeros : (m : Mem) (p sz x : ℕ) → p ≤ x → x < p + sz → fill m p sz 0 x ≡ 0
  unfolding fill
  fill-zeros m p sz x a b = ground arith

  fill-outside : (m : Mem) (p sz x : ℕ) → (x < p) ⊎ (p + sz ≤ x) → fill m p sz 0 x ≡ m x
  unfolding fill
  fill-outside m p sz x o = ground arith

  clear-Zeroed :
      (sz : ℕ) (h : Heap S) (bs : List Block) (p : ℕ) (h' : Heap S)
      → IsAllocated env sz h bs p h'
      → Zeroed sz h bs (clear sz (some (p, h')))
  unfolding clear with_memory
  clear-Zeroed sz h bs p h' is =
      let pointer = is.pointer in
      let enough = is.enough in
      let inside = is.inside in
      let gap = is.heap.gap in
      let word = is_env.limit_word in
      let nonnull : (p == null) ≡ false = ground arith in
      let m = fill h'.mem p sz 0 in
      let (heap, used) =
        written-IsHeap s_brk env is_env sz h bs p h' m is (λ x o. fill-outside h'.mem p sz x o) in
      rw (nonnull, memset-fill p 0 sz h'.mem (omega arith))
        (
          p,
          h',
          m,
          is,
          refl,
          heap,
          used,
          λ x a b. fill-zeros h'.mem p sz x a b,
          λ x o. fill-outside h'.mem p sz x o,
        )

  clear-cases :
      (sz : ℕ) (h : Heap S) (bs : List Block) (run : Option (ℕ × Heap S))
      → Exhausted s_brk env is_env sz h bs run ⊎ Succeeds s_brk env is_env sz h bs run
      → Exhausted s_brk env is_env sz h bs (clear sz run) ⊎ Zeroed sz h bs (clear sz run)
  unfolding clear
  clear-cases sz h bs run (inl (e, below, full)) = rw e (inl (refl, below, full))
  clear-cases sz h bs run (inr (out, e, is)) = rw e (inr (clear-Zeroed sz h bs out.0 out.1 is))

  -- For an environment whose list variable lies outside the heap, a heap that stands for free blocks
  -- once its end is initialised, and `n` elements of together at most 2^64 - 32 bytes: `calloc` ends
  -- with the fuel that `malloc` and `memset` need. Either it returns null and changes nothing but that
  -- initialisation, where no free block is large enough and the end of the heap has no room; or it
  -- returns a pointer such as `malloc` returns, all bytes requested are zero, no others differ from
  -- what `malloc` left, and the heap stands for the blocks that are left.
  pub calloc_lem :
      (fuel n elem_size : ℕ) (h : Heap S) (bs : List Block)
      → length bs < fuel
      → n * elem_size ≤ 2 ^ 64 - 32
      → IsHeap env (init_end s_brk env h) bs
      → let h0 = init_end s_brk env h in
        let run = calloc s_brk env fuel n elem_size h in
        Exhausted s_brk env is_env (n * elem_size) h0 bs run ⊎ Zeroed (n * elem_size) h0 bs run
  unfolding calloc
  calloc_lem fuel n elem_size h bs f small is =
      let sz : mul64 n elem_size ≡ n * elem_size = mod_small (n * elem_size) (omega arith) in
      rw sz (
        clear-cases (n * elem_size) (init_end s_brk env h) bs
          (malloc s_brk env fuel (n * elem_size) h)
          (malloc_lem s_brk env is_env fuel (n * elem_size) h bs f small is))

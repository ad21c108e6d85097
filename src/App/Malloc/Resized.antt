-- ===== src/App/Malloc/Resized.antt =====
-- lib/app/src/tiny-malloc.c: `realloc`.
pub mod Fits
use keystone_sdk.Base.{ℕ, ◌+◌, Option, none, some, ltb, leb, ◌==◌, if◌then◌else◌, add64, sub64}
use keystone_sdk.Memory.{Mem, store64}
use keystone_sdk.App.Str.{memcpy}
use keystone_sdk.App.Malloc.{
  Env, Heap, null, sizeof_entry, sizeof_size, real_size, size_of, next_at, malloc, free,
}

-- The pointer that is returned, with the heap that `free` leaves.
unfoldable pub returning : {S : Type 0} → (p : ℕ) → Option (Heap S) → Option (ℕ × Heap S)
returning p none = none
returning p (some h) = some (p, h)

module _ {S : Type 0} (s_brk : ℕ → S → ℕ × S) (env : Env) where
  -- Once the payload was copied to the new block, the old one is freed.
  unfoldable pub free_copied : (fuel result block_p : ℕ) → Heap S → Option Mem → Option (ℕ × Heap S)
  free_copied fuel result block_p h none = none
  free_copied fuel result block_p h (some m) =
      returning result (free s_brk env fuel block_p (record h { mem = m }))

  -- Allocate, copy, and free.
  unfoldable pub move_block :
      (fuel block_p sz old_size : ℕ) → Option (ℕ × Heap S) → Option (ℕ × Heap S)
  move_block fuel block_p sz old_size none = none
  move_block fuel block_p sz old_size (some (result, h)) =
      let len = if ltb old_size sz then old_size else sz in
      if result == null
      then some (null, h)
      else free_copied fuel result block_p h (memcpy (len + 1) result block_p len h.mem)

  -- The block is split, and its upper part freed.
  unfoldable pub give_upper : (fuel block block_p real old : ℕ) → Heap S → Option (ℕ × Heap S)
  give_upper fuel block block_p real old h =
      let newblock = add64 block real in
      let m = store64 (store64 h.mem block real) newblock (sub64 old real) in
      returning block_p (free s_brk env fuel (next_at newblock) (record h { mem = m }))

  unfoldable pub realloc : (fuel block_p sz : ℕ) → Heap S → Option (ℕ × Heap S)
  realloc fuel block_p sz h =
      let block = sub64 block_p 8 in
      let real = real_size sz in
      let old = size_of h.mem block in
      if block_p == null
      then malloc s_brk env fuel sz h
      else if ltb old real
      then move_block fuel block_p sz (sub64 old sizeof_size) (malloc s_brk env fuel sz h)
      else if leb sizeof_entry (sub64 old real)
      then give_upper fuel block block_p real old h
      else some (block_p, h)

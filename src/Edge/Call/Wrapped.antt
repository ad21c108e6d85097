-- ===== src/Edge/Call/Wrapped.antt =====
-- `edge_call_setup_wrapped_ret`: the host copies a result behind the call and a wrapper that says
-- where it lies, for the enclave to find.
use keystone_sdk.Base.{ℕ, ◌+◌, ◌-◌, ◌≤◌, ◌<◌, ◌≡◌, ◌⊎◌, inl, inr, arith, refl, ap, ◌∙◌, add64}
use keystone_sdk.Memory.{Mem, load64, store64, copy}
use keystone_sdk.Memory.Laws.{load64-store64_self, load64-store64_ne, store64-outside, copy-inside}
use keystone_sdk.Edge.Shared.{Region, ok, get_ptr_from_offset}
use keystone_sdk.Edge.Shared.Checks.{IsRegion, get_offset_from_ptr-ok, get_ptr_from_offset_iff}
use keystone_sdk.Edge.Call.{
  EdgeData, store_edge_data, wrapper_offset, setup_wrapped_ret, ret_ptr, sizeof_edge_call,
  sizeof_edge_data, call_ret_offset_at, call_ret_size_at,
}
use keystone_sdk.Edge.Call.Setup.{offset_into-ok}

module _ (r : Region) (unset : EdgeData) (call ptr size : ℕ) (m : Mem) (w : IsRegion r)
    (room : 96 ≤ r.len) where
  -- The memory after the copy, after the wrapper's first two fields, after the wrapper, after the
  -- return size, and at the end, where the region has room for the check of the wrapper.
  abbrev copied : Mem
  copied = copy m (r.start + 72) ptr size

  abbrev half : Mem
  half = store64 (store64 copied (r.start + 48) 72) (r.start + 48 + 8) unset.data_va

  abbrev with_wrapper : Mem
  with_wrapper = store64 half (r.start + 48 + 16) size

  abbrev with_size : Mem
  with_size = store64 with_wrapper (call_ret_size_at call) 24

  abbrev wrapped : Mem
  wrapped = store64 with_size (call_ret_offset_at call) 48

  wrapper_offset-eq : (u : ℕ) → wrapper_offset r u ≡ 72
  unfolding wrapper_offset
  wrapper_offset-eq u =
      let e : add64 (add64 r.start sizeof_edge_call) sizeof_edge_data ≡ r.start + 72 =
        omega arith in
      let d : r.start + 72 - r.start ≡ 72 = omega arith in
      rw
        (
          e,
          wrapper_offset,
          get_offset_from_ptr-ok r (r.start + 72) sizeof_edge_data w (omega arith) (omega arith)
              (omega arith),
        )
        d

  setup_wrapped_ret-eq : setup_wrapped_ret r unset call ptr size m ≡ (0, wrapped)
  unfolding setup_wrapped_ret store_edge_data
  setup_wrapped_ret-eq =
      let e : add64 r.start sizeof_edge_call ≡ r.start + 48 = omega arith in
      let e' : add64 (r.start + 48) sizeof_edge_data ≡ r.start + 72 = omega arith in
      let d : r.start + 48 - r.start ≡ 48 = omega arith in
      rw
        (
          e,
          e',
          wrapper_offset-eq unset.offset,
          offset_into-ok r (r.start + 48) 24 w (omega arith) (omega arith) (call_ret_offset_at call)
              _ (omega arith),
        )
        (rw d refl)

  wrapped-ret_ptr : ret_ptr r wrapped call ≡ ok (r.start + 48)
  unfolding ret_ptr
  wrapped-ret_ptr =
      let size_read : load64 wrapped (call_ret_size_at call) ≡ 24 =
        load64-store64_ne with_size (call_ret_offset_at call) (call_ret_size_at call) 48
          (inr (omega arith))
        ∙ load64-store64_self with_wrapper (call_ret_size_at call) 24 (omega arith) in
      rw (load64-store64_self with_size (call_ret_offset_at call) 48 (omega arith), size_read)
        ((get_ptr_from_offset_iff r 48 24 (r.start + 48) (omega arith) (omega arith) (omega arith)
            (omega arith)).0.1
          (omega arith))

  module _ (apart : (call + 48 ≤ r.start + 48) ⊎ (r.start + 72 + size ≤ call)) where
    -- The two stores into the call leave what lies apart from it.
    load64-wrapped :
        (a : ℕ)
        → r.start + 48 ≤ a
        → a + 8 ≤ r.start + 72 + size
        → load64 wrapped a ≡ load64 with_wrapper a
    load64-wrapped a lo hi =
        load64-store64_ne with_size (call_ret_offset_at call) a 48 (omega arith)
        ∙ load64-store64_ne with_wrapper (call_ret_size_at call) a 24 (omega arith)

    wrapped-offset : load64 wrapped (r.start + 48) ≡ 72
    wrapped-offset =
        load64-wrapped (r.start + 48) (omega arith) (omega arith)
        ∙ load64-store64_ne half (r.start + 48 + 16) (r.start + 48) size (inl (omega arith))
        ∙ load64-store64_ne (store64 copied (r.start + 48) 72) (r.start + 48 + 8) (r.start + 48)
            unset.data_va (inl (omega arith))
        ∙ load64-store64_self copied (r.start + 48) 72 (omega arith)

    wrapped-size : size < r.len → load64 wrapped (r.start + 48 + 16) ≡ size
    wrapped-size h =
        load64-wrapped (r.start + 48 + 16) (omega arith) (omega arith)
        ∙ load64-store64_self half (r.start + 48 + 16) size (omega arith)

    wrapped-payload : (i : ℕ) → i < size → wrapped (r.start + 72 + i) ≡ m (ptr + i)
    wrapped-payload i h =
        let x = r.start + 72 + i in
        store64-outside with_size (call_ret_offset_at call) 48 x (omega arith)
        ∙ store64-outside with_wrapper (call_ret_size_at call) 24 x (omega arith)
        ∙ store64-outside half (r.start + 48 + 16) size x (omega arith)
        ∙ store64-outside (store64 copied (r.start + 48) 72) (r.start + 48 + 8) unset.data_va x
            (omega arith)
        ∙ store64-outside copied (r.start + 48) 72 x (omega arith)
        ∙ copy-inside m (r.start + 72) ptr size i h

  -- For a region that does not wrap and has at least 96 bytes, a result of `size` bytes that fits
  -- behind the wrapper, from a source apart from its copy, and a call record apart from the bytes
  -- that are written: the code is 0, the callee's `ret_ptr` finds the wrapper, the wrapper's offset
  -- and size translate to the copy, and the copy holds the source's bytes.
  pub setup_wrapped_ret-ret_ptr :
      72 + size ≤ r.len
      → (call + 48 ≤ r.start + 48) ⊎ (r.start + 72 + size ≤ call)
      → (ptr + size ≤ r.start + 72) ⊎ (r.start + 72 + size ≤ ptr)
      → let (code, n) = setup_wrapped_ret r unset call ptr size m in
        (code ≡ 0)
        × (ret_ptr r n call ≡ ok (r.start + 48))
        × (get_ptr_from_offset r (load64 n (r.start + 48)) (load64 n (r.start + 48 + 16))
            ≡ ok (r.start + 72))
        × (load64 n (r.start + 48 + 16) ≡ size)
        × ((i : ℕ) → i < size → n (r.start + 72 + i) ≡ m (ptr + i))
  setup_wrapped_ret-ret_ptr fits apart src = rw setup_wrapped_ret-eq (
    refl,
    wrapped-ret_ptr,
    rw (wrapped-offset apart, wrapped-size apart (omega arith))
        ((get_ptr_from_offset_iff r 72 size (r.start + 72) (omega arith) (omega arith) (omega arith)
            (omega arith)).0.1
          (omega arith)),
    wrapped-size apart (omega arith),
    wrapped-payload apart,
  )

  -- The check does not look at `size`. For a region that does not wrap and has at least 96 bytes, a call
  -- record at or below the region's start, and a source apart from its copy (as `memcpy` asks): where
  -- the result is longer than the room behind the wrapper, the code is 0 all the same, and the byte just
  -- behind the region is overwritten by the source's.
  pub setup_wrapped_ret_overflow :
      r.len < 72 + size
      → call ≤ r.start
      → (ptr + size ≤ r.start + 72) ⊎ (r.start + 72 + size ≤ ptr)
      → ((setup_wrapped_ret r unset call ptr size m).0 ≡ 0)
        × ((setup_wrapped_ret r unset call ptr size m).1 (r.start + r.len) ≡ m (ptr + (r.len - 72)))
  setup_wrapped_ret_overflow over apart src = rw setup_wrapped_ret-eq (
    refl,
    ap wrapped (omega arith) ∙ wrapped-payload (inl (omega arith)) (r.len - 72) (omega arith),
  )

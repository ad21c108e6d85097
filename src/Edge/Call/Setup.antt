-- ===== src/Edge/Call/Setup.antt =====
-- Setting up the argument or the return range of an edge call, and finding it again on the other
-- side.
use keystone_sdk.Base.{ℕ, ◌+◌, ◌-◌, ◌≤◌, ◌<◌, ◌≡◌, ◌≢◌, ◌⊎◌, inl, inr, arith, IsWord, refl, ◌∙◌}
use keystone_sdk.Memory.{Mem, load64, store64}
use keystone_sdk.Memory.Laws.{load64-store64_self, load64-store64_ne, store64-outside}
use keystone_sdk.Edge.Shared.{Region, Checked, ok, get_ptr_from_offset}
use keystone_sdk.Edge.Shared.Checks.{
  IsRegion, InRegion, InRegion-cases, get_offset_from_ptr-ok, get_ptr_from_offset_iff,
  get_offset_from_ptr-err,
}
use keystone_sdk.Edge.Call.{
  call_arg_offset_at, call_arg_size_at, call_ret_offset_at, call_ret_size_at, args_ptr, ret_ptr,
  offset_into, setup_call, setup_ret,
}

-- What a set up call promises, for the offset field at `field` and the size field behind it:
-- inside the region code 0 and a range that `find` reads back, outside it another code, and in
-- either case no change but to the two fields.
pub record SetsRange (r : Region) (ptr size field : ℕ) (m : Mem) (find : Mem → Checked)
    (out : ℕ × Mem) : Type 0 where
  pub found : InRegion r ptr size → (out.0 ≡ 0) × (find out.1 ≡ ok ptr)
  pub refused : ¬ (InRegion r ptr size) → out.0 ≢ 0
  pub frame : (x : ℕ) → (x < field) ⊎ (field + 16 ≤ x) → out.1 x ≡ m x

module _ (r : Region) (ptr size : ℕ) (w : IsRegion r) (hp : IsWord ptr) (hs : IsWord size) where
  -- A range inside the region is named by its offset, and found again.
  pub get_ptr_from_offset-sub :
      InRegion r ptr size → get_ptr_from_offset r (ptr - r.start) size ≡ ok ptr
  get_ptr_from_offset-sub i =
      (get_ptr_from_offset_iff r (ptr - r.start) size ptr (omega arith) (omega arith) hs
          (omega arith)).0.1
        (omega arith)

  pub offset_into-ok :
      (field : ℕ) (m : Mem)
      → InRegion r ptr size
      → offset_into r ptr size field m ≡ (0, store64 m field (ptr - r.start))
  unfolding offset_into
  offset_into-ok field m i = rw (offset_into, get_offset_from_ptr-ok r ptr size w hp hs i)

  pub offset_into-err :
      (field : ℕ) (m : Mem)
      → ¬ (InRegion r ptr size)
      → (c : ℕ) × (offset_into r ptr size field m ≡ (c, m)) × (c ≢ 0)
  unfolding offset_into
  offset_into-err field m i =
      let (c, e, ne) = get_offset_from_ptr-err r ptr size w hp hs i in (c, rw (offset_into, e), ne)

  offset_into-SetsRange :
      (field size_field : ℕ) (m : Mem)
      → size_field ≡ field + 8
      → SetsRange r ptr size field m
          (λ n. get_ptr_from_offset r (load64 n field) (load64 n size_field))
          (offset_into r ptr size field (store64 m size_field size))
  offset_into-SetsRange field size_field m e = record {
    found = λ i. rw (offset_into-ok field (store64 m size_field size) i) (
      refl,
      rw
          (
            load64-store64_self (store64 m size_field size) field (ptr - r.start) (omega arith),
            load64-store64_ne (store64 m size_field size) field size_field (ptr - r.start)
                (inr (omega arith)),
            load64-store64_self m size_field size hs,
          )
          (get_ptr_from_offset-sub i),
    );
    refused =
        λ i. let (c, e', ne) = offset_into-err field (store64 m size_field size) i in rw e' ne;
    frame = λ x o. elim (InRegion-cases r ptr size) [
      | inl i ↦ rw (offset_into-ok field (store64 m size_field size) i) (
          store64-outside _ field _ x (omega arith)
          ∙ store64-outside m size_field size x (omega arith))
      | inr i ↦
          let (c, e', ne) = offset_into-err field (store64 m size_field size) i in
          rw e' (store64-outside m size_field size x (omega arith))
    ];
  }

  -- In a region that does not wrap, and for every range: `setup_call` returns 0 and `args_ptr`
  -- then finds the pointer when the range lies in the region, returns a code that is not 0 when it
  -- does not, and changes no byte but the call's argument offset and size.
  pub setup_call-args_ptr :
      (call : ℕ) (m : Mem)
      → SetsRange r ptr size
          (call_arg_offset_at call)
          m
          (λ n. args_ptr r n call)
          (setup_call r call ptr size m)
  unfolding setup_call args_ptr
  setup_call-args_ptr call m =
      offset_into-SetsRange (call_arg_offset_at call) (call_arg_size_at call) m (omega arith)

  -- In a region that does not wrap, and for every range: `setup_ret` returns 0 and `ret_ptr` then
  -- finds the pointer when the range lies in the region, returns a code that is not 0 when it does
  -- not, and changes no byte but the call's return offset and size.
  pub setup_ret-ret_ptr :
      (call : ℕ) (m : Mem)
      → SetsRange r ptr size
          (call_ret_offset_at call)
          m
          (λ n. ret_ptr r n call)
          (setup_ret r call ptr size m)
  unfolding setup_ret ret_ptr
  setup_ret-ret_ptr call m =
      offset_into-SetsRange (call_ret_offset_at call) (call_ret_size_at call) m (omega arith)

-- ===== src/Edge/Syscall/Serve.antt =====
-- Every path of the proxy: refused arguments, unknown numbers, and a served call with its result.
use keystone_sdk.Base.{
  ℕ, ◌+◌, ◌≤◌, ◌<◌, ◌≡◌, ◌≢◌, ◌↔◌, ◌⊎◌, inl, refl, arith, none, some, List, [], ◌∷◌, IsWord, ◌∙◌,
}
use keystone_sdk.Memory.{load64, store64}
use keystone_sdk.Memory.Laws.{load64-store64_self, load64-store64_ne, load64-ext, store64-outside}
use keystone_sdk.Edge.Shared.{Region, ok}
use keystone_sdk.Edge.Shared.Checks.{IsRegion, get_ptr_from_offset_iff}
use keystone_sdk.Edge.Call.{args_ptr, ret_ptr, data_ptr, call_status_at, call_ret_offset_at}
use keystone_sdk.Edge.Call.Setup.{setup_ret-ret_ptr}
use keystone_sdk.Edge.World.{
  World, status_ok, status_syscall_failed, set_status, OnlyStatus, set_status-OnlyStatus,
}
use keystone_sdk.Edge.Syscall.{Kernel, perform, finish, serve, incoming_syscall}

-- The numbers that the proxy serves.
abbrev served : List ℕ
served = 35 ∷ 46 ∷ 56 ∷ 57 ∷ 62 ∷ 63 ∷ 64 ∷ 79 ∷ 81 ∷ 82 ∷ []

abbrev pub OneOf : ℕ → List ℕ → Type 0
OneOf n [] = ⊥
OneOf n (x ∷ xs) = (n ≡ x) ⊎ OneOf n xs

module _ {S : Type 0} (k : Kernel S) (sizeof_stat : ℕ) where
  -- The switch has a case exactly for the ten numbers.
  perform-served :
      (num args : ℕ) (w : World S) → (perform k sizeof_stat num args w ≢ none) ↔ OneOf num served
  unfolding perform
  perform-served num args w = (λ h. ground arith, λ h. ground arith)

  perform-none :
      (num args : ℕ) (w : World S) → ¬ (OneOf num served) → perform k sizeof_stat num args w ≡ none
  unfolding perform
  perform-none num args w h = ground arith

  module _ (r : Region) (call : ℕ) (w : World S) where
    -- In a region that does not wrap, with an offset of the arguments (the word at offset 8 of the call)
    -- and a size (at offset 16) that are words: if the offset and the size together exceed the region's
    -- length, no system call is made: the status, the word at offset 24, becomes 5,
    -- `CALL_STATUS_SYSCALL_FAILED`, and the kernel's state and all other bytes stay.
    pub incoming_syscall_refused :
        IsRegion r
        → IsWord (load64 w.mem (call + 8))
        → IsWord (load64 w.mem (call + 16))
        → r.len < load64 w.mem (call + 8) + load64 w.mem (call + 16)
        → OnlyStatus call 5 w (incoming_syscall k sizeof_stat r call w)
    unfolding incoming_syscall args_ptr
    incoming_syscall_refused is ho hs over =
        let refused =
          (get_ptr_from_offset_iff r (load64 w.mem (call + 8)) (load64 w.mem (call + 16)) 0
              (omega arith) ho hs (omega arith)).1.1
            (inl over) in
        rw (incoming_syscall, args_ptr, refused)
          (set_status-OnlyStatus call status_syscall_failed w (omega arith))

    -- A number that is none of the ten gets the status `CALL_STATUS_SYSCALL_FAILED`; the kernel's
    -- state stays, and so does every byte but those of the status.
    pub incoming_syscall_unsupported :
        (info : ℕ)
        → args_ptr r w.mem call ≡ ok info
        → ¬ (OneOf (load64 (set_status call status_ok w).mem info) served)
        → ((incoming_syscall k sizeof_stat r call w).os ≡ w.os)
          × (load64 (incoming_syscall k sizeof_stat r call w).mem (call_status_at call)
              ≡ status_syscall_failed)
          × ((x : ℕ)
              → (x < call_status_at call) ⊎ (call_status_at call + 8 ≤ x)
              → (incoming_syscall k sizeof_stat r call w).mem x ≡ w.mem x)
    unfolding incoming_syscall serve
    incoming_syscall_unsupported info e not_served =
        let w1 = set_status call status_ok w in
        let miss : perform k sizeof_stat (load64 w1.mem info) (info + 8) w1 ≡ none =
          perform-none (load64 w1.mem info) (info + 8) w1 not_served in
        rw (e, incoming_syscall, serve, miss)
          (
            refl,
            load64-store64_self w1.mem (call_status_at call) status_syscall_failed (omega arith),
            λ x o.
                store64-outside w1.mem (call_status_at call) status_syscall_failed x o
                ∙ store64-outside w.mem (call_status_at call) status_ok x o,
          )

-- The result of a served call lies at `at`, and the call's return range names it.
pub record IsFinished {S : Type 0} (r : Region) (call at ret : ℕ) (before after : World S)
    : Type 0 where
  pub os : after.os ≡ before.os
  pub ret_range : ret_ptr r after.mem call ≡ ok at
  pub result : load64 after.mem at ≡ ret
  pub status : load64 after.mem (call_status_at call) ≡ load64 before.mem (call_status_at call)
  pub frame :
      (x : ℕ)
      → (x < at) ⊎ (at + 8 ≤ x)
      → (x < call_ret_offset_at call) ⊎ (call_ret_offset_at call + 16 ≤ x)
      → after.mem x ≡ before.mem x

module _ {S : Type 0} (r : Region) (call : ℕ) (w : IsRegion r) (room : 56 ≤ r.len)
    (apart : (call ≤ r.start) ⊎ (r.start + 56 ≤ call)) where
  finish-IsFinished :
      (ret : ℕ) (before : World S)
      → IsWord ret
      → IsFinished r call (r.start + 48) ret before (finish r call (ret, before))
  unfolding finish
  finish-IsFinished ret before h =
      let at : data_ptr r ≡ r.start + 48 = unfold data_ptr in omega arith in
      let m = store64 before.mem (r.start + 48) ret in
      let sets = setup_ret-ret_ptr r (r.start + 48) 8 w (omega arith) (omega arith) call m in
      let found = sets.found (omega arith) in
      rw (at, finish, found.0)
        (record {
          os = refl;
          ret_range = found.1;
          result =
              load64-ext _ m (r.start + 48) (λ x lo hi. sets.frame x (omega arith))
              ∙ load64-store64_self before.mem (r.start + 48) ret h;
          status =
              load64-ext _ m (call_status_at call) (λ x lo hi. sets.frame x (omega arith))
              ∙ load64-store64_ne before.mem (r.start + 48) (call_status_at call) ret (omega arith);
          frame = λ x out ret_fields.
              sets.frame x ret_fields ∙ store64-outside before.mem (r.start + 48) ret x out;
        })

  -- For a region of at least 56 bytes that does not wrap, and a call apart from the eight bytes
  -- behind the region's first 48: if the arguments are accepted and the switch performs a call
  -- with result `ret`, then the kernel's state is that which the call left, the result lies at
  -- offset 48, the callee's `ret_ptr` names it, the status is what it was after the call, and no
  -- byte but the result and the call's return range differs from the memory that the call left.
  pub incoming_syscall_served :
      (k : Kernel S) (sizeof_stat info ret : ℕ) (before after : World S)
      → args_ptr r before.mem call ≡ ok info
      → let ready = set_status call status_ok before in
        perform k sizeof_stat (load64 ready.mem info) (info + 8) ready ≡ some (ret, after)
        → IsWord ret
        → IsFinished r call (r.start + 48) ret after (incoming_syscall k sizeof_stat r call before)
  unfolding incoming_syscall serve
  incoming_syscall_served k sizeof_stat info ret before after e p h =
      rw (e, incoming_syscall, p, serve) (finish-IsFinished ret after h)

-- ===== src/Host/Init/Closed.antt =====
-- What `init` of lib/host/src/keystone.cpp leaves of its pointers to the ELF files.
use keystone_sdk.Base.{
  ℕ, ◌≡◌, ◌≢◌, ◌⊎◌, inl, inr, refl, true, false, not, ◌||◌, Option, none, some, List, Bool-cases,
  ◌==◌, sym, ◌∙◌, ==_iff,
}
use keystone_sdk.Host.Common.{Status, success, error}
use keystone_sdk.Host.Device.{System}
use keystone_sdk.Host.Elf.{ElfFile, new_elf_file, initialize, is_valid_file}
use keystone_sdk.Host.Enclave.{Keystone}
use keystone_sdk.Host.Init.{destroy, delete_files, init_files, is_negative, is_some}
use keystone_sdk.Host.Init.Create.{Request, build, settle, after_files, choose_memory, init}

module _ {E S H : Type 0} (sys : System E S H) where
  abbrev pub IsClosed : Keystone E S → Type 0
  IsClosed k = (k.runtime_file ≡ none) × (k.enclave_file ≡ none)

  -- The driver refused to destroy the enclave of `k`, which leaves `k'`.
  abbrev pub Refused : (k k' : Keystone E S) → Type 0
  Refused k k' =
      let answer = sys.driver.destroy_enclave k.fd k.eid k.mem k.os in
      (is_negative k.eid ≡ false)
      × (answer.ret ≢ 0)
      × (k' ≡ record k { mem = answer.mem; os = answer.os })

  pub destroy-cases :
      (k : Keystone E S)
      → ((destroy sys k).0 ≡ success) × IsClosed (destroy sys k).1
        ⊎ ((destroy sys k).0 ≡ error) × Refused k (destroy sys k).1
  unfolding destroy delete_files
  destroy-cases k = elim (Bool-cases (is_negative k.eid)) [
    | inl unborn ↦ rw unborn (inl (refl, (refl, refl)))
    | inr born ↦ elim (Bool-cases ((sys.driver.destroy_enclave k.fd k.eid k.mem k.os).ret == 0)) [
      | inl ok ↦ rw (born, ok) (inl (refl, (refl, refl)))
      | inr bad ↦
          inr
            (rw (born, bad) refl, (born, λ e. cc (sym bad ∙ (==_iff _ 0).1 e), rw (born, bad) refl))
    ]
  ]

  -- What is left when all is done: no file, or an enclave that the driver refused to destroy.
  abbrev pub Settled : (code : Status) (k' : Keystone E S) → Type 0
  Settled code k' = IsClosed k' ⊎ ((code ≡ error) × ((k : Keystone E S) × Refused k k'))

  destroyed : (k : Keystone E S) → Settled error (destroy sys k).1
  destroyed k = elim (destroy-cases k) [
    | inl (ok, closed) ↦ inl closed
    | inr (bad, refused) ↦ inr (refl, (k, refused))
  ]

  -- The second part of `initFiles`, on the codes that its calls return.
  init_files-cases :
      (unset unset' : ElfFile E) (eapp_path runtime_path : List ℕ) (k : Keystone E S)
      → IsClosed k
      → ((init_files sys unset unset' eapp_path runtime_path k).0 ≡ none)
      → Settled error (init_files sys unset unset' eapp_path runtime_path k).1
  unfolding init_files is_some
  init_files-cases unset unset' eapp_path runtime_path k (no_rt, no_app) h =
      let (rt, os1) = new_elf_file sys.files unset runtime_path k.os in
      let (app, os2) = new_elf_file sys.files unset' eapp_path os1 in
      let (rt_code, rt') = initialize sys.lib true rt in
      let (app_code, app') = initialize sys.lib false app in
      elim (Bool-cases rt_code) [
        | inl good ↦
            elim (Bool-cases
              (not app_code || not (is_valid_file rt') || not (is_valid_file app'))) [
                | inl bad ↦ rw (no_rt, no_app, good, bad) (destroyed _)
                | inr fine ↦ absurd (let h' = rw (no_rt, no_app, good, fine) at h in cc)
              ]
        | inr bad ↦ rw (no_rt, no_app, bad) (destroyed _)
      ]

  settle-Settled :
      (run : Option (Status × Keystone E S)) (code : Status) (k' : Keystone E S)
      → settle sys run ≡ some (code, k')
      → Settled code k'
  unfolding settle delete_files
  settle-Settled none code k' h = absurd cc
  settle-Settled (some (error, k)) code k' h =
      let same : error ≡ code = cc in
      let after : (destroy sys k).1 ≡ k' = cc in rw⁻¹ (same, after) (destroyed k)
  settle-Settled (some (success, k)) code k' h =
      let after : delete_files sys k ≡ k' = cc in rw⁻¹ after (inl (refl, refl))

  after_files-Settled :
      (walk_fuel fuel : ℕ) (r : Request E) (files : Option (ElfFile E × ElfFile E))
      (k : Keystone E S)
      → (files ≡ none → Settled error k)
      → (code : Status) (k' : Keystone E S)
      → after_files sys walk_fuel fuel r files k ≡ some (code, k')
      → Settled code k'
  unfolding after_files
  after_files-Settled walk_fuel fuel r none k refused code k' h =
      let same : error ≡ code = cc in let after : k ≡ k' = cc in rw⁻¹ (same, after) (refused refl)
  after_files-Settled walk_fuel fuel r (some (rt, app)) k refused code k' h =
      settle-Settled (build sys walk_fuel fuel r rt app k) code k' h

  -- When an enclave that holds no file is initialised and `init` returns, by an error or not, it holds no
  -- ELF file; or an error is returned, after the driver refused to destroy the enclave, and the state is
  -- the one that this refusal leaves.
  pub init-Settled :
      (walk_fuel fuel : ℕ) (r : Request E) (k : Keystone E S)
      → IsClosed k
      → (code : Status) (k' : Keystone E S) → init sys walk_fuel fuel r k ≡ some (code, k')
      → Settled code k'
  unfolding init choose_memory
  init-Settled walk_fuel fuel r k (no_rt, no_app) code k' h =
      let begin = choose_memory r.params k in
      after_files-Settled walk_fuel fuel r _ _
        (init_files-cases r.unset_runtime r.unset_enclave r.eapp_path r.runtime_path begin
          (no_rt, no_app))
        code k' h

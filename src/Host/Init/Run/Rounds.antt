-- ===== src/Host/Init/Run/Rounds.antt =====
-- The run of an enclave in lib/host/src/keystone.cpp as a sequence of stops.
use keystone_sdk.Base.{
  ℕ, zero, suc, ◌<◌, ◌≡◌, ◌≢◌, ◌⊎◌, ◌↔◌, inl, inr, refl, arith, false, ap, Option, Option-cases,
  sign_extend32, none, some, List, [], ◌∷◌, Bool-cases, ◌==◌, sym, ◌∙◌, ==_iff, length,
}
use keystone_sdk.Memory.{Mem}
use keystone_sdk.Edge.World.{World, Handler}
use keystone_sdk.Host.Common.{Status, success, error}
use keystone_sdk.Host.Device.{System, Stop}
use keystone_sdk.Host.Enclave.{Keystone}
use keystone_sdk.Host.Init.{destroy}
use keystone_sdk.Host.Init.Run.{
  goes_on, serve_stop, start_run, resume_run, call_dispatch, get_shared_buffer, run_loop, ended,
  run,
}

module _ {E S H : Type 0} (sys : System E S H) where
  -- From a code and a state of the enclave, the driver is asked to resume the enclave after each of the
  -- listed codes, and the run ends with a code in a state. The code 2 is an interruption and 11 an edge
  -- call: before the enclave is resumed from it, the registered dispatcher, if there is one, is called on
  -- the shared buffer.
  pub data Rounds : (ret : ℕ) → Keystone E S → List ℕ → (last : ℕ) → Keystone E S → Type 0 where
    over : {ret : ℕ} {k : Keystone E S} → ret ≢ 2 → ret ≢ 11 → Rounds ret k [] ret k
    interrupted :
        {k : Keystone E S} {next : Stop S} {stops : List ℕ} {last : ℕ} {k' : Keystone E S}
        → sys.driver.resume_enclave k.fd (sign_extend32 k.eid) k.mem k.os ≡ next
        → Rounds next.ret (record k { mem = next.mem; os = next.os }) stops last k'
        → Rounds 2 k (2 ∷ stops) last k'
    called :
        {k : Keystone E S} {func : Handler S} {w : World S} {next : Stop S} {stops : List ℕ}
        {last : ℕ} {k' : Keystone E S}
        → k.ocall_dispatch ≡ some func
        → func k.shared_buffer (record { mem = k.mem; os = k.os }) ≡ w
        → sys.driver.resume_enclave k.fd (sign_extend32 k.eid) w.mem w.os ≡ next
        → Rounds next.ret (record k { mem = next.mem; os = next.os }) stops last k'
        → Rounds 11 k (11 ∷ stops) last k'
    not_called :
        {k : Keystone E S} {next : Stop S} {stops : List ℕ} {last : ℕ} {k' : Keystone E S}
        → k.ocall_dispatch ≡ none
        → sys.driver.resume_enclave k.fd (sign_extend32 k.eid) k.mem k.os ≡ next
        → Rounds next.ret (record k { mem = next.mem; os = next.os }) stops last k'
        → Rounds 11 k (11 ∷ stops) last k'

  -- The loop resumes the enclave and goes on with the code that it gets.
  abbrev next_round : (fuel : ℕ) → Keystone E S → Mem → S → Option (ℕ × Keystone E S)
  next_round fuel k m os =
      let next = sys.driver.resume_enclave k.fd (sign_extend32 k.eid) m os in
      run_loop sys fuel next.ret (record k { mem = next.mem; os = next.os })

  run_loop-interrupted :
      (fuel : ℕ) (k : Keystone E S) → run_loop sys (suc fuel) 2 k ≡ next_round fuel k k.mem k.os
  unfolding run_loop goes_on serve_stop resume_run
  run_loop-interrupted fuel k = refl

  run_loop-called :
      (fuel : ℕ) (k : Keystone E S) (func : Handler S)
      → k.ocall_dispatch ≡ some func
      → let w = func k.shared_buffer (record { mem = k.mem; os = k.os }) in
        run_loop sys (suc fuel) 11 k ≡ next_round fuel k w.mem w.os
  unfolding run_loop goes_on serve_stop resume_run call_dispatch get_shared_buffer
  run_loop-called fuel k func set =
      ap (λ d. let (next, k') = resume_run sys (call_dispatch d k) in run_loop sys fuel next k') set

  run_loop-not_called :
      (fuel : ℕ) (k : Keystone E S)
      → k.ocall_dispatch ≡ none
      → run_loop sys (suc fuel) 11 k ≡ next_round fuel k k.mem k.os
  unfolding run_loop goes_on serve_stop resume_run call_dispatch
  run_loop-not_called fuel k unset =
      ap (λ d. let (next, k') = resume_run sys (call_dispatch d k) in run_loop sys fuel next k')
        unset

  run_loop-over :
      (fuel ret : ℕ) (k : Keystone E S)
      → ret ≢ 2
      → ret ≢ 11
      → run_loop sys (suc fuel) ret k ≡ some (ret, k)
  unfolding run_loop goes_on
  run_loop-over fuel ret k no2 no11 = ground arith

  run_loop-Rounds :
      (fuel : ℕ) {ret : ℕ} {k : Keystone E S} {stops : List ℕ} {last : ℕ} {k' : Keystone E S}
      → Rounds ret k stops last k'
      → length stops < fuel
      → run_loop sys fuel ret k ≡ some (last, k')
  run_loop-Rounds zero r h = absurd (omega arith)
  run_loop-Rounds (suc fuel) (over no2 no11) h = run_loop-over fuel _ _ no2 no11
  run_loop-Rounds (suc fuel) (interrupted {k} next rest) h =
      run_loop-interrupted fuel k ∙ rw next (run_loop-Rounds fuel rest (omega arith))
  run_loop-Rounds (suc fuel) (called {k} {func} set done next rest) h =
      run_loop-called fuel k func set ∙ rw (done, next) (run_loop-Rounds fuel rest (omega arith))
  run_loop-Rounds (suc fuel) (not_called {k} unset next rest) h =
      run_loop-not_called fuel k unset ∙ rw next (run_loop-Rounds fuel rest (omega arith))

  -- A code on which the loop goes on is one of the two.
  goes_on-cases : (ret : ℕ) → (ret ≡ 2) ⊎ (ret ≡ 11) ⊎ ((ret ≢ 2) × (ret ≢ 11))
  goes_on-cases ret = elim (Bool-cases (ret == 2)) [
    | inl two ↦ inl ((==_iff ret 2).0 two)
    | inr not_two ↦ elim (Bool-cases (ret == 11)) [
      | inl eleven ↦ inr (inl ((==_iff ret 11).0 eleven))
      | inr other ↦ inr (
          inr
            (λ e. cc (sym not_two ∙ (==_iff ret 2).1 e), λ e. cc (sym other ∙ (==_iff ret 11).1 e)))
    ]
  ]

  -- What is found in a loop that returned.
  abbrev Found : (fuel ret : ℕ) → Keystone E S → (last : ℕ) → Keystone E S → Type 0
  Found fuel ret k last k' = (stops : List ℕ) × Rounds ret k stops last k' × (length stops < fuel)

  Rounds-run_loop :
      (fuel ret : ℕ) (k : Keystone E S) (last : ℕ) (k' : Keystone E S)
      → run_loop sys fuel ret k ≡ some (last, k')
      → Found fuel ret k last k'
  Rounds-run_loop zero ret k last k' h = absurd (unfold run_loop in cc)
  Rounds-run_loop (suc fuel) ret k last k' h = elim (goes_on-cases ret) [
    | inl two ↦
        let h' : run_loop sys (suc fuel) 2 k ≡ some (last, k') = rw two at h in
        let (stops, rest, less) =
          Rounds-run_loop fuel _ _ last k' (sym (run_loop-interrupted fuel k) ∙ h') in
        rw two (2 ∷ stops, interrupted refl rest, omega arith)
    | inr (inl eleven) ↦
        let h' : run_loop sys (suc fuel) 11 k ≡ some (last, k') = rw eleven at h in
        elim (Option-cases k.ocall_dispatch) [
          | inl unset ↦
              let (stops, rest, less) =
                Rounds-run_loop fuel _ _ last k' (sym (run_loop-not_called fuel k unset) ∙ h') in
              rw eleven (11 ∷ stops, not_called unset refl rest, omega arith)
          | inr (func, set) ↦
              let (stops, rest, less) =
                Rounds-run_loop fuel _ _ last k' (sym (run_loop-called fuel k func set) ∙ h') in
              rw eleven (11 ∷ stops, called set refl refl rest, omega arith)
        ]
    | inr (inr (no2, no11)) ↦
        let here = sym (run_loop-over fuel ret k no2 no11) ∙ h in
        let code : ret ≡ last = cc in
        let state : k ≡ k' = cc in rw⁻¹ (code, state) ([], over no2 no11, omega arith)
  ]

  -- The code that `run` returns at the end, and the state that it leaves.
  abbrev pub Returned : (last : ℕ) (k : Keystone E S) (code : Status) (k' : Keystone E S) → Type 0
  Returned last k code k' =
      ((last ≡ 0) × (code ≡ success) × (k' ≡ k))
      ⊎ ((last ≢ 0) × (code ≡ error) × (k' ≡ (destroy sys k).1))

  ended_iff :
      (last : ℕ) (k : Keystone E S) (code : Status) (k' : Keystone E S)
      → (ended sys (some (last, k)) ≡ some (code, k')) ↔ Returned last k code k'
  unfolding ended
  ended_iff last k code k' = elim (Bool-cases (last == 0)) [
    | inl zero_code ↦ (
      λ h. let h' = rw zero_code at h in inl ((==_iff _ 0).0 zero_code, cc, cc),
      λ r. elim r [
        | inl (z, c, s) ↦ rw (zero_code, c, s) refl
        | inr (nz, c, s) ↦ absurd (nz ((==_iff _ 0).0 zero_code))
      ],
    )
    | inr other ↦ (
      λ h. let h' = rw other at h in inr (λ z. cc (sym other ∙ (==_iff _ 0).1 z), cc, cc),
      λ r. elim r [
        | inl (z, c, s) ↦ absurd (cc (sym other ∙ (==_iff _ 0).1 z))
        | inr (nz, c, s) ↦ rw (other, c, s) refl
      ],
    )
  ]

  ended-some :
      (loop : Option (ℕ × Keystone E S)) (code : Status) (k' : Keystone E S)
      → ended sys loop ≡ some (code, k')
      → (last : ℕ) × (k : Keystone E S) × (loop ≡ some (last, k))
  unfolding ended
  ended-some none code k' h = absurd cc
  ended-some (some (last, k)) code k' h = (last, k, refl)

  -- `run` of an enclave that is not simulated returns a code and a state, on some fuel, exactly if the
  -- enclave, once the driver has been asked to run it, stops finitely often with the code of an
  -- interruption (2) or of an edge call (11), is resumed by the driver each time, on 11 after the
  -- registered dispatcher, if there is one, was called on the shared buffer, and then ends with another
  -- code: if that is 0, `run` succeeds, and with any other it returns an error, after the enclave was
  -- destroyed. Fuel that exceeds the number of stops is enough.
  pub run_iff :
      (fuel : ℕ) (k : Keystone E S) (code : Status) (k' : Keystone E S)
      → k.params.simulated ≡ false
      → let first = sys.driver.run_enclave k.fd (sign_extend32 k.eid) k.mem k.os in
        (run sys fuel k ≡ some (code, k')) ↔ (
          (stops : List ℕ) × (last : ℕ) × (end : Keystone E S) × Rounds first.ret
            (record k { mem = first.mem; os = first.os })
            stops
            last
            end
          × (length stops < fuel)
          × Returned last end code k')
  unfolding run start_run
  run_iff fuel k code k' real = rw real (
    λ h.
        let (last, end, loop) = ended-some (run_loop sys fuel _ _) code k' h in
        let (stops, rounds, less) = Rounds-run_loop fuel _ _ last end loop in
        (stops, last, end, rounds, less, (ended_iff last end code k').0 (rw loop at h)),
    λ (stops, last, end, rounds, less, done).
        rw (run_loop-Rounds fuel rounds less) ((ended_iff last end code k').1 done),
  )

-- ===== src/Edge/Dispatch.antt =====
-- The table of registered calls, lib/edge/src/edge_dispatch.c.
pub mod Table
use keystone_sdk.Base.{
  ℕ, ◌+◌, ◌≡◌, Bool, ◌&&◌, Option, none, some, List, ltb, ◌==◌, if◌then◌else◌, int_minus_one,
  length, get_elem?, set,
}
use keystone_sdk.Memory.{load64}
use keystone_sdk.Edge.Call.{call_id_at}
use keystone_sdk.Edge.World.{World, Handler, status_bad_call_id, set_status}

-- `fault` is an access outside an array, which C leaves undefined.
pub data Outcome {ℓ} (A : Type ℓ) : Type ℓ where
  done : A → Outcome A
  fault : Outcome A

-- `MAX_EDGE_CALL`, and the call number `EDGECALL_SYSCALL` behind it.
abbrev pub max_edge_call : ℕ
max_edge_call = 40

abbrev pub edgecall_syscall : ℕ
edgecall_syscall = max_edge_call + 1

-- `edge_call_table`; `none` is the null pointer.
abbrev pub Table : Type 0 → Type 0
Table S = List (Option (Handler S))

-- The array's size in its declaration.
abbrev pub IsTable : {S : Type 0} → Table S → Type 0
IsTable table = length table ≡ max_edge_call

module _ {S : Type 0} where
  -- What the lookup in the table leads to: outside the array, a null entry, a handler.
  unfoldable pub run_entry :
      Option (Option (Handler S)) → Handler S → (buffer : ℕ) → World S → Outcome (World S)
  run_entry none fatal buffer w = fault
  run_entry (some none) fatal buffer w = done (fatal buffer w)
  run_entry (some (some f)) fatal buffer w = done (f buffer w)

  -- `wrapping` tells whether the library is built with `IO_SYSCALL_WRAPPING`.
  unfoldable pub incoming_call_dispatch :
      (wrapping : Bool) (incoming_syscall : Handler S)
      → Table S
      → (buffer : ℕ) → World S
      → Outcome (World S)
  unfolding run_entry
  incoming_call_dispatch wrapping incoming_syscall table buffer w =
      let call_id = load64 w.mem (call_id_at buffer) in
      if wrapping && call_id == edgecall_syscall
      then done (incoming_syscall buffer w)
      else if ltb max_edge_call call_id
      then done (set_status buffer status_bad_call_id w)
      else run_entry (get_elem? table call_id) (λ b. set_status b status_bad_call_id) buffer w

  -- The code, and the table afterwards.
  unfoldable pub register_call :
      Table S → (call_id : ℕ) → Option (Handler S) → Outcome (ℕ × Table S)
  register_call table call_id func =
      if ltb max_edge_call call_id
      then done (int_minus_one, table)
      else if ltb call_id (length table)
      then done (0, set table call_id func)
      else fault

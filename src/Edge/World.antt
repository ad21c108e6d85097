-- ===== src/Edge/World.antt =====
-- What an edge call handler works on: the memory, and the state `S` of all that lies outside this
-- library.
use keystone_sdk.Base.{ℕ, ◌+◌, ◌≤◌, ◌<◌, ◌≡◌, ◌⊎◌, refl, arith, IsWord}
use keystone_sdk.Memory.{Mem, store64, load64}
use keystone_sdk.Memory.Laws.{load64-store64_self, store64-outside}
use keystone_sdk.Edge.Call.{call_status_at}

pub record World (S : Type 0) : Type 0 where
  pub mem : Mem
  pub os : S

-- `edgecallwrapper`: a function of the buffer that holds the call.
abbrev pub Handler : Type 0 → Type 0
Handler S = ℕ → World S → World S

-- `CALL_STATUS_OK`, `CALL_STATUS_BAD_CALL_ID` and `CALL_STATUS_SYSCALL_FAILED`
abbrev pub status_ok : ℕ
status_ok = 0

abbrev pub status_bad_call_id : ℕ
status_bad_call_id = 1

abbrev pub status_syscall_failed : ℕ
status_syscall_failed = 5

-- `edge_call->return_data.call_status = status`
abbrev pub set_status : {S : Type 0} → ℕ → ℕ → World S → World S
set_status call status w = record w { mem = store64 w.mem (call_status_at call) status }

-- The word at offset 24 of the call, its status, is `status`, and all else is as before.
pub record OnlyStatus {S : Type 0} (call status : ℕ) (before after : World S) : Type 0 where
  pub os : after.os ≡ before.os
  pub status_is : load64 after.mem (call + 24) ≡ status
  pub frame : (x : ℕ) → (x < call + 24) ⊎ (call + 32 ≤ x) → after.mem x ≡ before.mem x

pub set_status-OnlyStatus :
    {S : Type 0} (call status : ℕ) (w : World S)
    → IsWord status
    → OnlyStatus call status w (set_status call status w)
set_status-OnlyStatus call status w h = record {
  os = refl;
  status_is = load64-store64_self w.mem (call + 24) status h;
  frame = λ x o. store64-outside w.mem (call + 24) status x (omega arith);
}

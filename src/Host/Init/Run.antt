-- ===== src/Host/Init/Run.antt =====
-- `run` of lib/host/src/keystone.cpp: the enclave is started, and resumed after each stop until it ends.
pub mod Rounds
use keystone_sdk.Base.{
  ℕ, zero, suc, Bool, ◌&&◌, ◌||◌, Option, none, some, ◌==◌, if◌then◌else◌, sign_extend32,
}
use keystone_sdk.Edge.World.{World, Handler}
use keystone_sdk.Host.Common.{Status, success, error, enclave_interrupted, enclave_edge_call_host}
use keystone_sdk.Host.Device.{System, Stop}
use keystone_sdk.Host.Enclave.{Keystone}
use keystone_sdk.Host.Init.{destroy}

-- The codes on which the loop goes on.
unfoldable pub goes_on : (ret : ℕ) → Bool
goes_on ret = ret == enclave_edge_call_host || ret == enclave_interrupted

module _ {E S : Type 0} where
  unfoldable pub get_shared_buffer : Keystone E S → ℕ
  get_shared_buffer k = k.shared_buffer

  unfoldable pub get_shared_buffer_size : Keystone E S → ℕ
  get_shared_buffer_size k = k.shared_buffer_size

  unfoldable pub register_ocall_dispatch : Option (Handler S) → Keystone E S → Status × Keystone E S
  register_ocall_dispatch func k = (success, record k { ocall_dispatch = func })

  unfoldable pub call_dispatch : Option (Handler S) → Keystone E S → Keystone E S
  call_dispatch none k = k
  call_dispatch (some func) k =
      let w = func (get_shared_buffer k) (record { mem = k.mem; os = k.os }) in
      record k { mem = w.mem; os = w.os }

  -- What the body of the loop does before it resumes the enclave.
  unfoldable pub serve_stop : (ret : ℕ) → Keystone E S → Keystone E S
  serve_stop ret k = if ret == enclave_edge_call_host then call_dispatch k.ocall_dispatch k else k

module _ {E S H : Type 0} (sys : System E S H) where
  -- What is left by an `ioctl` that runs the enclave.
  unfoldable pub start_run : Keystone E S → ℕ × Keystone E S
  start_run k =
      let stop = sys.driver.run_enclave k.fd (sign_extend32 k.eid) k.mem k.os in
      (stop.ret, record k { mem = stop.mem; os = stop.os })

  unfoldable pub resume_run : Keystone E S → ℕ × Keystone E S
  resume_run k =
      let stop = sys.driver.resume_enclave k.fd (sign_extend32 k.eid) k.mem k.os in
      (stop.ret, record k { mem = stop.mem; os = stop.os })

  -- The loop, with the last code of an `ioctl`.
  unfoldable pub run_loop : (fuel ret : ℕ) → Keystone E S → Option (ℕ × Keystone E S)
  run_loop zero ret k = none
  run_loop (suc fuel) ret k =
      let (next, k') = resume_run (serve_stop ret k) in
      let rest = run_loop fuel next k' in if goes_on ret then rest else some (ret, k)

  unfoldable pub ended : Option (ℕ × Keystone E S) → Option (Status × Keystone E S)
  ended none = none
  ended (some (ret, k)) = if ret == 0 then some (success, k) else some (error, (destroy sys k).1)

  unfoldable pub run : (fuel : ℕ) → Keystone E S → Option (Status × Keystone E S)
  run fuel k =
      let (ret, k') = start_run k in
      if k.params.simulated then some (success, k) else ended (run_loop fuel ret k')

-- ===== src/Edge/Dispatch/Table.antt =====
-- Registering a call and dispatching one.
use keystone_sdk.Base.{
  ℕ, ◌<◌, ◌≡◌, ◌≢◌, ◌⊎◌, arith, Bool, false, ◌&&◌, Option, none, some, int_minus_one, get_elem?,
  set, length-set, get_elem?-set_self, get_elem?-set_ne, get_elem?-none, ◌==◌,
}
use keystone_sdk.Memory.{load64}
use keystone_sdk.Edge.Call.{call_id_at}
use keystone_sdk.Edge.World.{
  World, Handler, status_bad_call_id, set_status, OnlyStatus, set_status-OnlyStatus,
}
use keystone_sdk.Edge.Dispatch.{
  done, fault, max_edge_call, edgecall_syscall, Table, IsTable, incoming_call_dispatch,
  register_call,
}

module _ {S : Type 0} (wrapping : Bool) (sys : Handler S) (table : Table S)
    (is : IsTable table) where
  -- A handler registered under a number below `MAX_EDGE_CALL` runs on each later call with that
  -- number, and on calls with other numbers nothing changes; the table keeps its size.
  pub incoming_call_dispatch-register_call :
      (id : ℕ) (f : Handler S)
      → id < max_edge_call
      → (table' : Table S) × (register_call table id (some f) ≡ done (0, table'))
        × IsTable table'
        × ((buffer : ℕ) (w : World S)
            → load64 w.mem (call_id_at buffer) ≡ id
            → incoming_call_dispatch wrapping sys table' buffer w ≡ done (f buffer w))
        × ((buffer : ℕ) (w : World S)
            → load64 w.mem (call_id_at buffer) ≢ id
            → incoming_call_dispatch wrapping sys table' buffer w
              ≡ incoming_call_dispatch wrapping sys table buffer w)
  unfolding register_call incoming_call_dispatch
  incoming_call_dispatch-register_call id f h = (
    set table id (some f),
    ground arith,
    rw length-set is,
    λ buffer w e. ground (arith, get_elem?-set_self table id (some f)),
    λ buffer w e.
        ground (arith, get_elem?-set_ne table id (load64 w.mem (call_id_at buffer)) (some f)),
  )

  -- Numbers above `MAX_EDGE_CALL` are refused with -1 and the table stays; the number
  -- `MAX_EDGE_CALL` itself passes the test and is written outside the array.
  pub register_call_outside :
      (id : ℕ) (f : Option (Handler S))
      → (max_edge_call < id → register_call table id f ≡ done (int_minus_one, table))
        × (id ≡ max_edge_call → register_call table id f ≡ fault)
  unfolding register_call
  register_call_outside id f = (λ h. ground arith, λ h. ground arith)

  incoming_call_dispatch-refused :
      (buffer : ℕ) (w : World S)
      → (wrapping && load64 w.mem (call_id_at buffer) == edgecall_syscall) ≡ false
      → (max_edge_call < load64 w.mem (call_id_at buffer))
        ⊎ (get_elem? table (load64 w.mem (call_id_at buffer)) ≡ some none)
      → incoming_call_dispatch wrapping sys table buffer w
        ≡ done (set_status buffer status_bad_call_id w)
  unfolding incoming_call_dispatch
  incoming_call_dispatch-refused buffer w no_sys h =
      ground (arith, get_elem?-none table (load64 w.mem (call_id_at buffer)))

  -- A call that is no wrapped system call (the library is built without them, or the number is not 41),
  -- and whose number, the word at the start of the buffer, is above 40 or has no handler, gets the status
  -- 1, `CALL_STATUS_BAD_CALL_ID`, in the word at offset 24 of the buffer; the outside world stays, and so
  -- does every byte but those eight.
  pub incoming_call_dispatch_unknown :
      (buffer : ℕ) (w : World S)
      → (wrapping ≡ false) ⊎ (load64 w.mem buffer ≢ 41)
      → (40 < load64 w.mem buffer) ⊎ (get_elem? table (load64 w.mem buffer) ≡ some none)
      → (w' : World S) × (incoming_call_dispatch wrapping sys table buffer w ≡ done w')
        × OnlyStatus buffer 1 w w'
  incoming_call_dispatch_unknown buffer w no_sys h = (
    set_status buffer status_bad_call_id w,
    incoming_call_dispatch-refused buffer w (ground arith) h,
    set_status-OnlyStatus buffer status_bad_call_id w (omega arith),
  )

  -- The number `MAX_EDGE_CALL` passes the test of the dispatcher too, which reads outside the array.
  pub incoming_call_dispatch_at_max :
      (buffer : ℕ) (w : World S)
      → load64 w.mem (call_id_at buffer) ≡ max_edge_call
      → incoming_call_dispatch wrapping sys table buffer w ≡ fault
  unfolding incoming_call_dispatch
  incoming_call_dispatch_at_max buffer w e =
      ground (arith, get_elem?-none table (load64 w.mem (call_id_at buffer)))

-- ===== src/Edge/Call.antt =====
-- The call records of lib/edge/include/edge_common.h and the functions of edge_call.c over them.
-- An `edge_call_t` lies in memory at a pointer `call`; its fields are words at fixed offsets.
pub mod Setup
pub mod Wrapped
use keystone_sdk.Base.{ℕ, ◌+◌, add64}
use keystone_sdk.Memory.{Mem, load64, store64, copy}
use keystone_sdk.Edge.Shared.{Region, Checked, ok, err, get_ptr_from_offset, get_offset_from_ptr}

-- `sizeof(edge_call_t)`: `call_id`, `call_arg_offset`, `call_arg_size` and the `edge_return_t`
-- with `call_status`, `call_ret_offset` and `call_ret_size`, a word each.
abbrev pub sizeof_edge_call : ℕ
sizeof_edge_call = 48

-- The addresses of those fields.
abbrev pub call_id_at : ℕ → ℕ
call_id_at call = call

abbrev pub call_arg_offset_at : ℕ → ℕ
call_arg_offset_at call = call + 8

abbrev pub call_arg_size_at : ℕ → ℕ
call_arg_size_at call = call + 16

abbrev pub call_status_at : ℕ → ℕ
call_status_at call = call + 24

abbrev pub call_ret_offset_at : ℕ → ℕ
call_ret_offset_at call = call + 32

abbrev pub call_ret_size_at : ℕ → ℕ
call_ret_size_at call = call + 40

-- `edge_data_t`
pub record EdgeData : Type 0 where
  pub offset : ℕ
  pub data_va : ℕ
  pub size : ℕ

abbrev pub sizeof_edge_data : ℕ
sizeof_edge_data = 24

-- The bytes of an `edge_data_t` written to memory.
unfoldable pub store_edge_data : Mem → ℕ → EdgeData → Mem
store_edge_data m a d = store64 (store64 (store64 m a d.offset) (a + 8) d.data_va) (a + 16) d.size

unfoldable pub args_ptr : Region → Mem → (call : ℕ) → Checked
args_ptr r m call =
    get_ptr_from_offset r (load64 m (call_arg_offset_at call)) (load64 m (call_arg_size_at call))

unfoldable pub ret_ptr : Region → Mem → (call : ℕ) → Checked
ret_ptr r m call =
    get_ptr_from_offset r (load64 m (call_ret_offset_at call)) (load64 m (call_ret_size_at call))

-- `edge_call_get_offset_from_ptr(ptr, size, &field)`: the code, and the field written on success.
unfoldable pub offset_into : Region → (ptr size field : ℕ) → Mem → ℕ × Mem
offset_into r ptr size field m = elim (get_offset_from_ptr r ptr size) [
  | ok offset ↦ (0, store64 m field offset)
  | err code ↦ (code, m)
]

unfoldable pub setup_call : Region → (call ptr size : ℕ) → Mem → ℕ × Mem
setup_call r call ptr size m =
    offset_into r ptr size (call_arg_offset_at call) (store64 m (call_arg_size_at call) size)

unfoldable pub setup_ret : Region → (call ptr size : ℕ) → Mem → ℕ × Mem
setup_ret r call ptr size m =
    offset_into r ptr size (call_ret_offset_at call) (store64 m (call_ret_size_at call) size)

-- `edge_call_data_ptr`
unfoldable pub data_ptr : Region → ℕ
data_ptr r = add64 r.start sizeof_edge_call

-- The wrapper's `offset`, which is left as it was on the stack when the check refuses.
unfoldable pub wrapper_offset : Region → (unset : ℕ) → ℕ
wrapper_offset r unset =
    elim (get_offset_from_ptr r (add64 (add64 r.start sizeof_edge_call) sizeof_edge_data)
      sizeof_edge_data) [ ok offset ↦ offset | err _ ↦ unset ]

-- `unset` is what the local `data_wrapper` holds before it is assigned. `copy` stands for `memcpy`, which
-- C leaves undefined where the source overlaps the copy.
unfoldable pub setup_wrapped_ret : Region → (unset : EdgeData) → (call ptr size : ℕ) → Mem → ℕ × Mem
setup_wrapped_ret r unset call ptr size m =
    let wrapper = record unset { offset = wrapper_offset r unset.offset; size = size } in
    let wrapper_at = add64 r.start sizeof_edge_call in
    let m1 = copy m (add64 wrapper_at sizeof_edge_data) ptr size in
    let m2 = store_edge_data m1 wrapper_at wrapper in
    let m3 = store64 m2 (call_ret_size_at call) sizeof_edge_data in
    offset_into r wrapper_at sizeof_edge_data (call_ret_offset_at call) m3

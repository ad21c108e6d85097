-- ===== src/Edge/Shared.antt =====
-- The shared region of lib/edge/src/edge_call.c, and its checks of offsets and pointers.
pub mod Checks
use keystone_sdk.Base.{ℕ, ◌||◌, ltb, ◌==◌, if◌then◌else◌, add64, sub64, uintptr_max, int_minus_one}

-- An `int` that reports success as 0, with what the call stores through its out parameter.
pub data Checked : Type 0 where
  ok : ℕ → Checked
  err : ℕ → Checked

-- `_shared_start` and `_shared_len`
pub record Region : Type 0 where
  pub start : ℕ
  pub len : ℕ

unfoldable pub init_internals : ℕ → ℕ → Region
init_internals buffer_start buffer_len = record { start = buffer_start; len = buffer_len }

unfoldable pub get_ptr_from_offset : Region → (offset data_len : ℕ) → Checked
get_ptr_from_offset r offset data_len =
    if ltb (sub64 uintptr_max r.start) offset || ltb r.len offset
    then err int_minus_one
    else if ltb (sub64 uintptr_max (add64 r.start offset)) data_len
        || ltb (sub64 r.len offset) data_len
    then err int_minus_one
    else ok (add64 r.start offset)

unfoldable pub check_ptr_valid : Region → (ptr data_len : ℕ) → ℕ
check_ptr_valid r ptr data_len =
    if ltb (add64 r.start r.len) ptr || ltb ptr r.start
    then 1
    else if ltb (sub64 uintptr_max ptr) data_len
    then 2
    else if ltb (add64 r.start r.len) (add64 ptr data_len)
    then 3
    else 0

unfoldable pub get_offset_from_ptr : Region → (ptr data_len : ℕ) → Checked
unfolding check_ptr_valid
get_offset_from_ptr r ptr data_len =
    let valid = check_ptr_valid r ptr data_len in
    if valid == 0 then ok (sub64 ptr r.start) else err valid

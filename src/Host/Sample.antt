-- ===== src/Host/Sample.antt =====
-- A small simulated enclave with an empty root table, for the tests.
use keystone_sdk.Base.{ℕ, ◌+◌, ◌*◌, ◌≡◌, refl, arith, true, false, none, [], ap, ◌∙◌, int_minus_one}
use keystone_sdk.Memory.{Mem, load64}
use keystone_sdk.Memory.Laws.{load64-zeros}
use keystone_sdk.Host.Common.{default_params}
use keystone_sdk.Host.Memory.{simulated}
use keystone_sdk.Host.Page.{is_valid, walk_from, entry_at}
use keystone_sdk.Host.Page.Entries.{zero-is_valid}
use keystone_sdk.Host.Page.Tables.{Shape, IsTables, translate, leaf_of}
use keystone_sdk.Host.Enclave.{Keystone}
use keystone_sdk.Host.Enclave.Alloc.{IsSpace, mapping}

abbrev pub empty_memory : Mem
empty_memory a = 0

abbrev pub sample : Keystone ℕ ℕ
sample = record {
  params = record default_params { simulated = true };
  runtime_file = none;
  enclave_file = none;
  memory = simulated;
  hash = [];
  untrusted_size = 0;
  untrusted_start = 0;
  epm_free_list = 0x2000;
  root_page_table = 0x1000;
  utm_free_list = 0;
  start_addr = 0x1000;
  eid = int_minus_one;
  fd = 0;
  shared_buffer = 0;
  shared_buffer_size = 0;
  ocall_dispatch = none;
  mem = empty_memory;
  os = 0;
}

abbrev all_root : Shape
all_root = record { level = λ page. 2; owner = λ page. 0 }

nothing_valid : (x : ℕ) → is_valid (load64 empty_memory x) ≡ false
nothing_valid x = ap is_valid (load64-zeros empty_memory x (λ y p q. refl)) ∙ zero-is_valid

sample-IsTables :
    IsTables empty_memory 0x1000 (record { lo = 0x1000; free = 0x2000; limit = 0x1000000 }) all_root
sample-IsTables = record {
  at_root = (omega arith, omega arith, omega arith, refl);
  free_aligned = omega arith;
  in_limit = omega arith;
  limit_word = omega arith;
  below = λ level page i lt hi t valid. absurd (let no_entry = nothing_valid (page + 8 * i) in cc);
  zeros = λ x p q. refl;
}

pub sample-IsSpace : IsSpace 0x1000 0x1000000 sample
sample-IsSpace = record { is_simulated = refl; shape = all_root; tree = sample-IsTables }

-- Nothing is mapped yet.
pub sample_unmapped : (x : ℕ) → mapping sample x ≡ none
unfolding translate walk_from leaf_of
sample_unmapped x = rw (nothing_valid (entry_at x 2 0x1000)) refl

-- ===== src/Host/Load/Tests.antt =====
-- A file with one segment of two pages that is loaded into a small simulated enclave.
use keystone_sdk.Base.{ℕ, ◌≡◌, inr, refl, arith, true, some}
use keystone_sdk.Host.Common.{success, round_down}
use keystone_sdk.Host.Elf.{
  Libelf, ElfFile, total_memory_size, get_num_program_headers, get_program_header_type,
  get_program_header_file_size, get_program_header_memory_size, get_program_header_vaddr,
}
use keystone_sdk.Host.Enclave.{Keystone}
use keystone_sdk.Host.Load.{load_elf}
use keystone_sdk.Host.Load.Headers.{all_pages, IsLayout, IsLoadedFile}
use keystone_sdk.Host.Load.Whole.{reserved_pages, load_elf-IsLoadedFile}
use keystone_sdk.Host.Sample.{sample, sample-IsSpace, sample_unmapped}

abbrev no_pages : (size offset : ℕ) → ℕ
no_pages size offset = 0

-- The file has 4100 bytes, and the segment 5000, which starts inside a page.
abbrev one_segment : Libelf ℕ
one_segment = record {
  new_file = λ ptr size. (0, 0);
  memory_bounds = λ e. (0x80000010, 0x80001398);
  num_program_headers = λ e. 1;
  header_type = λ e i. 1;
  header_file_size = λ e i. 4100;
  header_memory_size = λ e i. 5000;
  header_vaddr = λ e i. 0x80000010;
  entry_point = λ e. 0x80000010;
  program_segment = λ e i j. j;
}

abbrev sample_file : ElfFile ℕ
sample_file = record {
  filep = 3;
  min_vaddr = 0x80000000;
  max_vaddr = 0x80002000;
  ptr = 0x5000;
  file_size = 8000;
  is_runtime = true;
  elf = 0;
}

sample-IsLayout :
    IsLayout one_segment sample_file 5 (get_num_program_headers one_segment sample_file)
unfolding get_num_program_headers get_program_header_file_size get_program_header_memory_size
    get_program_header_vaddr
sample-IsLayout = record {
  first = λ i h l. inr (omega arith);
  longer = λ i h l. omega arith;
  word = λ i h l. omega arith;
  small = λ i h l. omega arith;
  fuelled = λ i h l. omega arith;
  ordered = λ i j h g l m. absurd (omega arith);
}

sample_room :
    (reserved_pages sample_file ≡ 2)
    × (all_pages one_segment sample_file (get_num_program_headers one_segment sample_file) 0 ≡ 2)
unfolding round_down total_memory_size get_num_program_headers get_program_header_type
    get_program_header_memory_size get_program_header_vaddr
sample_room = (refl, refl)

load_elf-IsLoadedFile_example :
    (start : ℕ) × (k' : Keystone ℕ ℕ) × (load_elf no_pages one_segment 3 5 sample_file sample
      ≡ some (success, start, k'))
    × IsLoadedFile one_segment sample_file 0x1000 0x1000000 sample sample-IsSpace 0
        (get_num_program_headers one_segment sample_file)
        k'
load_elf-IsLoadedFile_example =
    load_elf-IsLoadedFile no_pages one_segment sample_file 3 5 0x1000 0x1000000 sample
      sample-IsSpace (omega arith) (omega arith) (unfold get_num_program_headers in omega arith)
      sample-IsLayout (omega (arith, sample_room.0, sample_room.1))
      (λ h lt l x a b. sample_unmapped x)

-- ===== src/Verifier/Forms.antt =====
-- The forms of a report in lib/verifier/report.cpp: bytes, hexadecimal digits and JSON.
use keystone_sdk.Base.{◌≡◌, refl, arith, ◌++◌, take-append, drop-append, take-all}
use keystone_sdk.Host.Measure.{word_bytes}
use keystone_sdk.Verifier.{Report, report_bytes, from_bytes}
use keystone_sdk.Verifier.Checks.{
  IsReport, report_bytes-flat, length-word_bytes, word_of-word_bytes,
}

-- A well-formed report is read back from its bytes.
pub from_bytes-report_bytes : (r : Report) → IsReport r → from_bytes (report_bytes r) ≡ r
unfolding from_bytes
from_bytes-report_bytes r is =
    let w = word_bytes 8 r.enclave.data_len in
    let d7 = r.sm.signature ++ r.dev_public_key in
    let d6 = r.sm.public_key ++ d7 in
    let d5 = r.sm.hash ++ d6 in
    let d4 = r.enclave.signature ++ d5 in
    let d3 = r.enclave.attest_data ++ d4 in
    rw
      (
        report_bytes-flat r is,
        drop-append r.enclave.hash (w ++ d3) 64 is.enclave_hash,
        take-append r.enclave.hash (w ++ d3) 64 is.enclave_hash,
        drop-append w d3 8 (length-word_bytes 8 r.enclave.data_len),
        take-append w d3 8 (length-word_bytes 8 r.enclave.data_len),
        word_of-word_bytes 8 r.enclave.data_len (omega (arith, is.data_len)),
        drop-append r.enclave.attest_data d4 1024 is.data_area,
        take-append r.enclave.attest_data d4 1024 is.data_area,
        drop-append r.enclave.signature d5 64 is.enclave_signature,
        take-append r.enclave.signature d5 64 is.enclave_signature,
        drop-append r.sm.hash d6 64 is.sm_hash,
        take-append r.sm.hash d6 64 is.sm_hash,
        drop-append r.sm.public_key d7 32 is.sm_public_key,
        take-append r.sm.public_key d7 32 is.sm_public_key,
        drop-append r.sm.signature r.dev_public_key 64 is.sm_signature,
        take-append r.sm.signature r.dev_public_key 64 is.sm_signature,
        take-all r.dev_public_key 32 is.dev_public_key,
      )
      refl

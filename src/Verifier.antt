-- ===== src/Verifier.antt =====
-- lib/verifier/report.cpp with report.h and keys.h: an attestation report, its checks, and its forms as
-- bytes and as JSON. Ed25519, the JSON library and the number formatting of the C++ streams are parameters.
pub mod Checks
pub mod Forms
pub mod Text
mod Tests
use keystone_sdk.Base.{
  ℕ, zero, suc, ◌+◌, ◌*◌, ◌%◌, ◌^◌, Bool, true, false, not, ◌&&◌, Option, none, some, List, [], ◌∷◌,
  ◌++◌, length, take, drop, ltb, leb, ◌==◌, if◌then◌else◌, add64,
}
use keystone_sdk.Host.Measure.{word_bytes}

-- `MDSIZE`, `SIGNATURE_SIZE`, `PUBLIC_KEY_SIZE` and `ATTEST_DATA_MAXLEN`
abbrev pub md_size : ℕ
md_size = 64

abbrev pub signature_size : ℕ
signature_size = 64

abbrev pub public_key_size : ℕ
public_key_size = 32

abbrev pub attest_data_maxlen : ℕ
attest_data_maxlen = 1024

-- `struct enclave_report_t`, `struct sm_report_t` and `struct report_t`; arrays of bytes are lists of
-- their lengths.
pub record EnclaveReport : Type 0 where
  pub hash : List ℕ
  pub data_len : ℕ
  pub attest_data : List ℕ
  pub signature : List ℕ

pub record SmReport : Type 0 where
  pub hash : List ℕ
  pub public_key : List ℕ
  pub signature : List ℕ

pub record Report : Type 0 where
  pub enclave : EnclaveReport
  pub sm : SmReport
  pub dev_public_key : List ℕ

-- The number that bytes stand for, the least significant first.
unfoldable pub word_of : List ℕ → ℕ
word_of [] = 0
word_of (b ∷ bytes) = b + 256 * word_of bytes

-- The bytes of the structures in memory, which has no padding.
unfoldable pub enclave_bytes : EnclaveReport → List ℕ
enclave_bytes e = e.hash ++ (word_bytes 8 e.data_len ++ (e.attest_data ++ e.signature))

unfoldable pub sm_bytes : SmReport → List ℕ
sm_bytes s = s.hash ++ (s.public_key ++ s.signature)

unfoldable pub report_bytes : Report → List ℕ
report_bytes r = enclave_bytes r.enclave ++ (sm_bytes r.sm ++ r.dev_public_key)

-- `fromBytes`
unfoldable pub from_bytes : (bin : List ℕ) → Report
from_bytes bin =
    let after_hash = drop md_size bin in
    let attest_data = drop 8 after_hash in
    let signature = drop attest_data_maxlen attest_data in
    let sm = drop signature_size signature in
    let public_key = drop md_size sm in
    let sm_signature = drop public_key_size public_key in
    record {
      enclave = record {
        hash = take md_size bin;
        data_len = word_of (take 8 after_hash);
        attest_data = take attest_data_maxlen attest_data;
        signature = take signature_size signature;
      };
      sm = record {
        hash = take md_size sm;
        public_key = take public_key_size public_key;
        signature = take signature_size sm_signature;
      };
      dev_public_key = take public_key_size (drop signature_size sm_signature);
    }

-- `memcmp(...) == 0` over `len` bytes
unfoldable pub same_bytes : (len : ℕ) → (a b : List ℕ) → Bool
same_bytes zero a b = true
same_bytes (suc n) [] b = false
same_bytes (suc n) (x ∷ a) [] = false
same_bytes (suc n) (x ∷ a) (y ∷ b) = x == y && same_bytes n a b

-- `ed25519_verify`, on the signature, the message and the key.
module _ (ed25519_verify : (signature message key : List ℕ) → ℕ) where
  -- `checkSignaturesOnly`; `none` is a read behind the report's end.
  unfoldable pub check_signatures_only : (dev_public_key : List ℕ) → Report → Option Bool
  check_signatures_only dev_public_key r =
      let sm_valid =
        ed25519_verify r.sm.signature (take (md_size + public_key_size) (sm_bytes r.sm))
          dev_public_key in
      let size = add64 (md_size + 8) r.enclave.data_len in
      let enclave_valid =
        ed25519_verify r.enclave.signature (take size (report_bytes r)) r.sm.public_key in
      if leb size (length (report_bytes r))
      then some (not (sm_valid == 0) && not (enclave_valid == 0))
      else none

  unfoldable pub verify :
      (expected_enclave_hash expected_sm_hash dev_public_key : List ℕ) → Report → Option Bool
  verify expected_enclave_hash expected_sm_hash dev_public_key r =
      elim (check_signatures_only dev_public_key r) [
        | none ↦ none
        | some signature_valid ↦ some (
            same_bytes md_size expected_enclave_hash r.enclave.hash
            && (same_bytes md_size expected_sm_hash r.sm.hash && signature_valid))
      ]

-- `getEnclaveHash`, `getDataSection` and `getDataSize`
unfoldable pub get_enclave_hash : Report → List ℕ
get_enclave_hash r = r.enclave.hash

unfoldable pub get_data_section : Report → List ℕ
get_data_section r = r.enclave.attest_data

unfoldable pub get_data_size : Report → ℕ
get_data_size r = r.enclave.data_len

-- ===== src/Verifier/Checks.antt =====
-- What it takes for a report to be verified, in lib/verifier/report.cpp.
use keystone_sdk.Base.{
  ℕ, zero, suc, ◌+◌, ◌/◌, ◌^◌, ◌≤◌, ◌<◌, ◌≡◌, ◌≢◌, ◌↔◌, inl, inr, refl, arith, Bool, true, false,
  not, ◌&&◌, some, List, [], ◌∷◌, ◌++◌, length, take, leb, ◌==◌, ==_iff, Bool-cases, IsWord, sym,
  ap, ◌∙◌, add64, take-append, take-append_short, take-append_long, length-append, append_assoc,
}
use keystone_sdk.Host.Measure.{word_bytes}
use keystone_sdk.Verifier.{
  Report, enclave_bytes, sm_bytes, report_bytes, same_bytes, check_signatures_only, verify, word_of,
}

-- The arrays of a report have their lengths, and the length of the data is a 64-bit word.
pub record IsReport (r : Report) : Type 0 where
  pub enclave_hash : length r.enclave.hash ≡ 64
  pub data_len : IsWord r.enclave.data_len
  pub data_area : length r.enclave.attest_data ≡ 1024
  pub enclave_signature : length r.enclave.signature ≡ 64
  pub sm_hash : length r.sm.hash ≡ 64
  pub sm_public_key : length r.sm.public_key ≡ 32
  pub sm_signature : length r.sm.signature ≡ 64
  pub dev_public_key : length r.dev_public_key ≡ 32

pub length-word_bytes : (n w : ℕ) → length (word_bytes n w) ≡ n
unfolding word_bytes
length-word_bytes zero w = refl
length-word_bytes (suc n) w = ap suc (length-word_bytes n (w / 256))

pub word_of-word_bytes : (n w : ℕ) → w < 256 ^ n → word_of (word_bytes n w) ≡ w
unfolding word_bytes word_of
word_of-word_bytes zero w h = omega arith
word_of-word_bytes (suc n) w h = omega (arith, word_of-word_bytes n (w / 256) (omega arith))

-- Comparison of byte arrays of one length.
same_bytes_iff :
    (n : ℕ) (a b : List ℕ) → length a ≡ n → length b ≡ n → (same_bytes n a b ≡ true) ↔ (a ≡ b)
unfolding same_bytes
same_bytes_iff zero [] [] ha hb = (λ h. refl, λ e. refl)
same_bytes_iff zero (x ∷ a) b ha hb = absurd (omega arith)
same_bytes_iff zero [] (y ∷ b) ha hb = absurd (omega arith)
same_bytes_iff (suc n) [] b ha hb = absurd (omega arith)
same_bytes_iff (suc n) (x ∷ a) [] ha hb = absurd (omega arith)
same_bytes_iff (suc n) (x ∷ a) (y ∷ b) ha hb =
    let rest = same_bytes_iff n a b (omega arith) (omega arith) in
    elim (Bool-cases (x == y)) [
      | inl eq ↦ (
        λ h. let first = (==_iff x y).0 eq in let tail = rest.0 (rw eq at h) in cc,
        λ e. rw eq (rest.1 cc),
      )
      | inr ne ↦ (
        λ h. absurd (let h' = rw ne at h in cc),
        λ e. absurd (let first : x ≡ y = cc in cc (sym ne ∙ (==_iff x y).1 first)),
      )
    ]

-- The bytes that the security monitor's signature covers.
abbrev pub sm_message : Report → List ℕ
sm_message r = r.sm.hash ++ r.sm.public_key

-- The bytes that the enclave's signature covers: its hash, the length of the data, and the data.
abbrev pub enclave_message : Report → List ℕ
enclave_message r =
    r.enclave.hash
    ++ (word_bytes 8 r.enclave.data_len ++ take r.enclave.data_len r.enclave.attest_data)

module _ (r : Report) (is : IsReport r) where
  sm_bytes-sm_message : take 96 (sm_bytes r.sm) ≡ sm_message r
  unfolding sm_bytes
  sm_bytes-sm_message =
      take-append_long r.sm.hash (r.sm.public_key ++ r.sm.signature) 64 32 is.sm_hash
      ∙ ap (λ (bytes : List ℕ). r.sm.hash ++ bytes)
          (take-append r.sm.public_key r.sm.signature 32 is.sm_public_key)

  abbrev pub after_data : List ℕ
  after_data =
      r.enclave.signature
      ++ (r.sm.hash ++ (r.sm.public_key ++ (r.sm.signature ++ r.dev_public_key)))

  -- The bytes of a report, one field after the other.
  pub report_bytes-flat :
      report_bytes r
      ≡ r.enclave.hash ++ (word_bytes 8 r.enclave.data_len ++ (r.enclave.attest_data ++ after_data))
  unfolding report_bytes enclave_bytes sm_bytes
  report_bytes-flat =
      let w = word_bytes 8 r.enclave.data_len in
      rw
        (
          append_assoc r.enclave.hash (w ++ (r.enclave.attest_data ++ r.enclave.signature))
              ((r.sm.hash ++ (r.sm.public_key ++ r.sm.signature)) ++ r.dev_public_key),
          append_assoc w (r.enclave.attest_data ++ r.enclave.signature)
              ((r.sm.hash ++ (r.sm.public_key ++ r.sm.signature)) ++ r.dev_public_key),
          append_assoc r.enclave.attest_data r.enclave.signature
              ((r.sm.hash ++ (r.sm.public_key ++ r.sm.signature)) ++ r.dev_public_key),
          append_assoc r.sm.hash (r.sm.public_key ++ r.sm.signature) r.dev_public_key,
          append_assoc r.sm.public_key r.sm.signature r.dev_public_key,
        )
        refl

  report_bytes-enclave_message :
      r.enclave.data_len ≤ 1024
      → take (add64 72 r.enclave.data_len) (report_bytes r) ≡ enclave_message r
  report_bytes-enclave_message short =
      let w = word_bytes 8 r.enclave.data_len in
      let size : add64 72 r.enclave.data_len ≡ 64 + (8 + r.enclave.data_len) = omega arith in
      rw
        (
          size,
          report_bytes-flat,
          take-append_long r.enclave.hash (w ++ (r.enclave.attest_data ++ after_data)) 64
              (8 + r.enclave.data_len) is.enclave_hash,
          take-append_long w (r.enclave.attest_data ++ after_data) 8 r.enclave.data_len
              (length-word_bytes 8 r.enclave.data_len),
          take-append_short r.enclave.attest_data after_data r.enclave.data_len
              (omega (arith, is.data_area)),
        )
        refl

  length-report_bytes : length (report_bytes r) ≡ 1352
  length-report_bytes =
      let w = word_bytes 8 r.enclave.data_len in
      rw report_bytes-flat (
        omega (
          arith,
          length-append r.enclave.hash (w ++ (r.enclave.attest_data ++ after_data)),
          length-append w (r.enclave.attest_data ++ after_data),
          length-append r.enclave.attest_data after_data,
          length-append r.enclave.signature
              (r.sm.hash ++ (r.sm.public_key ++ (r.sm.signature ++ r.dev_public_key))),
          length-append r.sm.hash (r.sm.public_key ++ (r.sm.signature ++ r.dev_public_key)),
          length-append r.sm.public_key (r.sm.signature ++ r.dev_public_key),
          length-append r.sm.signature r.dev_public_key,
          length-word_bytes 8 r.enclave.data_len,
          is.enclave_hash,
          is.data_area,
          is.enclave_signature,
          is.sm_hash,
          is.sm_public_key,
          is.sm_signature,
          is.dev_public_key,
        ))

  -- Two codes that must both be other than 0.
  both_iff : (a b : ℕ) → (not (a == 0) && not (b == 0) ≡ true) ↔ ((a ≢ 0) × (b ≢ 0))
  both_iff a b = (λ h. (λ e. ground arith, λ e. ground arith), λ (p, q). ground arith)

  and_iff : (a b : Bool) → (a && b ≡ true) ↔ ((a ≡ true) × (b ≡ true))
  and_iff true true = (λ h. (refl, refl), λ h. refl)
  and_iff true false = (λ h. (refl, h), λ h. h.1)
  and_iff false b = (λ h. absurd cc, λ h. h.0)

  fits_report : r.enclave.data_len ≤ 1024 → leb (add64 72 r.enclave.data_len) 1352 ≡ true
  fits_report short =
      let size : add64 72 r.enclave.data_len ≡ 72 + r.enclave.data_len = omega arith in
      rw size (ground arith)

  -- The signatures are checked on the two messages.
  check_signatures_only-messages :
      (ed25519_verify : (signature message key : List ℕ) → ℕ) (key : List ℕ)
      → r.enclave.data_len ≤ 1024
      → check_signatures_only ed25519_verify key r
        ≡ some (
            not (ed25519_verify r.sm.signature (sm_message r) key == 0)
            && not (ed25519_verify r.enclave.signature (enclave_message r) r.sm.public_key == 0))
  unfolding check_signatures_only
  check_signatures_only-messages ed25519_verify key short =
      rw
        (
          check_signatures_only,
          sm_bytes-sm_message,
          length-report_bytes,
          fits_report short,
          report_bytes-enclave_message short,
        )
        refl

  -- A report with at most 1024 bytes of data is verified, exactly if both hashes are the expected ones, the
  -- device's key has signed the security monitor's hash and key, and that key has signed the enclave's hash
  -- with the length of the data and the data; and the check never reads behind the report.
  pub verify_iff :
      (ed25519_verify : (signature message key : List ℕ) → ℕ)
      (expected_enclave_hash expected_sm_hash : List ℕ) (dev_public_key : List ℕ)
      → r.enclave.data_len ≤ 1024
      → length expected_enclave_hash ≡ 64
      → length expected_sm_hash ≡ 64
      → (valid : Bool) × (verify ed25519_verify expected_enclave_hash expected_sm_hash
            dev_public_key r
          ≡ some valid)
        × ((valid ≡ true) ↔ (
            (expected_enclave_hash ≡ r.enclave.hash)
            × (expected_sm_hash ≡ r.sm.hash)
            × (ed25519_verify r.sm.signature (sm_message r) dev_public_key ≢ 0)
            × (ed25519_verify r.enclave.signature (enclave_message r) r.sm.public_key ≢ 0)))
  unfolding verify
  verify_iff ed25519_verify expected_enclave_hash expected_sm_hash dev_public_key short he hs =
      let a = ed25519_verify r.sm.signature (sm_message r) dev_public_key in
      let b = ed25519_verify r.enclave.signature (enclave_message r) r.sm.public_key in
      let e = same_bytes_iff 64 expected_enclave_hash r.enclave.hash he is.enclave_hash in
      let s = same_bytes_iff 64 expected_sm_hash r.sm.hash hs is.sm_hash in
      let both = both_iff a b in
      let signed = not (a == 0) && not (b == 0) in
      let second = same_bytes 64 expected_sm_hash r.sm.hash && signed in
      let first = and_iff (same_bytes 64 expected_enclave_hash r.enclave.hash) second in
      let rest = and_iff (same_bytes 64 expected_sm_hash r.sm.hash) signed in
      (
        _,
        rw (verify, check_signatures_only-messages ed25519_verify dev_public_key short) refl,
        (
          λ h.
              let (h1, h2) = first.0 h in
              let (h3, h4) = rest.0 h2 in let (p, q) = both.0 h4 in (e.0 h1, s.0 h3, p, q),
          λ (h1, h3, p, q). first.1 (e.1 h1, rest.1 (s.1 h3, both.1 (p, q))),
        ),
      )

-- ===== src/Verifier/Text/Roundtrip.antt =====
-- A report is read back from its text, in lib/verifier/report.cpp.
use keystone_sdk.Base.{
  ℕ, zero, suc, ◌%◌, ◌^◌, ◌≤◌, ◌<◌, ◌≡◌, refl, arith, true, false, Option, some, List, [], ◌∷◌,
  ◌++◌, length, take, drop, ltb, Bool, none, ◌==◌, ◌&&◌, if◌then◌else◌, ap, ◌∙◌, take-all,
  sign_extend32,
}
use keystone_sdk.Verifier.{Report}
use keystone_sdk.Verifier.Checks.{IsReport}
use keystone_sdk.Verifier.Text.{
  Streams, JsonLibrary, key_device_pubkey, key_security_monitor, key_enclave, key_hash, key_pubkey,
  key_signature, key_datalen, key_data, bytes_to_hex, sm_object, enclave_object, report_object,
  stringfy, read_member, from_json,
}
use keystone_sdk.Verifier.Text.Hex.{IsHexadecimal, AllBytes, hex_to_bytes-bytes_to_hex}

-- All of an array is read over.
drop-all : (n : ℕ) (old : List ℕ) → length old ≡ n → drop n old ≡ []
drop-all zero [] h = refl
drop-all zero (x ∷ old) h = absurd (omega arith)
drop-all (suc n) [] h = refl
drop-all (suc n) (x ∷ old) h = drop-all n old (omega arith)

append-nothing : (bytes : List ℕ) → bytes ++ [] ≡ bytes
append-nothing [] = refl
append-nothing (b ∷ bytes) = ap (λ (ys : List ℕ). b ∷ ys) (append-nothing bytes)

unfoldable pub same_text : List ℕ → List ℕ → Bool
same_text [] [] = true
same_text [] (y ∷ ys) = false
same_text (x ∷ xs) [] = false
same_text (x ∷ xs) (y ∷ ys) = x == y && same_text xs ys

-- The first member with the key.
unfoldable pub find_member {ℓ} : {J : Type ℓ} → (key : List ℕ) → List (List ℕ × J) → Option J
unfolding same_text
find_member key [] = none
find_member key ((k, v) ∷ members) =
    let rest = find_member key members in if same_text k key then some v else rest

-- A JSON library that reads back what it writes: a value from its text, a string and an `int` from their
-- values, and the member of an object with a key.
pub record IsJsonLibrary {J : Type 0} (json : JsonLibrary J) : Type 0 where
  pub parses : (j : J) → json.parse (json.dump j) ≡ j
  pub strings : (text : List ℕ) → json.string_value (json.make_string text) ≡ text
  pub ints : (n : ℕ) → n < 2 ^ 31 → json.int_value (json.make_int n) ≡ n
  pub members :
      (key : List ℕ) (members : List (List ℕ × J)) (v : J)
      → find_member key members ≡ some v
      → json.index (json.make_object members) key ≡ v

-- All arrays of a report hold bytes.
pub record IsByteReport (r : Report) : Type 0 where
  pub enclave_hash : AllBytes r.enclave.hash
  pub data_area : AllBytes r.enclave.attest_data
  pub enclave_signature : AllBytes r.enclave.signature
  pub sm_hash : AllBytes r.sm.hash
  pub sm_public_key : AllBytes r.sm.public_key
  pub sm_signature : AllBytes r.sm.signature
  pub dev_public_key : AllBytes r.dev_public_key

-- The report with the data beyond its length taken from another, as the text does not have them.
abbrev pub received : (r old : Report) → Report
received r old = record r {
  enclave = record r.enclave {
    attest_data =
        take r.enclave.data_len r.enclave.attest_data
        ++ drop r.enclave.data_len old.enclave.attest_data;
  };
}

-- An array of a report that is read from the text of another.
module _ (io : Streams) (hex : IsHexadecimal io) where
  read_member-hex :
      (n : ℕ) (bytes old : List ℕ) (next : List ℕ → Option Report)
      → AllBytes bytes
      → length bytes ≡ n
      → length old ≡ n
      → n < 2 ^ 31
      → read_member io old n (bytes_to_hex io bytes n) next ≡ next bytes
  unfolding read_member
  read_member-hex n bytes old next all h ho small =
      let read =
        hex_to_bytes-bytes_to_hex io hex n bytes old all (omega arith) (omega arith) small in
      let whole : take n bytes ++ drop n old ≡ bytes =
        ap (λ (ys : List ℕ). ys ++ drop n old) (take-all bytes n h)
        ∙ ap (λ (ys : List ℕ). bytes ++ ys) (drop-all n old ho)
        ∙ append-nothing bytes in
      rw (read_member, read, whole) refl

  read_member-part :
      (n : ℕ) (bytes old : List ℕ) (next : List ℕ → Option Report)
      → AllBytes bytes
      → n ≤ length bytes
      → n ≤ length old
      → n < 2 ^ 31
      → read_member io old n (bytes_to_hex io bytes n) next ≡ next (take n bytes ++ drop n old)
  unfolding read_member
  read_member-part n bytes old next all h ho small =
      rw (read_member, hex_to_bytes-bytes_to_hex io hex n bytes old all h ho small) refl

  -- The arrays of a report and the length of its data, read from their texts.
  abbrev read_all :
      (old : Report) (dev sm_h sm_p sm_s e_h e_d e_s : List ℕ) (len : ℕ) → Option Report
  read_all old dev sm_h sm_p sm_s e_h e_d e_s len = read_member io old.dev_public_key 32 dev λ dev'.
      read_member io old.sm.hash 64 sm_h λ sm_h'. read_member io old.sm.public_key 32 sm_p λ sm_p'.
        read_member io old.sm.signature 64 sm_s λ sm_s'.
          read_member io old.enclave.hash 64 e_h λ e_h'.
            read_member io old.enclave.attest_data len e_d λ e_d'.
              read_member io old.enclave.signature 64 e_s λ e_s'. some (record {
                enclave = record {
                  hash = e_h';
                  data_len = len;
                  attest_data = e_d';
                  signature = e_s';
                };
                sm = record { hash = sm_h'; public_key = sm_p'; signature = sm_s' };
                dev_public_key = dev';
              })

  read_all-received :
      (r old : Report) (dev sm_h sm_p sm_s e_h e_d e_s : List ℕ) (len : ℕ)
      → IsReport r
      → IsReport old
      → IsByteReport r
      → r.enclave.data_len ≤ 1024
      → dev ≡ bytes_to_hex io r.dev_public_key 32
      → sm_h ≡ bytes_to_hex io r.sm.hash 64
      → sm_p ≡ bytes_to_hex io r.sm.public_key 32
      → sm_s ≡ bytes_to_hex io r.sm.signature 64
      → e_h ≡ bytes_to_hex io r.enclave.hash 64
      → e_d ≡ bytes_to_hex io r.enclave.attest_data r.enclave.data_len
      → e_s ≡ bytes_to_hex io r.enclave.signature 64
      → len ≡ r.enclave.data_len
      → read_all old dev sm_h sm_p sm_s e_h e_d e_s len ≡ some (received r old)
  read_all-received r old dev sm_h sm_p sm_s e_h e_d e_s len is was all short t1 t2 t3 t4 t5 t6 t7
        same =
      let n = r.enclave.data_len in
      rw (t1, t2, t3, t4, t5, t6, t7, same)
        (read_member-hex 32 r.dev_public_key old.dev_public_key _ all.dev_public_key
            is.dev_public_key was.dev_public_key (omega arith)
          ∙ read_member-hex 64 r.sm.hash old.sm.hash _ all.sm_hash is.sm_hash was.sm_hash
              (omega arith)
          ∙ read_member-hex 32 r.sm.public_key old.sm.public_key _ all.sm_public_key
              is.sm_public_key was.sm_public_key (omega arith)
          ∙ read_member-hex 64 r.sm.signature old.sm.signature _ all.sm_signature is.sm_signature
              was.sm_signature (omega arith)
          ∙ read_member-hex 64 r.enclave.hash old.enclave.hash _ all.enclave_hash is.enclave_hash
              was.enclave_hash (omega arith)
          ∙ read_member-part n r.enclave.attest_data old.enclave.attest_data _ all.data_area
              (omega (arith, is.data_area)) (omega (arith, was.data_area)) (omega arith)
          ∙ read_member-hex 64 r.enclave.signature old.enclave.signature _ all.enclave_signature
              is.enclave_signature was.enclave_signature (omega arith))

module _ (io : Streams) {J : Type 0} (json : JsonLibrary J) (lib : IsJsonLibrary json) where
  -- What is read from the members of the two inner objects.
  index-sm :
      (r : Report) (key : List ℕ) (v : J)
      → find_member key (
          (key_hash, json.make_string (bytes_to_hex io r.sm.hash 64))
          ∷ (key_pubkey, json.make_string (bytes_to_hex io r.sm.public_key 32))
          ∷ (key_signature, json.make_string (bytes_to_hex io r.sm.signature 64))
          ∷ [])
        ≡ some v
      → json.index (json.index (report_object io json r) key_security_monitor) key ≡ v
  unfolding report_object sm_object find_member same_text
  index-sm r key v found =
      ap (λ (o : J). json.index o key) (lib.members key_security_monitor _ _ refl)
      ∙ lib.members key _ v found

  index-enclave :
      (r : Report) (key : List ℕ) (v : J)
      → find_member key (
          (key_hash, json.make_string (bytes_to_hex io r.enclave.hash 64))
          ∷ (key_datalen, json.make_int (r.enclave.data_len % 2 ^ 32))
          ∷ (key_data, json.make_string (bytes_to_hex io r.enclave.attest_data r.enclave.data_len))
          ∷ (key_signature, json.make_string (bytes_to_hex io r.enclave.signature 64))
          ∷ [])
        ≡ some v
      → json.index (json.index (report_object io json r) key_enclave) key ≡ v
  unfolding report_object enclave_object find_member same_text
  index-enclave r key v found =
      ap (λ (o : J). json.index o key) (lib.members key_enclave _ _ refl)
      ∙ lib.members key _ v found

  index-device :
      (r : Report)
      → json.index (report_object io json r) key_device_pubkey
        ≡ json.make_string (bytes_to_hex io r.dev_public_key 32)
  unfolding report_object find_member same_text
  index-device r = lib.members key_device_pubkey _ _ refl

  parse-stringfy :
      (r : Report)
      → r.enclave.data_len ≤ 1024
      → json.parse (stringfy io json r) ≡ report_object io json r
  unfolding stringfy
  parse-stringfy r h =
      let fits : ltb 1024 r.enclave.data_len ≡ false = ground arith in
      rw fits (lib.parses (report_object io json r))

  -- With streams that write a byte as one or two hexadecimal digits and read two digits as their number, and
  -- a JSON library that reads back what it writes (a value from its text, a string, an `int` that is not
  -- negative, and the member of an object with a key): for a report whose arrays have the lengths of the
  -- structure and hold bytes, with at most 1024 bytes of data, the text of `stringfy` is read by
  -- `fromJson` into any other report with arrays of these lengths as the same report; only the data behind
  -- their length stay as they were.
  pub from_json-stringfy :
      IsHexadecimal io
      → (r old : Report) → IsReport r
      → IsReport old
      → IsByteReport r
      → r.enclave.data_len ≤ 1024
      → from_json io json (stringfy io json r) old ≡ some (received r old)
  unfolding from_json find_member same_text
  from_json-stringfy hex r old is was all short =
      let n = r.enclave.data_len in
      let in_sm = index-sm r in
      let in_enclave = index-enclave r in
      let small : n % 2 ^ 32 ≡ n = omega arith in
      let len : sign_extend32 n ≡ n = ground arith in
      rw (parse-stringfy r short) (
        read_all-received io hex r old _ _ _ _ _ _ _ _ is was all short
          (ap json.string_value (index-device r) ∙ lib.strings _)
          (ap json.string_value (in_sm key_hash _ refl) ∙ lib.strings _)
          (ap json.string_value (in_sm key_pubkey _ refl) ∙ lib.strings _)
          (ap json.string_value (in_sm key_signature _ refl) ∙ lib.strings _)
          (ap json.string_value (in_enclave key_hash _ refl) ∙ lib.strings _)
          (ap json.string_value (in_enclave key_data _ refl) ∙ lib.strings _)
          (ap json.string_value (in_enclave key_signature _ refl) ∙ lib.strings _)
          (ap (λ (j : J). sign_extend32 (json.int_value j)) (in_enclave key_datalen _ refl)
            ∙ rw (small, lib.ints n (omega arith)) len))

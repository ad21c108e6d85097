-- ===== src/Verifier/Tests.antt =====
-- A report with three bytes of data.
use keystone_sdk.Base.{
  ℕ, zero, suc, ◌+◌, ◌*◌, ◌/◌, ◌%◌, ◌<◌, ◌≡◌, ◌≢◌, ◌↔◌, refl, arith, Bool, Bool-cases, inl, inr,
  true, false, some, if◌then◌else◌, ltb, ◌-◌, List, [], ◌∷◌, ◌++◌, length, take, drop, replicate,
  take-append, drop-append, ap,
}
use keystone_sdk.Verifier.{Report, verify}
use keystone_sdk.Verifier.Checks.{IsReport, sm_message, enclave_message, verify_iff}
use keystone_sdk.Verifier.Text.{Streams, JsonLibrary, stringfy, from_json}
use keystone_sdk.Verifier.Text.Hex.{IsHexadecimal, AllBytes}
use keystone_sdk.Verifier.Text.Roundtrip.{
  IsJsonLibrary, IsByteReport, received, from_json-stringfy, same_text, find_member,
}

abbrev report_of : (fill data_len : ℕ) → Report
report_of fill data_len = record {
  enclave = record {
    hash = replicate 64 fill;
    data_len = data_len;
    attest_data = replicate 1024 fill;
    signature = replicate 64 1;
  };
  sm = record { hash = replicate 64 2; public_key = replicate 32 3; signature = replicate 64 4 };
  dev_public_key = replicate 32 5;
}

length-replicate : (n x : ℕ) → length (replicate n x) ≡ n
length-replicate zero x = refl
length-replicate (suc n) x = ap suc (length-replicate n x)

report_of-IsReport : (fill data_len : ℕ) → data_len < 2000 → IsReport (report_of fill data_len)
report_of-IsReport fill data_len h = record {
  enclave_hash = length-replicate 64 fill;
  data_len = omega arith;
  data_area = length-replicate 1024 fill;
  enclave_signature = length-replicate 64 1;
  sm_hash = length-replicate 64 2;
  sm_public_key = length-replicate 32 3;
  sm_signature = length-replicate 64 4;
  dev_public_key = length-replicate 32 5;
}

replicate-AllBytes : (n x : ℕ) → x < 256 → AllBytes (replicate n x)
replicate-AllBytes zero x h = refl
replicate-AllBytes (suc n) x h = (h, replicate-AllBytes n x h)

abbrev sevens : List ℕ
sevens = replicate 64 7

abbrev twos : List ℕ
twos = replicate 64 2

-- A signature scheme that accepts everything.
abbrev accept : (signature message key : List ℕ) → ℕ
accept signature message key = 1

verify_iff_example :
    (valid : Bool) × (verify accept
        (replicate 64 7)
        (replicate 64 2)
        (replicate 32 5)
        (report_of 7 3)
      ≡ some valid)
    × ((valid ≡ true) ↔ (
        (sevens ≡ sevens)
        × (twos ≡ twos)
        × (accept (replicate 64 4) (sm_message (report_of 7 3)) (replicate 32 5) ≢ 0)
        × (accept (replicate 64 1) (enclave_message (report_of 7 3)) (replicate 32 3) ≢ 0)))
verify_iff_example =
    verify_iff (report_of 7 3) (report_of-IsReport 7 3 (omega arith)) accept (replicate 64 7)
      (replicate 64 2) (replicate 32 5) (omega arith) (length-replicate 64 7)
      (length-replicate 64 2)

-- The digit of a number below 16, from 0 to 9 and from a to f, and its value.
abbrev hex_digit : ℕ → ℕ
hex_digit d = if ltb d 10 then 48 + d else 87 + d

abbrev digit_value : ℕ → ℕ
digit_value c = if ltb c 58 then c - 48 else c - 87

abbrev read_two : List ℕ → ℕ
read_two [] = 0
read_two (x ∷ []) = digit_value x
read_two (x ∷ y ∷ rest) = 16 * digit_value x + digit_value y

abbrev plain_streams : Streams
plain_streams = record {
  show_hex =
      λ b. if ltb b 16 then hex_digit b ∷ [] else hex_digit (b / 16) ∷ hex_digit (b % 16) ∷ [];
  read_hex = read_two;
}

digit_value-hex_digit : (d : ℕ) → d < 16 → digit_value (hex_digit d) ≡ d
digit_value-hex_digit d h = ground arith

plain_streams-IsHexadecimal : IsHexadecimal plain_streams
plain_streams-IsHexadecimal = record {
  digit = hex_digit;
  zero_digit = refl;
  shows_one = λ b h. let low : ltb b 16 ≡ true = ground arith in rw low refl;
  shows_two = λ b l h. let high : ltb b 16 ≡ false = ground arith in rw high refl;
  reads = λ x y h g.
      let one = digit_value-hex_digit x h in
      let two = digit_value-hex_digit y g in rw (one, two) refl;
}

-- JSON values that are their own text: an object is the number of its members, and each of them with the
-- lengths of key and value before it.
encode : List (List ℕ × List ℕ) → List ℕ
encode [] = []
encode ((k, v) ∷ members) = length k ∷ length v ∷ (k ++ (v ++ encode members))

member_at : (left : ℕ) (key text : List ℕ) → List ℕ
unfolding same_text
member_at zero key text = []
member_at (suc left) key [] = []
member_at (suc left) key (lk ∷ []) = []
member_at (suc left) key (lk ∷ lv ∷ body) =
    let rest = member_at left key (drop lv (drop lk body)) in
    if same_text (take lk body) key then take lv (drop lk body) else rest

abbrev index_of : (text key : List ℕ) → List ℕ
index_of [] key = []
index_of (n ∷ text) key = member_at n key text

abbrev first_of : List ℕ → ℕ
first_of [] = 0
first_of (n ∷ rest) = n

abbrev plain_json : JsonLibrary (List ℕ)
plain_json = record {
  make_string = λ text. text;
  make_int = λ n. n ∷ [];
  make_object = λ members. length members ∷ encode members;
  index = index_of;
  string_value = λ j. j;
  int_value = first_of;
  dump = λ j. j;
  parse = λ text. text;
}

member_at-encode :
    (key : List ℕ) (members : List (List ℕ × List ℕ)) (v : List ℕ)
    → find_member key members ≡ some v
    → member_at (length members) key (encode members) ≡ v
unfolding member_at encode find_member
member_at-encode key [] v found = absurd cc
member_at-encode key ((k, w) ∷ members) v found =
    let tail = w ++ encode members in
    let key_part : take (length k) (k ++ tail) ≡ k = take-append k tail (length k) refl in
    let behind : drop (length k) (k ++ tail) ≡ tail = drop-append k tail (length k) refl in
    let value : take (length w) tail ≡ w = take-append w (encode members) (length w) refl in
    let next : drop (length w) tail ≡ encode members =
      drop-append w (encode members) (length w) refl in
    elim (Bool-cases (same_text k key)) [
      | inl same ↦
          let found' : w ≡ v = let f = rw same at found in cc in
          rw (behind, key_part, same, value) found'
      | inr other ↦
          let found' = rw other at found in
          rw (behind, key_part, other, next) (member_at-encode key members v found')
    ]

plain_json-IsJsonLibrary : IsJsonLibrary plain_json
plain_json-IsJsonLibrary = record {
  parses = λ j. refl;
  strings = λ text. refl;
  ints = λ n h. refl;
  members = member_at-encode;
}

report_of-IsByteReport : (fill data_len : ℕ) → fill < 256 → IsByteReport (report_of fill data_len)
report_of-IsByteReport fill data_len h = record {
  enclave_hash = replicate-AllBytes 64 fill h;
  data_area = replicate-AllBytes 1024 fill h;
  enclave_signature = replicate-AllBytes 64 1 (omega arith);
  sm_hash = replicate-AllBytes 64 2 (omega arith);
  sm_public_key = replicate-AllBytes 32 3 (omega arith);
  sm_signature = replicate-AllBytes 64 4 (omega arith);
  dev_public_key = replicate-AllBytes 32 5 (omega arith);
}

from_json-stringfy_example :
    from_json plain_streams plain_json
      (stringfy plain_streams plain_json (report_of 7 3))
      (report_of 9 0)
    ≡ some (received (report_of 7 3) (report_of 9 0))
from_json-stringfy_example =
    from_json-stringfy plain_streams plain_json plain_json-IsJsonLibrary plain_streams-IsHexadecimal
      (report_of 7 3) (report_of 9 0) (report_of-IsReport 7 3 (omega arith))
      (report_of-IsReport 9 0 (omega arith)) (report_of-IsByteReport 7 3 (omega arith))
      (omega arith)

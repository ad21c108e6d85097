-- ===== src/Verifier/Text.antt =====
-- lib/verifier/report.cpp: a report as text, `BytesToHex`, `HexToBytes`, `stringfy` and `fromJson`. The
-- hexadecimal numbers of the C++ streams and the JSON library are parameters; a string is a list of
-- character codes. The counters of the loops are compared with lengths below 2^32.
pub mod Hex
pub mod Roundtrip
use keystone_sdk.Base.{
  ℕ, zero, suc, ◌+◌, ◌-◌, ◌*◌, ◌%◌, ◌^◌, Option, none, some, List, [], ◌∷◌, ◌++◌, length, take,
  drop, set, replicate, ltb, if◌then◌else◌, sign_extend32,
}
use keystone_sdk.Verifier.{Report, EnclaveReport, SmReport, attest_data_maxlen}

-- `<< std::hex` of a number, and `>> std::hex` from a string.
pub record Streams : Type 0 where
  pub show_hex : (byte : ℕ) → List ℕ
  pub read_hex : (text : List ℕ) → ℕ

-- The JSON library, json11, whose values are `J`: the values made of a string, of an `int`, which is its
-- 32-bit pattern, and of the members of an object; `value[key]`, `string_value`, `int_value`, `dump` and
-- `Json::parse`.
pub record JsonLibrary (J : Type 0) : Type 0 where
  pub make_string : (text : List ℕ) → J
  pub make_int : (n : ℕ) → J
  pub make_object : (members : List (List ℕ × J)) → J
  pub index : J → (key : List ℕ) → J
  pub string_value : J → List ℕ
  pub int_value : J → ℕ
  pub dump : J → List ℕ
  pub parse : (text : List ℕ) → J

-- "device_pubkey"
abbrev pub key_device_pubkey : List ℕ
key_device_pubkey = 100 ∷ 101 ∷ 118 ∷ 105 ∷ 99 ∷ 101 ∷ 95 ∷ 112 ∷ 117 ∷ 98 ∷ 107 ∷ 101 ∷ 121 ∷ []

-- "security_monitor"
abbrev pub key_security_monitor : List ℕ
key_security_monitor =
    115 ∷ 101 ∷ 99 ∷ 117 ∷ 114 ∷ 105 ∷ 116 ∷ 121 ∷ 95 ∷ 109 ∷ 111 ∷ 110 ∷ 105 ∷ 116 ∷ 111 ∷ 114 ∷ []

-- "enclave"
abbrev pub key_enclave : List ℕ
key_enclave = 101 ∷ 110 ∷ 99 ∷ 108 ∷ 97 ∷ 118 ∷ 101 ∷ []

-- "hash"
abbrev pub key_hash : List ℕ
key_hash = 104 ∷ 97 ∷ 115 ∷ 104 ∷ []

-- "pubkey"
abbrev pub key_pubkey : List ℕ
key_pubkey = 112 ∷ 117 ∷ 98 ∷ 107 ∷ 101 ∷ 121 ∷ []

-- "signature"
abbrev pub key_signature : List ℕ
key_signature = 115 ∷ 105 ∷ 103 ∷ 110 ∷ 97 ∷ 116 ∷ 117 ∷ 114 ∷ 101 ∷ []

-- "datalen"
abbrev pub key_datalen : List ℕ
key_datalen = 100 ∷ 97 ∷ 116 ∷ 97 ∷ 108 ∷ 101 ∷ 110 ∷ []

-- "data"
abbrev pub key_data : List ℕ
key_data = 100 ∷ 97 ∷ 116 ∷ 97 ∷ []

-- The text `{ "error" : "invalid data length" }`
abbrev pub error_text : List ℕ
error_text =
    123 ∷ 32 ∷ 34 ∷ 101 ∷ 114 ∷ 114 ∷ 111 ∷ 114 ∷ 34 ∷ 32 ∷ 58 ∷ 32 ∷ 34 ∷ 105 ∷ 110 ∷ 118 ∷ 97
    ∷ 108 ∷ 105 ∷ 100 ∷ 32 ∷ 100 ∷ 97 ∷ 116 ∷ 97 ∷ 32 ∷ 108 ∷ 101 ∷ 110 ∷ 103 ∷ 116 ∷ 104 ∷ 34 ∷ 32
    ∷ 125 ∷ []

-- What `HexToBytes` leaves in the array; `substr` throws behind the end of the string, and a write behind
-- the end of the array is undefined.
pub data Filled : Type 0 where
  filled : List ℕ → Filled
  out_of_range : Filled
  overflow : Filled

-- What `std::setfill` and `std::setw` put before the next output.
unfoldable pub set_width : (fill width : ℕ) → (text : List ℕ) → List ℕ
set_width fill width text = replicate (width - length text) fill ++ text

module _ (io : Streams) where
  -- 48 is the character 0.
  unfoldable pub bytes_to_hex : (bytes : List ℕ) → (len : ℕ) → List ℕ
  bytes_to_hex bytes zero = []
  bytes_to_hex [] (suc len) = []
  bytes_to_hex (b ∷ bytes) (suc len) = set_width 48 2 (io.show_hex b) ++ bytes_to_hex bytes len

  -- The loop, with `left` rounds to go from `i` on.
  unfoldable pub hex_loop : (left i : ℕ) → (bytes text : List ℕ) → Filled
  hex_loop zero i bytes text = filled bytes
  hex_loop (suc left) i bytes text =
      let at = i * 2 % 2 ^ 32 in
      let rest =
        hex_loop left (i + 1) (set bytes i (io.read_hex (take 2 (drop at text)) % 256)) text in
      if ltb (length text) at then out_of_range else if ltb i (length bytes) then rest else overflow

  unfoldable pub hex_to_bytes : (bytes : List ℕ) → (len : ℕ) → (text : List ℕ) → Filled
  hex_to_bytes bytes len text = hex_loop len 0 bytes text

  -- One array that is read from a string, and what is done with it.
  unfoldable pub read_member :
      (bytes : List ℕ) (len : ℕ) (text : List ℕ) → (List ℕ → Option Report) → Option Report
  read_member bytes len text next = elim (hex_to_bytes bytes len text) [
    | filled read ↦ next read
    | out_of_range ↦ none
    | overflow ↦ none
  ]

  module _ {J : Type 0} (json : JsonLibrary J) where
    -- The value of an array in hexadecimal.
    abbrev hex_value : (bytes : List ℕ) → (len : ℕ) → J
    hex_value bytes len = json.make_string (bytes_to_hex bytes len)

    -- The two objects inside the report's.
    unfoldable pub sm_object : Report → J
    sm_object r = json.make_object (
        (key_hash, hex_value r.sm.hash 64)
        ∷ (key_pubkey, hex_value r.sm.public_key 32)
        ∷ (key_signature, hex_value r.sm.signature 64)
        ∷ [])

    unfoldable pub enclave_object : Report → J
    enclave_object r = json.make_object (
        (key_hash, hex_value r.enclave.hash 64)
        ∷ (key_datalen, json.make_int (r.enclave.data_len % 2 ^ 32))
        ∷ (key_data, hex_value r.enclave.attest_data r.enclave.data_len)
        ∷ (key_signature, hex_value r.enclave.signature 64)
        ∷ [])

    unfoldable pub report_object : Report → J
    report_object r = json.make_object (
        (key_device_pubkey, hex_value r.dev_public_key 32)
        ∷ (key_security_monitor, sm_object r)
        ∷ (key_enclave, enclave_object r)
        ∷ [])

    unfoldable pub stringfy : Report → List ℕ
    stringfy r =
        if ltb attest_data_maxlen r.enclave.data_len
        then error_text
        else json.dump (report_object r)

    -- `json[outer][key].string_value()`
    abbrev inner_text : J → (outer key : List ℕ) → List ℕ
    inner_text j outer key = json.string_value (json.index (json.index j outer) key)

    -- `fromJson`, into a report with older contents; `none` is an exception, or a write behind an array.
    unfoldable pub from_json : (text : List ℕ) → Report → Option Report
    from_json text r =
        let j = json.parse text in
        let sm = inner_text j key_security_monitor in
        let enclave = inner_text j key_enclave in
        let len =
          sign_extend32 (json.int_value (json.index (json.index j key_enclave) key_datalen)) in
        read_member r.dev_public_key 32 (json.string_value (json.index j key_device_pubkey)) λ dev.
          read_member r.sm.hash 64 (sm key_hash) λ sm_h.
            read_member r.sm.public_key 32 (sm key_pubkey) λ sm_p.
              read_member r.sm.signature 64 (sm key_signature) λ sm_s.
                read_member r.enclave.hash 64 (enclave key_hash) λ e_h.
                  read_member r.enclave.attest_data len (enclave key_data) λ e_d.
                    read_member r.enclave.signature 64 (enclave key_signature) λ e_s. some (record {
                      enclave = record {
                        hash = e_h;
                        data_len = len;
                        attest_data = e_d;
                        signature = e_s;
                      };
                      sm = record { hash = sm_h; public_key = sm_p; signature = sm_s };
                      dev_public_key = dev;
                    })

-- ===== src/Verifier/Text/Hex.antt =====
-- `BytesToHex` and `HexToBytes` of lib/verifier/report.cpp, one after the other.
use keystone_sdk.Base.{
  ℕ, zero, suc, ◌+◌, ◌*◌, ◌/◌, ◌%◌, ◌^◌, ◌≤◌, ◌<◌, ◌≡◌, refl, arith, true, false, List, [], ◌∷◌,
  ◌++◌, length, take, drop, set, ltb, ◌⊎◌, inl, inr, ap, ◌∙◌, append_assoc, length-append,
  take-append, drop-append,
}
use keystone_sdk.Verifier.Text.{Streams, filled, set_width, bytes_to_hex, hex_loop, hex_to_bytes}

-- A byte below 16 is shown as one digit and any other as two, the digit of 0 is the character 0, and two
-- digits are read as their number.
pub record IsHexadecimal (io : Streams) : Type 0 where
  pub digit : ℕ → ℕ
  pub zero_digit : digit 0 ≡ 48
  pub shows_one : (b : ℕ) → b < 16 → io.show_hex b ≡ digit b ∷ []
  pub shows_two : (b : ℕ) → 16 ≤ b → b < 256 → io.show_hex b ≡ digit (b / 16) ∷ digit (b % 16) ∷ []
  pub reads : (x y : ℕ) → x < 16 → y < 16 → io.read_hex (digit x ∷ digit y ∷ []) ≡ 16 * x + y

abbrev pub AllBytes : List ℕ → Type 0
AllBytes [] = zero ≡ zero
AllBytes (b ∷ bytes) = (b < 256) × AllBytes bytes

set-append :
    (xs ys : List ℕ) (y v n : ℕ) → length xs ≡ n → set (xs ++ (y ∷ ys)) n v ≡ xs ++ (v ∷ ys)
set-append [] ys y v zero h = refl
set-append [] ys y v (suc n) h = absurd (omega arith)
set-append (x ∷ xs) ys y v zero h = absurd (omega arith)
set-append (x ∷ xs) ys y v (suc n) h = ap (λ zs. x ∷ zs) (set-append xs ys y v n (omega arith))

module _ (io : Streams) (hex : IsHexadecimal io) where
  -- The text of a byte, which has two digits.
  abbrev shown : (b : ℕ) → List ℕ
  shown b = set_width 48 2 (io.show_hex b)

  shown-digits : (b : ℕ) → b < 256 → shown b ≡ hex.digit (b / 16) ∷ hex.digit (b % 16) ∷ []
  unfolding set_width
  shown-digits b h = elim (one_or_two b) [
    | inl low ↦
        let high : b / 16 ≡ 0 = omega arith in
        let rest : b % 16 ≡ b = omega arith in
        rw (high, rest, hex.shows_one b low, hex.zero_digit) refl
    | inr two ↦ rw (hex.shows_two b two h) refl
  ]
    where
      one_or_two : (b : ℕ) → (b < 16) ⊎ (16 ≤ b)
      one_or_two b = omega arith

  read_hex-shown : (b : ℕ) → b < 256 → io.read_hex (shown b) % 256 ≡ b
  read_hex-shown b h =
      rw (shown-digits b h, hex.reads (b / 16) (b % 16) (omega arith) (omega arith)) (omega arith)

  length-shown : (b : ℕ) → b < 256 → length (shown b) ≡ 2
  length-shown b h = rw (shown-digits b h) refl

  -- The digits of the bytes that are still to be read.
  abbrev digits : List ℕ → List ℕ
  digits todo = bytes_to_hex io todo (length todo)

  hex_loop-step :
      (left i b : ℕ) (pre post ready old : List ℕ) (o : ℕ)
      → b < 256
      → length pre ≡ 2 * i
      → length ready ≡ i
      → 2 * i < 2 ^ 32
      → hex_loop io (suc left) i (ready ++ (o ∷ old)) (pre ++ (shown b ++ post))
        ≡ hex_loop io left (i + 1) (ready ++ (b ∷ old)) (pre ++ (shown b ++ post))
  unfolding hex_loop
  hex_loop-step left i b pre post ready old o hb hp hr small =
      let at : i * 2 % 2 ^ 32 ≡ 2 * i = omega arith in
      let tail = shown b ++ post in
      let inside : ltb (length (pre ++ tail)) (2 * i) ≡ false =
        ground (arith, length-append pre tail) in
      let room : ltb i (length (ready ++ (o ∷ old))) ≡ true =
        ground (arith, length-append ready (o ∷ old)) in
      rw
        (
          at,
          inside,
          room,
          drop-append pre tail (2 * i) hp,
          take-append (shown b) post 2 (length-shown b hb),
          read_hex-shown b hb,
          set-append ready old o b i hr,
        )
        refl

  digits-cons : (b : ℕ) (todo : List ℕ) → digits (b ∷ todo) ≡ shown b ++ digits todo
  unfolding bytes_to_hex
  digits-cons b todo = refl

  hex_loop-digits :
      (todo : List ℕ) (i : ℕ) (pre ready old : List ℕ)
      → AllBytes todo
      → length pre ≡ 2 * i
      → length ready ≡ i
      → length todo ≤ length old
      → 2 * (i + length todo) < 2 ^ 32
      → hex_loop io (length todo) i (ready ++ old) (pre ++ digits todo)
        ≡ filled (ready ++ (todo ++ drop (length todo) old))
  hex_loop-digits [] i pre ready old all hp hr fits small = unfold hex_loop in refl
  hex_loop-digits (b ∷ todo) i pre ready [] all hp hr fits small = absurd (omega arith)
  hex_loop-digits (b ∷ todo) i pre ready (o ∷ old) (hb, all) hp hr fits small =
      let show = shown b in
      let step =
        hex_loop-step (length todo) i b pre (digits todo) ready old o hb hp hr (omega arith) in
      let rest =
        hex_loop-digits todo (i + 1) (pre ++ show) (ready ++ (b ∷ [])) old all
          (omega (arith, length-append pre show, length-shown b hb))
          (omega (arith, length-append ready (b ∷ []))) (omega arith) (omega arith) in
      rw (digits-cons b todo) (
        step
        ∙ rw
            (
              append_assoc pre show (digits todo),
              append_assoc ready (b ∷ []) old,
              append_assoc ready (b ∷ []) (todo ++ drop (length todo) old),
            )
            at rest)

length-take : (n : ℕ) (bytes : List ℕ) → n ≤ length bytes → length (take n bytes) ≡ n
length-take zero bytes h = refl
length-take (suc n) [] h = absurd (omega arith)
length-take (suc n) (b ∷ bytes) h = ap suc (length-take n bytes (omega arith))

take-AllBytes : (n : ℕ) (bytes : List ℕ) → AllBytes bytes → AllBytes (take n bytes)
take-AllBytes zero bytes all = refl
take-AllBytes (suc n) [] all = refl
take-AllBytes (suc n) (b ∷ bytes) (hb, all) = (hb, take-AllBytes n bytes all)

module _ (io : Streams) (hex : IsHexadecimal io) where
  bytes_to_hex-take :
      (n : ℕ) (bytes : List ℕ)
      → n ≤ length bytes
      → bytes_to_hex io bytes n ≡ bytes_to_hex io (take n bytes) n
  unfolding bytes_to_hex
  bytes_to_hex-take zero bytes h = refl
  bytes_to_hex-take (suc n) [] h = absurd (omega arith)
  bytes_to_hex-take (suc n) (b ∷ bytes) h =
      ap (λ (text : List ℕ). set_width 48 2 (io.show_hex b) ++ text)
        (bytes_to_hex-take n bytes (omega arith))

  -- With streams that write a byte as two hexadecimal digits and read them back, the digits of at most
  -- 2^31 - 1 bytes of an array are read into the start of another that is long enough, and the rest of that
  -- array stays.
  pub hex_to_bytes-bytes_to_hex :
      (n : ℕ) (bytes old : List ℕ)
      → AllBytes bytes
      → n ≤ length bytes
      → n ≤ length old
      → n < 2 ^ 31
      → hex_to_bytes io old n (bytes_to_hex io bytes n) ≡ filled (take n bytes ++ drop n old)
  unfolding hex_to_bytes
  hex_to_bytes-bytes_to_hex n bytes old all h ho small =
      let part = take n bytes in
      let len = length-take n bytes h in
      rw (bytes_to_hex-take n bytes h) (
        rw len at (
          hex_loop-digits io hex part 0 [] [] old (take-AllBytes n bytes all) refl refl
            (omega arith) (omega arith)))

-- ===== src/App/Str/Tests.antt =====
-- Runs of the string functions over a small memory, and their theorems there.
use keystone_sdk.Base.{
  ℕ, zero, suc, ◌+◌, ◌<◌, ◌≡◌, ◌≢◌, ◌↔◌, ◌⊎◌, inr, refl, arith, List, [], ◌∷◌, some, int_minus_one,
}
use keystone_sdk.Memory.{Mem, IsBytes, copy}
use keystone_sdk.App.Str.{
  tolower, memcpy, memset, memcmp, memmove, strlen, strcpy, strcmp, strcmp_lengths, strncpy,
  byte_difference,
}
use keystone_sdk.App.Str.Copy.{memcpy-copy, memmove-copy}
use keystone_sdk.App.Str.Fill.{fill, memset-fill}
use keystone_sdk.App.Str.Compare.{SameBytes, memcmp_iff, strcmp_iff}
use keystone_sdk.App.Str.Text.{IsText, padded, strlen-IsText, strcpy-copy, strncpy-padded}

abbrev at_list : List ℕ → ℕ → ℕ
at_list [] i = 0
at_list (x ∷ xs) zero = x
at_list (x ∷ xs) (suc i) = at_list xs i

-- The texts "key" at 0, "kex" at 4 and "key" at 8.
abbrev texts : Mem
texts = at_list (107 ∷ 101 ∷ 121 ∷ 0 ∷ 107 ∷ 101 ∷ 120 ∷ 0 ∷ 107 ∷ 101 ∷ 121 ∷ 0 ∷ [])

texts-IsBytes : IsBytes texts
texts-IsBytes x = grind arith

key-inner : (i : ℕ) → i < 3 → texts (0 + i) ≢ 0
key-inner zero h e = omega arith
key-inner (suc zero) h e = omega arith
key-inner (suc (suc zero)) h e = omega arith
key-inner (suc (suc (suc i))) h e = omega arith

kex-inner : (i : ℕ) → i < 3 → texts (4 + i) ≢ 0
kex-inner zero h e = omega arith
kex-inner (suc zero) h e = omega arith
kex-inner (suc (suc zero)) h e = omega arith
kex-inner (suc (suc (suc i))) h e = omega arith

key-IsText : IsText texts 0 3
key-IsText = (refl, key-inner)

kex-IsText : IsText texts 4 3
kex-IsText = (refl, kex-inner)

strlen-IsText_example : strlen 4 0 texts ≡ some 3
strlen-IsText_example = strlen-IsText 4 0 3 texts key-IsText (omega arith)

strcpy-copy_example : strcpy 20 4 5 texts ≡ some (copy texts 20 4 4)
strcpy-copy_example =
    strcpy-copy 5 20 4 3 texts texts-IsBytes kex-IsText (inr (omega arith)) (omega arith)
      (omega arith)

strncpy-padded_example : strncpy 6 20 4 texts ≡ padded texts 20 4 3 6
strncpy-padded_example = strncpy-padded 6 20 4 3 texts texts-IsBytes kex-IsText (inr (omega arith))

strcmp_iff_example :
    (r : ℕ) × (strcmp 4 0 4 texts ≡ some r)
    × ((r ≡ 0) ↔ (◌≡◌ {A = ℕ} 3 3 × SameBytes texts 0 4 3))
    × ((r ≡ 0) ⊎ (r ≡ 1))
strcmp_iff_example =
    strcmp_iff 4 0 4 3 3 texts key-IsText kex-IsText (omega arith) (omega arith) (omega arith)

-- "key" is not "kex".
strcmp_differs : strcmp 4 0 4 texts ≡ some 1
unfolding strcmp strlen strcmp_lengths
strcmp_differs = refl

memcmp_iff_example :
    ((memcmp 0 4 4 texts ≡ 0) ↔ SameBytes texts 0 4 4)
    × ((i : ℕ)
        → i < 4
        → SameBytes texts 0 4 i
        → texts (0 + i) ≢ texts (4 + i)
        → memcmp 0 4 4 texts ≡ byte_difference (texts (0 + i)) (texts (4 + i)))
memcmp_iff_example = memcmp_iff 0 4 4 texts texts-IsBytes

memcmp_differs : memcmp 4 0 4 texts ≡ int_minus_one
unfolding memcmp
memcmp_differs = refl

-- The ranges overlap.
memmove-copy_example : memmove 2 0 8 texts ≡ copy texts 2 0 8
memmove-copy_example = memmove-copy 2 0 8 texts texts-IsBytes

memcpy-copy_example : memcpy (11 + 1) 16 0 11 texts ≡ some (copy texts 16 0 11)
memcpy-copy_example =
    memcpy-copy 16 0 11 texts texts-IsBytes (inr (omega arith)) (omega arith) (omega arith)

memset-fill_example : memset (16 + 1) 8 0x1ff 16 texts ≡ some (fill texts 8 16 0x1ff)
memset-fill_example = memset-fill 8 0x1ff 16 texts (omega arith)

lower_cases : (tolower 65 ≡ 97) × (tolower 90 ≡ 122) × (tolower 91 ≡ 91) × (tolower 64 ≡ 64)
unfolding tolower
lower_cases = (refl, refl, refl, refl)

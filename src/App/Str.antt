-- ===== src/App/Str.antt =====
-- lib/app/src/string.c over the byte memory. A pointer is the address it holds; a `while` loop runs
-- on fuel, with `none` when that is used up, and the functions that need none recur on what is left.
pub mod Compare
pub mod Copy
pub mod Fill
pub mod Text
mod Tests
use keystone_sdk.Base.{
  ℕ, zero, suc, ◌+◌, ◌-◌, ◌*◌, ◌%◌, ◌^◌, ◌&&◌, bit_and, bit_or, Bool, Option, none, some, ltb, leb,
  ◌==◌, true, false, not, if◌then◌else◌, add64, sub64, word_mod, sign_extend32,
}
use keystone_sdk.Memory.{Mem, store8, load64, store64}

-- `(x & (sizeof(uintptr_t) - 1)) == 0`
abbrev pub aligned : ℕ → Bool
aligned x = bit_and x 7 == 0

module _ (dest source : ℕ) where
  -- The loop of `strcpy` at index `i`, an `int`: to count past 2^31 - 1 is undefined, which is `none`
  -- too.
  unfoldable pub strcpy_loop : (fuel i : ℕ) → Mem → Option Mem
  strcpy_loop zero i m = none
  strcpy_loop (suc fuel) i m =
      let m' = store8 m (dest + i) (m (source + i)) in
      let rest = strcpy_loop fuel (i + 1) m' in
      if m' (dest + i) == 0 then some m' else if ltb (i + 1) (2 ^ 31) then rest else none

  unfoldable pub strcpy : (fuel : ℕ) → Mem → Option Mem
  unfolding strcpy_loop
  strcpy fuel m = strcpy_loop fuel 0 m

-- On the 32 bits of the argument: a negative `int` is above 90 as a pattern, and is kept.
unfoldable pub tolower : ℕ → ℕ
tolower c = if leb c 90 && leb 65 c then c + 32 else c

-- `while (d < end) *d++ = *s++;`
unfoldable pub copy_bytes : (fuel d s end : ℕ) → Mem → Option Mem
copy_bytes zero d s end m = none
copy_bytes (suc fuel) d s end m =
    let rest = copy_bytes fuel (d + 1) (s + 1) end (store8 m d (m s)) in
    if ltb d end then rest else some m

-- The loop over words, up to `limit`, and the loop over bytes that follows it.
unfoldable pub copy_words : (fuel d s limit end : ℕ) → Mem → Option Mem
unfolding copy_bytes
copy_words zero d s limit end m = none
copy_words (suc fuel) d s limit end m =
    let rest = copy_words fuel (d + 8) (s + 8) limit end (store64 m d (load64 m s)) in
    if ltb d limit then rest else copy_bytes (suc fuel) d s end m

unfoldable pub memcpy : (fuel dest src len : ℕ) → Mem → Option Mem
unfolding copy_bytes copy_words
memcpy fuel dest src len m =
    let end = add64 dest len in
    if aligned (bit_or dest src)
    then copy_words fuel dest src (sub64 end 7) end m
    else copy_bytes fuel dest src end m

-- The loop of `strlen`.
unfoldable pub strlen_loop : (fuel str len : ℕ) → Mem → Option ℕ
strlen_loop zero str len m = none
strlen_loop (suc fuel) str len m =
    let rest = strlen_loop fuel (str + 1) (len + 1) m in if m str == 0 then some len else rest

unfoldable pub strlen : (fuel str : ℕ) → Mem → Option ℕ
unfolding strlen_loop
strlen fuel str m = strlen_loop fuel str 0 m

-- The word that holds the byte eight times.
unfoldable pub spread : ℕ → ℕ
spread byte =
    let w0 = bit_and byte 255 in
    let w1 = bit_or w0 (w0 * 2 ^ 8 % word_mod) in
    let w2 = bit_or w1 (w1 * 2 ^ 16 % word_mod) in
    bit_or w2 (w2 * 2 ^ 16 % word_mod * 2 ^ 16 % word_mod)

unfoldable pub set_bytes : (fuel d end byte : ℕ) → Mem → Option Mem
set_bytes zero d end byte m = none
set_bytes (suc fuel) d end byte m =
    let rest = set_bytes fuel (d + 1) end byte (store8 m d byte) in
    if ltb d end then rest else some m

unfoldable pub set_words : (fuel d end word : ℕ) → Mem → Option Mem
set_words zero d end word m = none
set_words (suc fuel) d end word m =
    let rest = set_words fuel (d + 8) end word (store64 m d word) in
    if ltb d end then rest else some m

unfoldable pub memset : (fuel dest byte len : ℕ) → Mem → Option Mem
unfolding spread set_bytes set_words
memset fuel dest byte len m =
    if aligned (bit_or dest len)
    then set_words fuel dest (add64 dest len) (spread byte) m
    else set_bytes fuel dest (add64 dest len) byte m

-- `u1 - u2` as an `int`
abbrev pub byte_difference : ℕ → ℕ → ℕ
byte_difference u1 u2 = if ltb u1 u2 then u1 + 2 ^ 32 - u2 else u1 - u2

unfoldable pub memcmp : (s1 s2 n : ℕ) → Mem → ℕ
memcmp s1 s2 zero m = 0
memcmp s1 s2 (suc n) m =
    let rest = memcmp (s1 + 1) (s2 + 1) n m in
    if not (m s1 == m s2) then byte_difference (m s1) (m s2) else rest

-- `while (count--) *tmp++ = *s++;`
unfoldable pub move_up : (count tmp s : ℕ) → Mem → Mem
move_up zero tmp s m = m
move_up (suc count) tmp s m = move_up count (tmp + 1) (s + 1) (store8 m tmp (m s))

-- `while (count--) *--tmp = *--s;`
unfoldable pub move_down : (count tmp s : ℕ) → Mem → Mem
move_down zero tmp s m = m
move_down (suc count) tmp s m = move_down count (tmp - 1) (s - 1) (store8 m (tmp - 1) (m (s - 1)))

unfoldable pub memmove : (dest src count : ℕ) → Mem → Mem
unfolding move_up move_down
memmove dest src count m =
    if leb dest src
    then move_up count dest src m
    else move_down count (dest + count) (src + count) m

-- The loop of `strcmp`: 1 at the first difference.
unfoldable pub strcmp_loop : (left s1 s2 : ℕ) → Mem → ℕ
strcmp_loop zero s1 s2 m = 0
strcmp_loop (suc left) s1 s2 m =
    let rest = strcmp_loop left (s1 + 1) (s2 + 1) m in if not (m s1 == m s2) then 1 else rest

-- The comparison with the lengths at hand: the first is an `int`, which is widened to compare it
-- with the second, and which a loop over a negative length does not enter.
unfoldable pub strcmp_lengths : (n1 n2 s1 s2 : ℕ) → Mem → ℕ
unfolding strcmp_loop
strcmp_lengths n1 n2 s1 s2 m =
    let len = n1 % 2 ^ 32 in
    if not (sign_extend32 len == n2)
    then 1
    else strcmp_loop (if ltb len (2 ^ 31) then len else 0) s1 s2 m

unfoldable pub strcmp : (fuel s1 s2 : ℕ) → Mem → Option ℕ
strcmp fuel s1 s2 m = elim (strlen fuel s1 m) [
  | none ↦ none
  | some n1 ↦ elim (strlen fuel s2 m) [
    | none ↦ none
    | some n2 ↦ some (strcmp_lengths n1 n2 s1 s2 m)
  ]
]

-- The second loop of `strncpy`, with `left` rounds to go.
unfoldable pub pad_zeros : (left d : ℕ) → Mem → Mem
pad_zeros zero d m = m
pad_zeros (suc left) d m = pad_zeros left (d + 1) (store8 m d 0)

-- The first loop, and the second where the first ends.
unfoldable pub strncpy : (left d s : ℕ) → Mem → Mem
unfolding pad_zeros
strncpy zero d s m = m
strncpy (suc left) d s m =
    let rest = strncpy left (d + 1) (s + 1) (store8 m d (m s)) in
    if not (m s == 0) then rest else pad_zeros (suc left) d m

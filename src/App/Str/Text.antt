-- ===== src/App/Str/Text.antt =====
-- strlen, strcpy and strncpy on texts that end in a null.
use keystone_sdk.Base.{
  ℕ, zero, suc, ◌+◌, ◌-◌, ◌^◌, ◌≤◌, ◌<◌, ◌≡◌, ◌≢◌, ◌⊎◌, inl, inr, arith, fun_ext, sym, ◌∙◌, ap,
  order-cases, ◌&&◌, some, ltb, leb, if◌then◌else◌,
}
use keystone_sdk.Memory.{Mem, IsBytes, store8, copy}
use keystone_sdk.Memory.Laws.{store8-IsBytes, store8_self, store8_ne}
use keystone_sdk.App.Str.{strlen_loop, strlen, strcpy_loop, strcpy, pad_zeros, strncpy}
use keystone_sdk.App.Str.Copy.{Forward, copy-zero, copy-first}

-- `n` characters and then a null lie at `s`.
abbrev pub IsText : Mem → (s n : ℕ) → Type 0
IsText m s n = (m (s + n) ≡ 0) × ((i : ℕ) → i < n → m (s + i) ≢ 0)

module _ (m : Mem) (s : ℕ) where
  -- The text behind the first character.
  IsText-tail : (n : ℕ) → IsText m s (suc n) → IsText m (s + 1) n
  IsText-tail n (end, inner) =
      (ap m (omega arith) ∙ end, λ i h z. inner (suc i) (omega arith) (ap m (omega arith) ∙ z))

  IsText-nil : IsText m s 0 → m s ≡ 0
  IsText-nil (end, inner) = ap m (omega arith) ∙ end

  IsText-head : (n : ℕ) → IsText m s (suc n) → m s ≢ 0
  IsText-head n (end, inner) z = inner 0 (omega arith) (ap m (omega arith) ∙ z)

-- A text stays where a byte outside it is written.
IsText-store8 :
    (m : Mem) (s n a v : ℕ) → (a < s) ⊎ (s + n < a) → IsText m s n → IsText (store8 m a v) s n
IsText-store8 m s n a v out (end, inner) = (
  store8_ne m a v (s + n) (λ e. ground arith) ∙ end,
  λ i h z. inner i h (sym (store8_ne m a v (s + i) (λ e. ground arith)) ∙ z),
)

strlen_loop-IsText :
    (fuel s len n : ℕ) (m : Mem)
    → IsText m s n
    → n < fuel
    → strlen_loop fuel s len m ≡ some (len + n)
unfolding strlen_loop
strlen_loop-IsText zero s len n m t h = absurd (omega arith)
strlen_loop-IsText (suc fuel) s len zero m t h = ground (arith, IsText-nil m s t)
strlen_loop-IsText (suc fuel) s len (suc n) m t h = ground (
  arith,
  IsText-head m s n t,
  strlen_loop-IsText fuel (s + 1) (len + 1) n m (IsText-tail m s n t),
)

-- `strlen` of a text with `n` characters before its null ends within `n + 1` rounds and returns `n`.
pub strlen-IsText : (fuel s n : ℕ) (m : Mem) → IsText m s n → n < fuel → strlen fuel s m ≡ some n
unfolding strlen
strlen-IsText fuel s n m t h = strlen_loop-IsText fuel s 0 n m t h ∙ ap some (omega arith)

strcpy_loop-copy :
    (dest source fuel i d s n : ℕ) (m : Mem)
    → IsBytes m
    → d ≡ dest + i
    → s ≡ source + i
    → IsText m s n
    → (d ≤ s) ⊎ (s + n < d)
    → n < fuel
    → i + n < 2 ^ 31
    → strcpy_loop dest source fuel i m ≡ some (copy m d s (suc n))
unfolding strcpy_loop
strcpy_loop-copy dest source zero i d s n m b ed es t f h lim = absurd (omega arith)
strcpy_loop-copy dest source (suc fuel) i d s zero m b ed es t f h lim =
    rw (← ed, ← es)
      (ground (
        arith,
        store8_self m d (m s),
        IsText-nil m s t,
        copy-first m d s 0 b (omega arith),
        copy-zero (store8 m d (m s)) (d + 1) (s + 1),
      ))
strcpy_loop-copy dest source (suc fuel) i d s (suc n) m b ed es t f h lim =
    let m1 = store8 m d (m s) in
    let rest =
      strcpy_loop-copy dest source fuel (i + 1) (d + 1) (s + 1) n m1 (store8-IsBytes m d (m s) b)
        (omega arith) (omega arith)
        (IsText-store8 m (s + 1) n d (m s) (omega arith) (IsText-tail m s n t)) (omega arith)
        (omega arith) (omega arith) in
    rw (← ed, ← es)
      (ground (
        arith,
        store8_self m d (m s),
        IsText-head m s n t,
        b s,
        rest,
        copy-first m d s (suc n) b (omega arith),
      ))

-- For a text of `n` characters, fewer than 2^31, and a destination that does not overlap it from below,
-- `strcpy` ends within `n + 1` rounds, its `int` index does not overflow, and it copies the `n`
-- characters and the null, and nothing else.
pub strcpy-copy :
    (fuel dest source n : ℕ) (m : Mem)
    → IsBytes m
    → IsText m source n
    → Forward dest source (suc n)
    → n < fuel
    → n < 2 ^ 31
    → strcpy dest source fuel m ≡ some (copy m dest source (suc n))
unfolding strcpy
strcpy-copy fuel dest source n m b t f h lim =
    strcpy_loop-copy dest source fuel 0 dest source n m b (omega arith) (omega arith) t
      (omega arith) h (omega arith)

-- Memory after `n` bytes at `d` were filled from a text of `k` characters at `s`: its characters
-- as far as they go, and then nulls.
unfoldable pub padded : Mem → (d s k n : ℕ) → Mem
padded m d s k n x =
    if leb d x && ltb x (d + n) then (if ltb (x - d) k then m (s + (x - d)) else 0) else m x

pad_zeros-padded : (n d s : ℕ) (m : Mem) → pad_zeros n d m ≡ padded m d s 0 n
unfolding pad_zeros
pad_zeros-padded zero d s m = fun_ext λ x. unfold padded in ground arith
pad_zeros-padded (suc n) d s m =
    pad_zeros-padded n (d + 1) s (store8 m d 0) ∙ fun_ext λ x. unfold padded store8 in ground arith

padded-first :
    (m : Mem) (d s k n : ℕ)
    → IsBytes m
    → (d + suc n ≤ s) ⊎ (s + suc k < d)
    → padded (store8 m d (m s)) (d + 1) (s + 1) k n ≡ padded m d s (suc k) (suc n)
unfolding padded store8
padded-first m d s k n b apart = fun_ext λ x. elim (order-cases x d) [
  | inl below ↦ ground arith
  | inr (inl at) ↦ let e : s + (x - d) ≡ s = omega arith in ground (arith, ap m e, b s)
  | inr (inr above) ↦
      let e : s + 1 + (x - (d + 1)) ≡ s + (x - d) = omega arith in ground (arith, ap m e)
]

-- For a destination of `n` bytes apart from the text and its null, `strncpy` writes exactly those
-- `n` bytes: the text's characters as far as they go, then nulls. A text of `n` characters or more
-- gets no null.
pub strncpy-padded :
    (n d s k : ℕ) (m : Mem)
    → IsBytes m
    → IsText m s k
    → (d + n ≤ s) ⊎ (s + k < d)
    → strncpy n d s m ≡ padded m d s k n
unfolding strncpy
strncpy-padded zero d s k m b t apart = fun_ext λ x. unfold padded in ground arith
strncpy-padded (suc n) d s zero m b t apart =
    let null = IsText-nil m s t in rw (null) (pad_zeros-padded (suc n) d s m)
strncpy-padded (suc n) d s (suc k) m b t apart = ground (
  arith,
  IsText-head m s k t,
  strncpy-padded n (d + 1) (s + 1) k (store8 m d (m s)) (store8-IsBytes m d (m s) b)
      (IsText-store8 m (s + 1) k d (m s) (omega arith) (IsText-tail m s k t)) (omega arith),
  padded-first m d s k n b apart,
)

-- ===== src/Memory/Laws.antt =====
-- Laws of loads and stores: a load reads back the store at its address, and no other range changes.
use keystone_sdk.Base.{
  ℕ, zero, suc, ◌+◌, ◌*◌, ◌/◌, ◌%◌, ◌-◌, ◌≤◌, ◌<◌, ◌≡◌, ◌≢◌, ◌⊎◌, inl, inr, ap, ◌∙◌, ◌&&◌, arith,
  IsWord, Bool-cases, ltb, leb, if◌then◌else◌,
}
use keystone_sdk.Memory.{Mem, IsBytes, store8, load64, store64, copy}

pub store8_self : (m : Mem) (a v : ℕ) → store8 m a v a ≡ v % 256
unfolding store8
store8_self m a v = ground arith

pub store8_ne : (m : Mem) (a v x : ℕ) → x ≢ a → store8 m a v x ≡ m x
unfolding store8
store8_ne m a v x h = ground arith

-- A store of a word leaves the bytes outside its eight alone.
pub store64-outside : (m : Mem) (a v x : ℕ) → (x < a) ⊎ (a + 8 ≤ x) → store64 m a v x ≡ m x
unfolding store64
store64-outside m a v x h = ground arith

pub store64-IsBytes : (m : Mem) (a v : ℕ) → IsBytes m → IsBytes (store64 m a v)
unfolding store64
store64-IsBytes m a v h x = ground (arith, h x)

-- The eight bytes that a store of a word writes.
pub store64-bytes :
    (m : Mem) (a v : ℕ)
    → (store64 m a v a ≡ v % 256)
      × (store64 m a v (a + 1) ≡ v / 256 % 256)
      × (store64 m a v (a + 2) ≡ v / 65536 % 256)
      × (store64 m a v (a + 3) ≡ v / 16777216 % 256)
      × (store64 m a v (a + 4) ≡ v / 4294967296 % 256)
      × (store64 m a v (a + 4 + 1) ≡ v / 1099511627776 % 256)
      × (store64 m a v (a + 4 + 2) ≡ v / 281474976710656 % 256)
      × (store64 m a v (a + 4 + 3) ≡ v / 72057594037927936 % 256)
unfolding store64
store64-bytes m a v = (
  ground arith,
  ground arith,
  ground arith,
  ground arith,
  ground arith,
  ground arith,
  ground arith,
  ground arith,
)

digits64 :
    (v : ℕ)
    → IsWord v
    → v % 256
        + 256 * (v / 256 % 256 + 256 * (v / 65536 % 256 + 256 * (v / 16777216 % 256)))
        + 4294967296
          * (v / 4294967296 % 256
              + 256
                * (v / 1099511627776 % 256
                    + 256 * (v / 281474976710656 % 256 + 256 * (v / 72057594037927936 % 256))))
      ≡ v
digits64 v h = omega arith

pub load64-store64_self : (m : Mem) (a v : ℕ) → IsWord v → load64 (store64 m a v) a ≡ v
unfolding load64
load64-store64_self m a v h =
    let b = store64-bytes m a v in rw (b.0, b.1, b.2, b.3, b.4, b.5, b.6, b.7) (digits64 v h)

pub load64-lt : (m : Mem) (a : ℕ) → IsBytes m → IsWord (load64 m a)
unfolding load64
load64-lt m a h = omega (
  arith,
  h a,
  h (a + 1),
  h (a + 2),
  h (a + 3),
  h (a + 4),
  h (a + 4 + 1),
  h (a + 4 + 2),
  h (a + 4 + 3),
)

-- A load from a range that two memories share.
pub load64-ext :
    (m n : Mem) (a : ℕ) → ((x : ℕ) → a ≤ x → x < a + 8 → m x ≡ n x) → load64 m a ≡ load64 n a
unfolding load64
load64-ext m n a h = ground (
  arith,
  h a,
  h (a + 1),
  h (a + 2),
  h (a + 3),
  h (a + 4),
  h (a + 4 + 1),
  h (a + 4 + 2),
  h (a + 4 + 3),
)

pub load64-store64_ne :
    (m : Mem) (a b v : ℕ) → (b + 8 ≤ a) ⊎ (a + 8 ≤ b) → load64 (store64 m a v) b ≡ load64 m b
load64-store64_ne m a b v h = load64-ext _ m b λ x p q. store64-outside m a v x (ground arith)

pub copy-inside :
    (m : Mem) (dest src len i : ℕ) → i < len → copy m dest src len (dest + i) ≡ m (src + i)
unfolding copy
copy-inside m dest src len i h =
    let e : src + (dest + i - dest) ≡ src + i = omega arith in ground (arith, ap m e)

pub copy-outside :
    (m : Mem) (dest src len x : ℕ) → (x < dest) ⊎ (dest + len ≤ x) → copy m dest src len x ≡ m x
unfolding copy
copy-outside m dest src len x h = ground arith

pub store8-IsBytes : (m : Mem) (a v : ℕ) → IsBytes m → IsBytes (store8 m a v)
unfolding store8
store8-IsBytes m a v h x = ground (arith, h x)

load64-digits :
    (n : Mem) (b : ℕ)
    → IsBytes n
    → (load64 n b % 256 ≡ n b)
      × (load64 n b / 256 % 256 ≡ n (b + 1))
      × (load64 n b / 65536 % 256 ≡ n (b + 2))
      × (load64 n b / 16777216 % 256 ≡ n (b + 3))
      × (load64 n b / 4294967296 % 256 ≡ n (b + 4))
      × (load64 n b / 1099511627776 % 256 ≡ n (b + 4 + 1))
      × (load64 n b / 281474976710656 % 256 ≡ n (b + 4 + 2))
      × (load64 n b / 72057594037927936 % 256 ≡ n (b + 4 + 3))
unfolding load64
load64-digits n b h = omega (
  arith,
  h b,
  h (b + 1),
  h (b + 2),
  h (b + 3),
  h (b + 4),
  h (b + 4 + 1),
  h (b + 4 + 2),
  h (b + 4 + 3),
)

store64-load64_at :
    (m n : Mem) (a b i : ℕ) → IsBytes n → i < 8 → store64 m a (load64 n b) (a + i) ≡ n (b + i)
store64-load64_at m n a b zero h lt =
    let e : a + 0 ≡ a = omega arith in
    let e' : b + 0 ≡ b = omega arith in
    rw (e, e') ((store64-bytes m a (load64 n b)).0 ∙ (load64-digits n b h).0)
store64-load64_at m n a b (suc zero) h lt =
    (store64-bytes m a (load64 n b)).1 ∙ (load64-digits n b h).1
store64-load64_at m n a b (suc (suc zero)) h lt =
    (store64-bytes m a (load64 n b)).2 ∙ (load64-digits n b h).2
store64-load64_at m n a b (suc (suc (suc zero))) h lt =
    (store64-bytes m a (load64 n b)).3 ∙ (load64-digits n b h).3
store64-load64_at m n a b (suc (suc (suc (suc zero)))) h lt =
    (store64-bytes m a (load64 n b)).4 ∙ (load64-digits n b h).4
store64-load64_at m n a b (suc (suc (suc (suc (suc zero))))) h lt =
    let e : a + 5 ≡ a + 4 + 1 = omega arith in
    let e' : b + 5 ≡ b + 4 + 1 = omega arith in
    rw (e, e') ((store64-bytes m a (load64 n b)).5 ∙ (load64-digits n b h).5)
store64-load64_at m n a b (suc (suc (suc (suc (suc (suc zero)))))) h lt =
    let e : a + 6 ≡ a + 4 + 2 = omega arith in
    let e' : b + 6 ≡ b + 4 + 2 = omega arith in
    rw (e, e') ((store64-bytes m a (load64 n b)).6 ∙ (load64-digits n b h).6)
store64-load64_at m n a b (suc (suc (suc (suc (suc (suc (suc zero))))))) h lt =
    let e : a + 7 ≡ a + 4 + 3 = omega arith in
    let e' : b + 7 ≡ b + 4 + 3 = omega arith in
    rw (e, e') ((store64-bytes m a (load64 n b)).7 ∙ (load64-digits n b h).7)
store64-load64_at m n a b (suc (suc (suc (suc (suc (suc (suc (suc k)))))))) h lt =
    absurd (omega arith)

-- A word moved from `b` to `a` is its eight bytes moved.
pub store64-load64 :
    (m n : Mem) (a b x : ℕ)
    → IsBytes n
    → store64 m a (load64 n b) x ≡ (if leb a x && ltb x (a + 8) then n (b + (x - a)) else m x)
store64-load64 m n a b x h = elim (Bool-cases (leb a x && ltb x (a + 8))) [
  | inl inside ↦
      let e : x ≡ a + (x - a) = ground arith in
      rw inside
        (ap (store64 m a (load64 n b)) e ∙ store64-load64_at m n a b (x - a) h (ground arith))
  | inr outside ↦ rw outside (store64-outside m a (load64 n b) x (ground arith))
]

-- A word of zero bytes is 0.
pub load64-zeros : (m : Mem) (a : ℕ) → ((x : ℕ) → a ≤ x → x < a + 8 → m x ≡ 0) → load64 m a ≡ 0
unfolding load64
load64-zeros m a h = load64-ext m (λ _. 0) a h

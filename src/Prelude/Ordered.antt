-- ===== src/Prelude/Ordered.antt =====
-- Lists whose numeric keys ascend strictly, as the rows of a table do in the order of their ids.
use mathlib.Core.Path.{◌≡◌, refl, subst}
use mathlib.Core.Logic.{inl, inr}
use mathlib.Core.Bool.{Bool}
use mathlib.Core.Option.{some, some-injective}
use mathlib.Core.List.{List, [], ◌∷◌, ◌++◌}
use Prim.Native.Nat.{ℕ, zero, suc, ◌≤◌, ◌<◌}
use native.Mathlib.Omega.{arith}
use netlog_ai.Prelude.Tests.{ltb, ltb→lt, Bool-cases}
use netlog_ai.Prelude.Lists.{length, get_elem?, take, drop, last?, keep, All}

last?-All {ℓ κ} :
    {A : Type ℓ} (P : A → Type κ) (n : ℕ) (l : List A) (a : A)
    → All P l
    → last? (take n l) ≡ some a
    → P a
last?-All P zero l a h e = absurd (ground arith)
last?-All P (suc n) [] a h e = absurd (ground arith)
last?-All P (suc zero) (x ∷ l) a h e = subst P (some-injective x a e) h.0
last?-All P (suc (suc n)) (x ∷ []) a h e = subst P (some-injective x a e) h.0
last?-All P (suc (suc n)) (x ∷ y ∷ l) a h e = last?-All P (suc n) (y ∷ l) a h.1 e

module _ {ℓ} {A : Type ℓ} (key : A → ℕ) where
  -- the keys ascend strictly, from `lo` up to below `hi`
  abbrev pub Ascends : ℕ → ℕ → List A → Type 0
  Ascends lo hi [] = lo ≤ hi
  Ascends lo hi (a ∷ l) = (lo ≤ key a) × Ascends (suc (key a)) hi l

  -- the elements with a key above `b`
  abbrev pub above : ℕ → List A → List A
  above b = keep (λ a. ltb b (key a))

  pub Ascends-lower : (lo' lo hi : ℕ) (l : List A) → lo' ≤ lo → Ascends lo hi l → Ascends lo' hi l
  Ascends-lower lo' lo hi [] h b = omega arith
  Ascends-lower lo' lo hi (a ∷ l) h b = (omega arith, b.1)

  pub Ascends-append :
      (lo mid hi : ℕ) (l m : List A) → Ascends lo mid l → Ascends mid hi m → Ascends lo hi (l ++ m)
  Ascends-append lo mid hi [] m h k = Ascends-lower lo mid hi m h k
  Ascends-append lo mid hi (a ∷ l) m h k = (h.0, Ascends-append (suc (key a)) mid hi l m h.1 k)

  pub Ascends-keep :
      (p : A → Bool) (lo hi : ℕ) (l : List A) → Ascends lo hi l → Ascends lo hi (keep p l)
  Ascends-keep p lo hi [] b = b
  Ascends-keep p lo hi (a ∷ l) b = elim (Bool-cases (p a)) [
    | inl e ↦ rw e (b.0, Ascends-keep p (suc (key a)) hi l b.1)
    | inr e ↦ rw e (
        Ascends-lower lo (suc (key a)) hi (keep p l) (omega arith)
          (Ascends-keep p (suc (key a)) hi l b.1))
  ]

  pub above_all : (b lo hi : ℕ) (l : List A) → b < lo → Ascends lo hi l → above b l ≡ l
  above_all b lo hi [] h k = refl
  above_all b lo hi (a ∷ l) h k = ground (arith, above_all b (suc (key a)) hi l)

  get_elem?-Ascends :
      (lo hi n : ℕ) (l : List A) (a : A) → Ascends lo hi l → get_elem? l n ≡ some a → lo ≤ key a
  get_elem?-Ascends lo hi n [] a b h = absurd (ground arith)
  get_elem?-Ascends lo hi zero (x ∷ xs) a b h = ground arith
  get_elem?-Ascends lo hi (suc n) (x ∷ xs) a b h =
      omega (arith, get_elem?-Ascends (suc (key x)) hi n xs a b.1 h)

  -- the elements after the n-th one, by key and by place
  pub above-get_elem? :
      (lo hi n : ℕ) (l : List A) (a : A)
      → Ascends lo hi l
      → get_elem? l n ≡ some a
      → above (key a) l ≡ drop (suc n) l
  above-get_elem? lo hi n [] a b h = absurd (ground arith)
  above-get_elem? lo hi zero (x ∷ xs) a b h = ground (arith, above_all (key a) (suc (key x)) hi xs)
  above-get_elem? lo hi (suc n) (x ∷ xs) a b h = ground (
    arith,
    get_elem?-Ascends (suc (key x)) hi n xs a b.1 h,
    above-get_elem? (suc (key x)) hi n xs a b.1 h,
  )

  last?-Ascends :
      (lo hi n : ℕ) (l : List A) (a : A) → Ascends lo hi l → last? (take n l) ≡ some a → lo ≤ key a
  last?-Ascends lo hi zero l a b h = absurd (ground arith)
  last?-Ascends lo hi (suc n) [] a b h = absurd (ground arith)
  last?-Ascends lo hi (suc zero) (x ∷ xs) a b h = ground arith
  last?-Ascends lo hi (suc (suc n)) (x ∷ []) a b h = ground arith
  last?-Ascends lo hi (suc (suc n)) (x ∷ y ∷ l) a b h =
      omega (arith, last?-Ascends (suc (key x)) hi (suc n) (y ∷ l) a b.1 h)

  -- the first `n`, then those above the last of them, are the whole list
  pub take-above_last :
      (lo hi n : ℕ) (l : List A) (a : A)
      → Ascends lo hi l
      → last? (take n l) ≡ some a
      → take n l ++ above (key a) l ≡ l
  take-above_last lo hi zero l a b h = absurd (ground arith)
  take-above_last lo hi (suc n) [] a b h = absurd (ground arith)
  take-above_last lo hi (suc zero) (x ∷ xs) a b h =
      ground (arith, above_all (key a) (suc (key x)) hi xs)
  take-above_last lo hi (suc (suc n)) (x ∷ []) a b h = ground arith
  take-above_last lo hi (suc (suc n)) (x ∷ y ∷ l) a b h =
      let later : suc (key x) ≤ key a = last?-Ascends (suc (key x)) hi (suc n) (y ∷ l) a b.1 h in
      ground (arith, take-above_last (suc (key x)) hi (suc n) (y ∷ l) a b.1 h)

  -- selecting twice is selecting by the higher bound
  pub above-above : (b c : ℕ) (l : List A) → b ≤ c → above c (above b l) ≡ above c l
  above-above b c [] h = refl
  above-above b c (a ∷ l) h = ground (arith, above-above b c l h)

  above-All : (b : ℕ) (l : List A) → All (λ a. b < key a) (above b l)
  above-All b [] = tt
  above-All b (x ∷ l) = elim (Bool-cases (ltb b (key x))) [
    | inl e ↦ rw e (ltb→lt b (key x) e, above-All b l)
    | inr e ↦ rw e (above-All b l)
  ]

  pub last?-above : (b n : ℕ) (l : List A) (a : A) → last? (take n (above b l)) ≡ some a → b < key a
  last?-above b n l a h = last?-All (λ a. b < key a) n (above b l) a (above-All b l) h

pub get_elem?-some {ℓ} :
    {A : Type ℓ} (l : List A) (n : ℕ) → n < length l → (a : A) × (get_elem? l n ≡ some a)
get_elem?-some [] n h = absurd (omega arith)
get_elem?-some (x ∷ xs) zero h = (x, refl)
get_elem?-some (x ∷ xs) (suc n) h = get_elem?-some xs n (omega arith)

-- ===== src/Prelude/Sort.antt =====
-- Python's stable `sorted`: insertion by a test `before a b`, "a may stand in front of b".
use Prim.Native.Nat.{suc}
use mathlib.Core.Path.{◌≡◌, refl}
use mathlib.Core.Logic.{inl, inr}
use mathlib.Core.Bool.{Bool, true, false}
use mathlib.Core.List.{List, [], ◌∷◌}
use native.Mathlib.Omega.{arith}
use netlog_ai.Prelude.Tests.{if◌then◌else◌, Bool-cases}
use netlog_ai.Prelude.Lists.{length, keep, All}

module _ {ℓ} {A : Type ℓ} (before : A → A → Bool) where
  unfoldable pub insert_sorted : A → List A → List A
  insert_sorted a [] = a ∷ []
  insert_sorted a (b ∷ l) =
      let rest = insert_sorted a l in if before a b then a ∷ b ∷ l else b ∷ rest

  unfoldable pub sort : List A → List A
  unfolding insert_sorted
  sort [] = []
  sort (a ∷ l) = insert_sorted a (sort l)

  -- each element may stand in front of all that follow it
  abbrev pub IsSorted : List A → Type 0
  IsSorted [] = Unit
  IsSorted (a ∷ l) = All (λ b. before a b ≡ true) l × IsSorted l

  count-insert_sorted :
      (p : A → Bool) (a : A) (l : List A)
      → length (keep p (insert_sorted a l)) ≡ length (keep p (a ∷ l))
  unfolding insert_sorted
  count-insert_sorted p a [] = refl
  count-insert_sorted p a (b ∷ l) = ground (arith, count-insert_sorted p a l)

  -- sorting changes no count
  pub count-sort : (p : A → Bool) (l : List A) → length (keep p (sort l)) ≡ length (keep p l)
  unfolding sort
  count-sort p [] = refl
  count-sort p (a ∷ l) = ground (arith, count-insert_sorted p a (sort l), count-sort p l)

  pub length-insert_sorted : (a : A) (l : List A) → length (insert_sorted a l) ≡ suc (length l)
  unfolding insert_sorted
  length-insert_sorted a [] = refl
  length-insert_sorted a (b ∷ l) = ground (arith, length-insert_sorted a l)

  pub length-sort : (l : List A) → length (sort l) ≡ length l
  unfolding sort
  length-sort [] = refl
  length-sort (a ∷ l) = ground (arith, length-insert_sorted a (sort l), length-sort l)

  All-insert_sorted {κ} :
      (P : A → Type κ) (a : A) (l : List A) → P a → All P l → All P (insert_sorted a l)
  unfolding insert_sorted
  All-insert_sorted P a [] h k = (h, tt)
  All-insert_sorted P a (b ∷ l) h k = elim (Bool-cases (before a b)) [
    | inl e ↦ rw e (h, k)
    | inr e ↦ rw e (k.0, All-insert_sorted P a l h k.1)
  ]

  pub All-sort {κ} : (P : A → Type κ) (l : List A) → All P l → All P (sort l)
  unfolding sort
  All-sort P [] h = tt
  All-sort P (a ∷ l) h = All-insert_sorted P a (sort l) h.0 (All-sort P l h.1)

-- Sorting by a test that breaks the ties of `le` sorts by `le`.
module _ {ℓ} {A : Type ℓ} (before le : A → A → Bool)
    (below : (a b : A) → before a b ≡ true → le a b ≡ true)
    (above : (a b : A) → before a b ≡ false → le b a ≡ true)
    (trans : (a b c : A) → le a b ≡ true → le b c ≡ true → le a c ≡ true) where
  All-le :
      (a b : A) (l : List A)
      → le a b ≡ true
      → All (λ c. le b c ≡ true) l
      → All (λ c. le a c ≡ true) l
  All-le a b [] h k = tt
  All-le a b (c ∷ l) h k = (trans a b c h k.0, All-le a b l h k.1)

  insert_sorted-IsSorted :
      (a : A) (l : List A) → IsSorted le l → IsSorted le (insert_sorted before a l)
  unfolding insert_sorted
  insert_sorted-IsSorted a [] h = (tt, tt)
  insert_sorted-IsSorted a (b ∷ l) h = elim (Bool-cases (before a b)) [
    | inl e ↦ rw e ((below a b e, All-le a b l (below a b e) h.0), h)
    | inr e ↦ rw e (
      All-insert_sorted before (λ c. le b c ≡ true) a l (above a b e) h.0,
      insert_sorted-IsSorted a l h.1,
    )
  ]

  pub sort-IsSorted : (l : List A) → IsSorted le (sort before l)
  unfolding sort
  sort-IsSorted [] = tt
  sort-IsSorted (a ∷ l) = insert_sorted-IsSorted a (sort before l) (sort-IsSorted l)

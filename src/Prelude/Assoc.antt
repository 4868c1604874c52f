-- ===== src/Prelude/Assoc.antt =====
-- Python's `dict` with text keys, and a SQL table with a primary key, as an association list in
-- insertion order: writing a key that is there keeps its place, a new key goes to the end.
use Prim.Native.Nat.{suc, ◌+◌, ◌≤◌}
use Prim.Native.String.{String}
use mathlib.Core.Path.{◌≡◌, refl, sym, subst, ◌∙◌}
use mathlib.Core.List.{List, [], ◌∷◌}
use mathlib.Core.Option.{Option, none, some}
use mathlib.Core.Logic.{◌≢◌, inl, inr}
use mathlib.Core.Bool.{false≢true}
use native.Mathlib.Omega.{arith}
use text.Mathlib.Text.{◌==◌ as str_eq}
use text.Mathlib.TextEquality.{eq_iff}
use netlog_ai.Prelude.Tests.{if◌then◌else◌, Bool-cases}
use netlog_ai.Prelude.Lists.{length, All}

abbrev pub Dict {ℓ} : Type ℓ → Type ℓ
Dict V = List (String × V)

module _ {ℓ} {V : Type ℓ} where
  unfoldable pub lookup : String → Dict V → Option V
  lookup k [] = none
  lookup k ((j, v) ∷ m) = if str_eq j k then some v else lookup k m

  unfoldable pub insert : String → V → Dict V → Dict V
  insert k v [] = (k, v) ∷ []
  insert k v ((j, w) ∷ m) = if str_eq j k then (j, v) ∷ m else (j, w) ∷ insert k v m

  unfoldable pub erase : String → Dict V → Dict V
  erase k [] = []
  erase k ((j, v) ∷ m) = let rest = erase k m in if str_eq j k then rest else (j, v) ∷ rest

  pub lookup-insert :
      (k j : String) (v : V) (m : Dict V)
      → lookup j (insert k v m) ≡ (if str_eq k j then some v else lookup j m)
  unfolding lookup insert
  lookup-insert k wanted v [] = refl
  lookup-insert k wanted v ((first, w) ∷ rest) =
      let ih = lookup-insert k wanted v rest in
      ground (arith, ih, eq_iff first wanted, eq_iff first k, eq_iff k wanted)

  pub lookup-insert_self : (k : String) (v : V) (m : Dict V) → lookup k (insert k v m) ≡ some v
  lookup-insert_self k v m = ground (arith, lookup-insert k k v m, eq_iff k k)

  pub lookup-insert_ne :
      (k j : String) (v : V) (m : Dict V) → j ≢ k → lookup j (insert k v m) ≡ lookup j m
  lookup-insert_ne k j v m h = ground (arith, lookup-insert k j v m, eq_iff k j)

  pub lookup-erase :
      (k j : String) (m : Dict V) → lookup j (erase k m) ≡ (if str_eq k j then none else lookup j m)
  unfolding lookup erase
  lookup-erase k j [] = ground arith
  lookup-erase k j ((i, w) ∷ m) =
      ground (arith, eq_iff k j, eq_iff i k, eq_iff i j, lookup-erase k j m)

  -- a key that is new makes a dictionary longer by one
  pub length-insert :
      (k : String) (v : V) (m : Dict V)
      → length (insert k v m) ≡ elim (lookup k m) [ none ↦ suc (length m) | some w ↦ length m ]
  unfolding insert lookup
  length-insert k v [] = refl
  length-insert k v ((i, w) ∷ m) = ground (arith, length-insert k v m)

  pub length-insert-le : (k : String) (v : V) (m : Dict V) → length (insert k v m) ≤ length m + 1
  unfolding insert
  length-insert-le k v [] = omega arith
  length-insert-le k v ((i, w) ∷ m) = ground (arith, length-insert-le k v m)

module _ {ℓ κ} {V : Type ℓ} (P : V → Type κ) where
  pub All-insert :
      (k : String) (v : V) (m : Dict V)
      → P v
      → All (λ row. P row.1) m
      → All (λ row. P row.1) (insert k v m)
  unfolding insert
  All-insert k v [] h hs = (h, tt)
  All-insert k v ((i, w) ∷ m) h hs = elim (Bool-cases (str_eq i k)) [
    | inl e ↦ rw e (h, hs.1)
    | inr e ↦ rw e (hs.0, All-insert k v m h hs.1)
  ]

  pub All-lookup :
      (k : String) (v : V) (m : Dict V) → lookup k m ≡ some v → All (λ row. P row.1) m → P v
  unfolding lookup
  All-lookup k v [] e hs = absurd (ground arith)
  All-lookup k v ((i, w) ∷ m) e hs = elim (Bool-cases (str_eq i k)) [
    | inl same ↦
        let found : some w ≡ some v =
          subst (λ b. (if b then some w else lookup k m) ≡ some v) same e in
        subst P (cc found) hs.0
    | inr other ↦
        All-lookup k v m (subst (λ b. (if b then some w else lookup k m) ≡ some v) other e) hs.1
  ]

pub ruleset dict_laws = (lookup-insert, lookup-insert_self, lookup-erase)

-- To prove something of every key: of one, and of those that differ from it.
pub by_key {ℓ} :
    (P : String → Type ℓ) (k : String) → P k → ((j : String) → j ≢ k → P j) → (j : String) → P j
by_key P k own others j = elim (Bool-cases (str_eq j k)) [
  | inl e ↦ subst P (sym ((eq_iff j k).0 e)) own
  | inr e ↦ others j (λ p. false≢true (sym e ∙ (eq_iff j k).1 p))
]

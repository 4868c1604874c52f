-- ===== src/Prelude/Pairs.antt =====
-- Python's `dict` with pairs of texts as keys.
use Prim.Native.Nat.{suc}
use Prim.Native.String.{String}
use mathlib.Core.Path.{◌≡◌, refl}
use mathlib.Core.Logic.{◌↔◌}
use mathlib.Core.List.{List, [], ◌∷◌}
use mathlib.Core.Option.{Option, none, some}
use mathlib.Core.Bool.{Bool, true, ◌&&◌}
use native.Mathlib.Omega.{arith}
use text.Mathlib.Text.{◌==◌ as str_eq}
use text.Mathlib.TextEquality.{eq_iff}
use netlog_ai.Prelude.Tests.{if◌then◌else◌}
use netlog_ai.Prelude.Lists.{length, keep}

abbrev pub Pair : Type 0
Pair = String × String

abbrev pub PairDict {ℓ} : Type ℓ → Type ℓ
PairDict V = List (Pair × V)

unfoldable pub pair_eq : Pair → Pair → Bool
pair_eq (a, b) (c, d) = str_eq a c && str_eq b d

pub pair_eq_iff : (p q : Pair) → (pair_eq p q ≡ true) ↔ (p ≡ q)
unfolding pair_eq
pair_eq_iff (a, b) (c, d) = ground (arith, eq_iff a c, eq_iff b d)

module _ {ℓ} {V : Type ℓ} where
  unfoldable pub get_pair : Pair → PairDict V → Option V
  get_pair k [] = none
  get_pair k ((j, v) ∷ m) = if pair_eq j k then some v else get_pair k m

  unfoldable pub set_pair : Pair → V → PairDict V → PairDict V
  set_pair k v [] = (k, v) ∷ []
  set_pair k v ((j, w) ∷ m) =
      let rest = set_pair k v m in if pair_eq j k then (j, v) ∷ m else (j, w) ∷ rest

  pub get_pair-set_pair :
      (k j : Pair) (v : V) (m : PairDict V)
      → get_pair j (set_pair k v m) ≡ (if pair_eq k j then some v else get_pair j m)
  unfolding get_pair set_pair
  get_pair-set_pair k j v [] = refl
  get_pair-set_pair k j v ((i, w) ∷ m) =
      ground (arith, get_pair-set_pair k j v m, pair_eq_iff i j, pair_eq_iff i k, pair_eq_iff k j)

  -- of the keys that pass a test there is one more when a new one is set
  pub count-set_pair :
      (p : Pair → Bool) (k : Pair) (v : V) (m : PairDict V)
      → length (keep (λ row. p row.0) (set_pair k v m)) ≡ (
          if p k
          then elim (get_pair k m) [
            | none ↦ suc (length (keep (λ row. p row.0) m))
            | some w ↦ length (keep (λ row. p row.0) m)
          ]
          else length (keep (λ row. p row.0) m))
  unfolding get_pair set_pair
  count-set_pair p k v [] = ground arith
  count-set_pair p k v ((i, w) ∷ m) = ground (arith, count-set_pair p k v m, pair_eq_iff i k)

-- ===== src/Triage/Tick/Commit.antt =====
-- `_commit`: what is read next from a source once its read position is written.
use netlog_ai.Prelude.{
  ℕ, String, ◌≡◌, refl, none, some, [], ◌∷◌, arith, Dict, lookup, insert, lookup-insert, eq_iff,
}
use netlog_ai.Triage.Tick.{Position, Saved, cursor_of, write_all, commit}

-- no source has two read positions
abbrev pub Distinct : Dict ℕ → Type 0
Distinct [] = Unit
Distinct ((k, n) ∷ l) = (lookup k l ≡ none) × Distinct l

pub insert-Distinct : (k : String) (n : ℕ) (l : Dict ℕ) → Distinct l → Distinct (insert k n l)
unfolding insert
insert-Distinct k n [] h = (unfold lookup in refl, tt)
insert-Distinct k n ((j, m) ∷ l) h =
    let ih = insert-Distinct k n l h.1 in
    ground (arith, ih, h.0, h.1, lookup-insert k j n l, eq_iff j k, eq_iff k j)

lookup-write_all :
    (src : String) (l saved : Dict ℕ)
    → Distinct l
    → lookup src (write_all l saved)
      ≡ elim (lookup src l) [ none ↦ lookup src saved | some n ↦ some n ]
unfolding write_all lookup
lookup-write_all src [] saved h = refl
lookup-write_all src ((k, n) ∷ l) saved h =
    let ih = lookup-write_all src l (insert k n saved) h.1 in
    ground (arith, ih, h.0, lookup-insert k src n saved, eq_iff k src)

pub cursor_of-commit :
    (src : String) (pos : Position) (saved : Saved)
    → Distinct pos.cursors
    → cursor_of src (commit pos saved).0 (commit pos saved).1 ≡ cursor_of src pos saved
unfolding commit cursor_of
cursor_of-commit src pos saved h =
    let written = lookup-write_all src pos.cursors saved.cursors h in
    unfold lookup in ground (arith, written)

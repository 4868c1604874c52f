-- ===== src/Sources/Failures.antt =====
-- About a replacement in `SourceManager.add` that fails.
use netlog_ai.Prelude.{
  ℕ, ◌≡◌, refl, ap, ◌∙◌, true, false, none, some, ◌∷◌, arith, ◌==◌, ==_iff, any, lookup,
}
use netlog_ai.Sources.{Configs, Manager, is_same, close_then, replace, add}

-- When a source's configuration changes and the new source cannot be made, the call raises, the source
-- that was closed for it stays in its place, and a call with the old configuration answers the closed source.
pub add-keeps_closed :
    (k : Configs) (m : Manager k) (old new : k.Config) (src : ℕ)
    → k.id new ≡ k.id old
    → lookup (k.id old) m.sources ≡ some src
    → lookup (k.id old) m.configs ≡ some old
    → k.same old old ≡ true
    → k.same old new ≡ false
    → ((add k true false new m).0 ≡ none)
      × (any (λ n. n == src) (add k true false new m).1.closed ≡ true)
      × ((add k true false old (add k true false new m).1).0 ≡ some src)
unfolding add close_then replace is_same
add-keeps_closed k m old new src one_id listed configured reflexive changed =
    let listed' : lookup (k.id new) m.sources ≡ some src =
      ap (λ i. lookup i m.sources) one_id ∙ listed in
    let configured' : lookup (k.id new) m.configs ≡ some old =
      ap (λ i. lookup i m.configs) one_id ∙ configured in
    let failed : add k true false new m ≡ (none, record m { closed = src ∷ m.closed }) =
      rw (listed', add, configured', is_same, changed) refl in
    let closed : (src == src) ≡ true = ground (arith, ==_iff src src) in
    rw failed (refl, rw closed refl, rw (listed, add, configured, is_same, reflexive) refl)

-- ===== src/Vault/RoundTrip.antt =====
-- About `tokenize` and `detokenize`, for a vault with room for the entities of a text.
use netlog_ai.Prelude.{
  ◌+◌, ◌≤◌, ◌<◌, String, ◌≡◌, refl, sym, ap, ◌∙◌, none, some, List, [], ◌∷◌, ◌++◌, arith, length,
  length-append, All, All-append, inl, inr, Option-cases, map,
}
use netlog_ai.Vault.{
  Token, Entry, Vault, Request, plain_text, token_text, restore, find, reveal, remember, shrink,
  touch, without, issue, token_for, token_for_all,
}
use netlog_ai.Vault.Tokens.{token_eq_refl, reveal-remember_self, reveal-remember_new, shown-IsNew}
use netlog_ai.Vault.Entries.{shrink_fits, find-All, without-All, without-Distinct, touch-Linked}
use netlog_ai.Vault.Exclusive.{find-key}
use netlog_ai.Vault.Valid.{IsValid, next_token, next_token-IsNew, token_for-IsValid}

-- a display value for each entity; the entries and the requests show no other
module _ (face : String → String → String) where
  abbrev pub Shows : Entry → Type 0
  Shows e = e.display ≡ face e.kind e.key

  abbrev pub Asks : Request → Type 0
  Asks r = r.display ≡ face r.kind r.key

  -- one token: the room is for one more entity
  token_for_reveals :
      (r : Request) (v : Vault)
      → IsValid v
      → All Shows v.forward
      → Asks r
      → length v.forward < v.max_entries
      → (reveal (token_for r v).0 (token_for r v).1.reverse ≡ some r.display)
        × ((t : Token) (d : String)
            → reveal t v.reverse ≡ some d
            → reveal t (token_for r v).1.reverse ≡ some d)
        × All Shows (token_for r v).1.forward
        × (length (token_for r v).1.forward ≤ length v.forward + 1)
        × ((token_for r v).1.max_entries ≡ v.max_entries)
  unfolding token_for issue
  token_for_reveals r v h s a room = elim (Option-cases (find r.kind r.key v.forward)) [
    | inl new ↦
        let token = next_token r.kind v in
        let entry : Entry = record {
          kind = r.kind;
          key = r.key;
          token = token;
          display = r.display;
          seen = r.now;
        } in
        let fits : shrink v.max_entries (v.forward ++ entry ∷ [])
              (remember token r.display v.reverse)
            ≡ (v.forward ++ entry ∷ [], remember token r.display v.reverse) =
          shrink_fits v.max_entries (v.forward ++ entry ∷ []) _ (rw length-append (omega arith)) in
        let unknown : reveal token v.reverse ≡ none =
          h.linked.revealed token ∙ shown-IsNew token v.forward (next_token-IsNew r.kind v h) in
        rw (new, token_for, fits)
          (
            reveal-remember_self token r.display v.reverse,
            λ t d p. reveal-remember_new t token d r.display v.reverse unknown p,
            All-append Shows v.forward (entry ∷ []) s (a, tt),
            omega (arith, length-append v.forward (entry ∷ [])),
            refl,
          )
    | inr (e, known) ↦
        let (_, _, same, _) = without-Distinct r.kind r.key v.forward e h.linked.distinct known in
        let (kind, key) = find-key r.kind r.key v.forward e known in
        let shows : e.display ≡ r.display =
          find-All Shows r.kind r.key v.forward e s known
          ∙ ap (λ k. face k e.key) kind
          ∙ ap (face r.kind) key
          ∙ sym a in
        rw (known, token_for)
          (
            h.linked.revealed e.token ∙ same e.token ∙ rw (token_eq_refl e.token) (ap some shows),
            λ t d p. p,
            unfold touch in
                All-append Shows (without r.kind r.key v.forward) (record e { seen = r.now } ∷ [])
                  (without-All Shows r.kind r.key v.forward s)
                  (find-All Shows r.kind r.key v.forward e s known, tt),
            omega (arith, (touch-Linked r e v.forward v.reverse h.linked known).1),
            refl,
          )
  ]

  tokens_reveal :
      (rs : List Request) (v : Vault)
      → IsValid v
      → All Shows v.forward
      → All Asks rs
      → length v.forward + length rs ≤ v.max_entries
      → (map (λ t. reveal t (token_for_all rs v).1.reverse) (token_for_all rs v).0
          ≡ map (λ r. some r.display) rs)
        × ((t : Token) (d : String)
            → reveal t v.reverse ≡ some d
            → reveal t (token_for_all rs v).1.reverse ≡ some d)
  unfolding token_for_all
  tokens_reveal [] v h s a room = (refl, λ t d p. p)
  tokens_reveal (r ∷ rs) v h s a room =
      let (mine, old, s', n, max) = token_for_reveals r v h s a.0 (omega arith) in
      let (rest, keeps) =
        tokens_reveal rs (token_for r v).1 (token_for-IsValid r v h) s' a.1
          (omega (arith, n, max)) in
      (cc (rest, keeps (token_for r v).0 r.display mine), λ t d p. keeps t d (old t d p))

-- With room in the vault for every entity of a text, and one display value for each entity: `detokenize` turns
-- the token of each entity back into its display value, once the whole text has been tokenized.
pub restore-tokens :
    (face : String → String → String) (rs : List Request) (v : Vault)
    → IsValid v
    → All (Shows face) v.forward
    → All (Asks face) rs
    → length v.forward + length rs ≤ v.max_entries
    → map (λ t. restore (token_for_all rs v).1 (token_text t)) (token_for_all rs v).0
      ≡ map (λ r. plain_text r.display) rs
unfolding restore
restore-tokens face rs v h s a room =
    each (token_for_all rs v).0 rs (tokens_reveal face rs v h s a room).0
  where
    each :
        (ts : List Token) (rs' : List Request)
        → map (λ t. reveal t (token_for_all rs v).1.reverse) ts ≡ map (λ r. some r.display) rs'
        → map (λ t. restore (token_for_all rs v).1 (token_text t)) ts
          ≡ map (λ r. plain_text r.display) rs'
    each [] [] e = refl
    each [] (r ∷ rs') e = absurd (cc e)
    each (t ∷ ts) [] e = absurd (cc e)
    each (t ∷ ts) (r ∷ rs') e =
        let first : reveal t (token_for_all rs v).1.reverse ≡ some r.display = cc e in
        let rest = each ts rs' (cc e) in rw (first, restore, rest)

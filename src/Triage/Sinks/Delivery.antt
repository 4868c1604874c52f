-- ===== src/Triage/Sinks/Delivery.antt =====
-- What a delivery round reports: each sink either took the incident or is listed as failed.
use netlog_ai.Prelude.{
  ℕ, String, ◌≡◌, refl, sym, ◌∙◌, ap, Bool, true, false, not, Option, none, some, List, [], ◌∷◌,
  ◌++◌, append-nil, append_assoc, keep-append, arith, map, keep, Dict, inl, inr, Option-cases,
}
use netlog_ai.Triage.Types.{Config}
use netlog_ai.Triage.Sinks.{SinkState, Answer, Sent, settle, send_from, send}

-- the sink's call did not raise
abbrev pub answered : Option Answer → Bool
answered none = false
answered (some a) = true

abbrev pub answers : (String → Option Answer) → String → Bool
answers upsert name = answered (upsert name)

module _ (cfg : Config) (rand : ℕ) (leader : String → Bool) (upsert : String → Option Answer)
    (now : ℕ) where
  abbrev pub taken : List String → List String
  taken = keep (answers upsert)

  abbrev pub refused : List String → List String
  refused = keep (λ n. not (answers upsert n))

  abbrev pub names : Sent → List String
  names s = map (λ r. r.0) s.results

  map-snoc :
      (l : List (String × Answer)) (r : String × Answer)
      → map (λ r. r.0) (l ++ r ∷ []) ≡ map (λ r. r.0) l ++ r.0 ∷ []
  map-snoc [] r = refl
  map-snoc (x ∷ l) r = ap (◌∷◌ x.0) (map-snoc l r)

  settled : String → Sent → Sent
  settled name s = settle cfg rand leader upsert now name (upsert name) s

  settled_lem :
      (name : String) (s : Sent)
      → (names (settled name s) ≡ names s ++ taken (name ∷ []))
        × ((settled name s).failed ≡ s.failed ++ refused (name ∷ []))
        × ((settled name s).lease_gone ≡ s.lease_gone)
  unfolding settled settle
  settled_lem name s = elim (Option-cases (upsert name)) [
    | inl u ↦ rw (u, settle) (sym (append-nil _), refl, refl)
    | inr (a, u) ↦ rw (u, settle) (map-snoc s.results (name, a), sym (append-nil _), refl)
  ]

  goes_on :
      (name : String) (l : List String) (s : Sent)
      → s.lease_gone ≡ false
      → (send_from cfg rand leader upsert now (name ∷ l) s).lease_gone ≡ false
      → send_from cfg rand leader upsert now (name ∷ l) s
        ≡ send_from cfg rand leader upsert now l (settled name s)
  unfolding send_from settled
  goes_on name l s h k = ground arith

  send_from_split :
      (l : List String) (s : Sent)
      → s.lease_gone ≡ false
      → (send_from cfg rand leader upsert now l s).lease_gone ≡ false
      → (names (send_from cfg rand leader upsert now l s) ≡ names s ++ taken l)
        × ((send_from cfg rand leader upsert now l s).failed ≡ s.failed ++ refused l)
  send_from_split [] s h k = unfold send_from in (sym (append-nil _), sym (append-nil _))
  send_from_split (name ∷ l) s h k =
      let (t, f, g) = settled_lem name s in
      let e = goes_on name l s h k in
      let (ts, fs) = send_from_split l (settled name s) (g ∙ h) (rw e at k) in
      rw e (
        ts
            ∙ ap (λ x. x ++ taken l) t
            ∙ append_assoc (names s) (taken (name ∷ [])) (taken l)
            ∙ ap (λ x. names s ++ x) (sym (keep-append (answers upsert) (name ∷ []) l)),
        fs
            ∙ ap (λ x. x ++ refused l) f
            ∙ append_assoc s.failed (refused (name ∷ [])) (refused l)
            ∙ ap (λ x. s.failed ++ x)
                (sym (keep-append (λ n. not (answers upsert n)) (name ∷ []) l)),
      )

  -- If the lease was held throughout, a delivery to a list of sinks reports exactly those whose call
  -- answered as results and exactly those whose call raised as failed, each in the order of the list.
  pub send_partition :
      (sinks : List String) (st : Dict SinkState)
      → (send cfg rand leader upsert now sinks st).lease_gone ≡ false
      → (names (send cfg rand leader upsert now sinks st) ≡ taken sinks)
        × ((send cfg rand leader upsert now sinks st).failed ≡ refused sinks)
  unfolding send
  send_partition sinks st h = send_from_split sinks _ refl h

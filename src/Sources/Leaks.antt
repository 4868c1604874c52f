-- ===== src/Sources/Leaks.antt =====
-- About the sources that `SourceManager` makes and closes.
use netlog_ai.Prelude.{
  ℕ, ◌<◌, ◌≡◌, ◌≢◌, ◌⊎◌, inl, inr, sym, ap, ◌∙◌, subst, String, Bool, true, false, none, some, List,
  [], ◌∷◌, ◌++◌, arith, ◌==◌, ==_iff, str_eq, eq_iff, any, map, if◌then◌else◌, Dict, lookup,
  lookup-insert_self, lookup-insert_ne, lookup-erase, Bool-cases, Option-cases,
}
use netlog_ai.Sources.{
  Configs, Manager, empty, replace, close_then, is_same, add, remove, shutdown, Call, add_call,
  remove_call, shutdown_call, step, run,
}

abbrev pub is_in : ℕ → List ℕ → Bool
is_in n = any (λ c. c == n)

module _ (k : Configs) where
  abbrev pub Listed : ℕ → Manager k → Type 0
  Listed n m = (j : String) × (lookup j m.sources ≡ some n)

  abbrev pub Accounted : Manager k → Type 0
  Accounted m = (n : ℕ) → n < m.next → (is_in n m.closed ≡ true) ⊎ Listed n m

  -- the same, but for the source of one id
  abbrev AccountedBut : String → Manager k → Type 0
  AccountedBut id m =
      (n : ℕ)
      → n < m.next
      → (is_in n m.closed ≡ true) ⊎ ((j : String) × (j ≢ id) × (lookup j m.sources ≡ some n))

  replace-Accounted :
      (creates : Bool) (c : k.Config) (m : Manager k)
      → Accounted m
      → AccountedBut (k.id c) m
      → Accounted (replace k creates c m).1
  unfolding replace
  replace-Accounted false c m all but = all
  replace-Accounted true c m all but = λ n h. elim (Bool-cases (n == m.next)) [
    | inl e ↦
        let own : m.next ≡ n = ground (arith, e, ==_iff n m.next) in
        inr (k.id c, lookup-insert_self (k.id c) m.next m.sources ∙ ap some own)
    | inr e ↦ elim (but n (ground (arith, h, e, ==_iff n m.next))) [
      | inl closed ↦ inl closed
      | inr (j, other, listed) ↦
          inr (j, lookup-insert_ne (k.id c) j m.next m.sources other ∙ listed)
    ]
  ]

  -- a source that is closed accounts for itself; the others are as they were
  close-AccountedBut :
      (id : String) (src : ℕ) (m : Manager k)
      → lookup id m.sources ≡ some src
      → Accounted m
      → AccountedBut id (record m { closed = src ∷ m.closed })
  close-AccountedBut id src m here all = λ n h. elim (all n h) [
    | inl closed ↦ inl (ground (arith, closed))
    | inr (j, listed) ↦ elim (Bool-cases (str_eq j id)) [
      | inl e ↦
          let own : some src ≡ some n =
            sym here ∙ ap (λ i. lookup i m.sources) (sym ((eq_iff j id).0 e)) ∙ listed in
          inl (ground (arith, own, ==_iff src n))
      | inr e ↦ inr (j, (λ p. absurd (ground (arith, e, (eq_iff j id).1 p))), listed)
    ]
  ]

  unlisted-AccountedBut :
      (id : String) (m : Manager k) → lookup id m.sources ≡ none → Accounted m → AccountedBut id m
  unlisted-AccountedBut id m nowhere all = λ n h. elim (all n h) [
    | inl closed ↦ inl closed
    | inr (j, listed) ↦ inr (
      j,
      (λ p.
          let both : none ≡ some n = sym nowhere ∙ ap (λ i. lookup i m.sources) (sym p) ∙ listed in
          absurd (ground (arith, both))),
      listed,
    )
  ]

  weaken : (id : String) (m : Manager k) → AccountedBut id m → Accounted m
  weaken id m but =
      λ n h. elim (but n h) [ inl closed ↦ inl closed | inr (j, other, listed) ↦ inr (j, listed) ]

  add-Accounted :
      (closes creates : Bool) (c : k.Config) (m : Manager k)
      → Accounted m
      → Accounted (add k closes creates c m).1
  unfolding add close_then
  add-Accounted closes creates c m all = elim (Option-cases (lookup (k.id c) m.sources)) [
    | inl new ↦
        rw (new, add) (replace-Accounted creates c m all (unlisted-AccountedBut (k.id c) m new all))
    | inr (src, here) ↦ elim (Bool-cases (is_same k c (lookup (k.id c) m.configs))) [
      | inl same ↦ rw (here, add, same) all
      | inr changed ↦
          let m' = record m { closed = src ∷ m.closed } in
          let but = close-AccountedBut (k.id c) src m here all in
          elim (Bool-cases closes) [
            | inl returns ↦
                rw (here, add, changed, returns)
                  (replace-Accounted creates c m' (weaken (k.id c) m' but) but)
            | inr raises ↦ rw (here, add, changed, raises) (weaken (k.id c) m' but)
          ]
    ]
  ]

  remove-Accounted : (id : String) (m : Manager k) → Accounted m → Accounted (remove k id m).1
  unfolding remove
  remove-Accounted id m all = elim (Option-cases (lookup id m.sources)) [
    | inl nowhere ↦ rw (nowhere, remove) all
    | inr (src, here) ↦
        rw (here, remove)
          (λ n h. elim (close-AccountedBut id src m here all n h) [
            | inl closed ↦ inl closed
            | inr (j, other, listed) ↦
                inr (j, ground (arith, lookup-erase id j m.sources, listed, other, eq_iff id j))
          ])
  ]

  is_in-values :
      (n : ℕ) (j : String) (l : Dict ℕ) (rest : List ℕ)
      → lookup j l ≡ some n
      → is_in n (map (λ row. row.1) l ++ rest) ≡ true
  unfolding lookup
  is_in-values n j [] rest h = absurd (ground arith)
  is_in-values n j ((i, m) ∷ l) rest h = elim (Bool-cases (str_eq i j)) [
    | inl e ↦ ground (arith, h, e, ==_iff m n)
    | inr e ↦ ground (
      arith,
      e,
      is_in-values n j l rest (subst (λ b. (if b then some m else lookup j l) ≡ some n) e h),
    )
  ]

  is_in-later :
      (n : ℕ) (l : Dict ℕ) (rest : List ℕ)
      → is_in n rest ≡ true
      → is_in n (map (λ row. row.1) l ++ rest) ≡ true
  is_in-later n [] rest h = h
  is_in-later n ((i, m) ∷ l) rest h = ground (arith, is_in-later n l rest h)

  step-Accounted : (c : Call k) (m : Manager k) → Accounted m → Accounted (step k c m)
  unfolding step shutdown
  step-Accounted (add_call closes creates c) m all = add-Accounted closes creates c m all
  step-Accounted (remove_call id) m all = remove-Accounted id m all
  step-Accounted shutdown_call m all = λ n h. elim (all n h) [
    | inl closed ↦ inl (is_in-later n m.sources m.closed closed)
    | inr (j, listed) ↦ inl (is_in-values n j m.sources m.closed listed)
  ]

  run-Accounted : (cs : List (Call k)) (m : Manager k) → Accounted m → Accounted (run k cs m)
  unfolding run
  run-Accounted [] m all = all
  run-Accounted (c ∷ cs) m all = run-Accounted cs (step k c m) (step-Accounted c m all)

  -- After any calls, of which some fail to close the old source or to make the new one, every source that
  -- was ever made is held under some id, or its `close` was called: none is lost while it is open. After a
  -- shutdown all of them are closed.
  pub run-loses_none :
      (cs : List (Call k)) (n : ℕ)
      → n < (run k cs (empty k)).next
      → ((is_in n (run k cs (empty k)).closed ≡ true) ⊎ Listed n (run k cs (empty k)))
        × (is_in n (shutdown k (run k cs (empty k))).closed ≡ true)
  run-loses_none cs n h =
      let m = run k cs (empty k) in
      let all = run-Accounted cs (empty k) (λ i p. absurd (unfold empty in omega (arith, p))) in
      (
        all n h,
        elim (step-Accounted shutdown_call m all n (unfold step shutdown in h)) [
          | inl closed ↦ unfold step in closed
          | inr (j, listed) ↦ absurd (unfold step shutdown lookup in ground (arith, listed))
        ],
      )

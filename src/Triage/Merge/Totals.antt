-- ===== src/Triage/Merge/Totals.antt =====
-- What the merge keeps of the candidates.
use netlog_ai.Prelude.{
  ℕ, ◌+◌, ◌≤◌, String, ◌≡◌, refl, sym, ap, ◌∙◌, Bool, true, false, List, [], ◌∷◌, ◌++◌, arith, ltb,
  max, min, str_eq, eq_iff, if◌then◌else◌, inl, inr, Bool-cases, length, keep, append-nil, ltb→lt,
}
use netlog_ai.Triage.Types.{Candidate, sev_rank}
use netlog_ai.Triage.Merge.{absorb, merge_one, merge_into, merge}

-- A measure of the candidates of a fingerprint: a number of each, put together by an operation.
module _ (op : ℕ → ℕ → ℕ) (unit : ℕ) (of : Candidate → ℕ) where
  abbrev pub measure : String → List Candidate → ℕ
  measure fp [] = unit
  measure fp (c ∷ l) = if str_eq c.fingerprint fp then op (of c) (measure fp l) else measure fp l

  module _ (assoc : (a b c : ℕ) → op (op a b) c ≡ op b (op a c))
      (swap : (a b c : ℕ) → op a (op b c) ≡ op b (op a c))
      (absorbed : (c c0 : Candidate) → of (absorb c c0) ≡ op (of c0) (of c))
      (plain : (c : Candidate) → of (record c { related = [] }) ≡ of c) where
    join_tests :
        (b : Bool) (x y e : ℕ)
        → (if b then op (op x y) e else e)
          ≡ (if b then op y (if b then op x e else e) else (if b then op x e else e))
    join_tests true x y e = assoc x y e
    join_tests false x y e = refl

    swap_tests :
        (a b : Bool) (x y e : ℕ)
        → (if a then op x (if b then op y e else e) else (if b then op y e else e))
          ≡ (if b then op y (if a then op x e else e) else (if a then op x e else e))
    swap_tests true true x y e = swap x y e
    swap_tests true false x y e = refl
    swap_tests false true x y e = refl
    swap_tests false false x y e = refl

    absorb-fingerprint : (c c0 : Candidate) → (absorb c c0).fingerprint ≡ c0.fingerprint
    unfolding absorb
    absorb-fingerprint c c0 = refl

    merge_one-measure :
        (fp : String) (c : Candidate) (l : List Candidate)
        → measure fp (merge_one c l) ≡ measure fp (c ∷ l)
    unfolding merge_one
    merge_one-measure fp c [] =
        ap (λ x. if str_eq c.fingerprint fp then op x unit else unit) (plain c)
    merge_one-measure fp c (c0 ∷ l) = elim (Bool-cases (str_eq c0.fingerprint c.fingerprint)) [
      | inl same ↦
          let one : c0.fingerprint ≡ c.fingerprint = (eq_iff c0.fingerprint c.fingerprint).0 same in
          rw (same, merge_one)
            (ap (λ f. if str_eq f fp then op (of (absorb c c0)) (measure fp l) else measure fp l)
                (absorb-fingerprint c c0 ∙ one)
              ∙ ap (λ x. if str_eq c.fingerprint fp then op x (measure fp l) else measure fp l)
                  (absorbed c c0)
              ∙ join_tests (str_eq c.fingerprint fp) (of c0) (of c) (measure fp l)
              ∙ ap
                  (λ f.
                    if str_eq c.fingerprint fp
                    then op (of c) (if str_eq f fp then op (of c0) (measure fp l) else measure fp l)
                    else (if str_eq f fp then op (of c0) (measure fp l) else measure fp l))
                  (sym one))
      | inr other ↦
          rw (other, merge_one)
            (ap (λ m. if str_eq c0.fingerprint fp then op (of c0) m else m)
                (merge_one-measure fp c l)
              ∙ swap_tests (str_eq c0.fingerprint fp) (str_eq c.fingerprint fp) (of c0) (of c)
                  (measure fp l))
    ]

    cons-measure :
        (fp : String) (c : Candidate) (l k : List Candidate)
        → measure fp l ≡ measure fp k
        → measure fp (c ∷ l) ≡ measure fp (c ∷ k)
    cons-measure fp c l k e = ap (λ m. if str_eq c.fingerprint fp then op (of c) m else m) e

    -- the candidates still to come, then the incidents so far
    merge_into-measure :
        (fp : String) (cs merged : List Candidate)
        → measure fp (merge_into cs merged) ≡ measure fp (cs ++ merged)
    unfolding merge_into
    merge_into-measure fp [] merged = refl
    merge_into-measure fp (c ∷ cs) merged = merge_into-measure fp cs (merge_one c merged) ∙ slide cs
      where
        slide :
            (cs : List Candidate)
            → measure fp (cs ++ merge_one c merged) ≡ measure fp (c ∷ (cs ++ merged))
        slide [] = merge_one-measure fp c merged
        slide (d ∷ ds) =
            cons-measure fp d (ds ++ merge_one c merged) (c ∷ (ds ++ merged)) (slide ds)
            ∙ swap_tests (str_eq d.fingerprint fp) (str_eq c.fingerprint fp) (of d) (of c)
                (measure fp (ds ++ merged))

merge-measure :
    (op : ℕ → ℕ → ℕ) (unit : ℕ) (of : Candidate → ℕ)
    → ((a b c : ℕ) → op (op a b) c ≡ op b (op a c))
    → ((a b c : ℕ) → op a (op b c) ≡ op b (op a c))
    → ((c c0 : Candidate) → of (absorb c c0) ≡ op (of c0) (of c))
    → ((c : Candidate) → of (record c { related = [] }) ≡ of c)
    → (fp : String) (cands : List Candidate)
    → measure op unit of fp (merge cands) ≡ measure op unit of fp cands
unfolding merge
merge-measure op unit of assoc swap absorbed plain fp cands =
    merge_into-measure op unit of assoc swap absorbed plain fp cands []
    ∙ ap (measure op unit of fp) (append-nil cands)

-- one incident for each fingerprint
abbrev pub count_of : String → List Candidate → ℕ
count_of fp l = length (keep (λ c. str_eq c.fingerprint fp) l)

merge_one-count :
    (fp : String) (c : Candidate) (l : List Candidate)
    → count_of fp (merge_one c l)
      ≡ (if str_eq c.fingerprint fp then max 1 (count_of fp l) else count_of fp l)
unfolding merge_one absorb
merge_one-count fp c [] = ground arith
merge_one-count fp c (c0 ∷ l) = ground (
  arith,
  merge_one-count fp c l,
  eq_iff c0.fingerprint c.fingerprint,
  eq_iff c0.fingerprint fp,
  eq_iff c.fingerprint fp,
)

merge_into-count :
    (fp : String) (cs merged : List Candidate)
    → count_of fp merged ≤ 1
    → count_of fp (merge_into cs merged) ≤ 1
unfolding merge_into
merge_into-count fp [] merged h = h
merge_into-count fp (c ∷ cs) merged h =
    merge_into-count fp cs (merge_one c merged) (ground (arith, merge_one-count fp c merged))

-- The merge gives at most one incident for each fingerprint, and of the candidates of a fingerprint it keeps the
-- number of events, the number of suppressed ones, the time of the newest event, and the rank of the most
-- severe one (0 is the most severe).
pub merge_lem :
    (fp : String) (cands : List Candidate)
    → (count_of fp (merge cands) ≤ 1)
      × (measure ◌+◌ 0 (λ c. c.count) fp (merge cands) ≡ measure ◌+◌ 0 (λ c. c.count) fp cands)
      × (measure ◌+◌ 0 (λ c. c.suppressed) fp (merge cands)
          ≡ measure ◌+◌ 0 (λ c. c.suppressed) fp cands)
      × (measure max 0 (λ c. c.latest) fp (merge cands) ≡ measure max 0 (λ c. c.latest) fp cands)
      × (measure min 5 (λ c. sev_rank c.severity) fp (merge cands)
          ≡ measure min 5 (λ c. sev_rank c.severity) fp cands)
merge_lem fp cands = (
  unfold merge in merge_into-count fp cands [] (omega arith),
  merge-measure ◌+◌ 0 (λ c. c.count) (λ a b c. omega arith) (λ a b c. omega arith)
      (λ c c0. unfold absorb in refl) (λ c. refl) fp cands,
  merge-measure ◌+◌ 0 (λ c. c.suppressed) (λ a b c. omega arith) (λ a b c. omega arith)
      (λ c c0. unfold absorb in refl) (λ c. refl) fp cands,
  merge-measure max 0 (λ c. c.latest) (λ a b c. omega arith) (λ a b c. omega arith)
      (λ c c0. unfold absorb in refl) (λ c. refl) fp cands,
  merge-measure min 5 (λ c. sev_rank c.severity) (λ a b c. omega arith) (λ a b c. omega arith)
      absorb-rank (λ c. refl) fp cands,
)
  where
    absorb-rank :
        (c c0 : Candidate)
        → sev_rank (absorb c c0).severity ≡ min (sev_rank c0.severity) (sev_rank c.severity)
    absorb-rank c c0 = elim (Bool-cases (ltb (sev_rank c.severity) (sev_rank c0.severity))) [
      | inl e ↦ unfold absorb in rw e (omega (arith, ltb→lt _ _ e))
      | inr e ↦ unfold absorb in rw e (ground arith)
    ]

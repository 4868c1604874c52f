-- ===== src/Audit/Throttle/Rows.antt =====
-- How many rows the throttle lets through in a stretch of time as long as its window.
use netlog_ai.Prelude.{
  ℕ, ◌+◌, ◌≤◌, ◌<◌, ◌≡◌, refl, sym, ap, subst, ◌∙◌, String, Bool, ◌&&◌, List, [], ◌∷◌, ◌++◌,
  append-nil, append_assoc, arith, ltb, leb, length, length-append, length-keep-le, keep,
  keep-append, All, All-append, All-map, inl, inr, Bool-cases,
}
use netlog_ai.Audit.Throttle.{
  Throttle, Reply, suppressed_call, written, lost, append_row, write_row, roll, global_limit,
  is_recent, last_of, Call, record_throttled, record_all,
}

-- the time of a row that is tried
abbrev pub tried_at : ℕ → Reply → List ℕ
tried_at now suppressed_call = []
tried_at now (written n) = now ∷ []
tried_at now (lost n) = now ∷ []

abbrev pub tried : List (ℕ × Reply) → List ℕ
tried [] = []
tried ((now, reply) ∷ l) = tried_at now reply ++ tried l

-- in the window that starts at `x`
abbrev pub within : ℕ → ℕ → ℕ → Bool
within window x t = leb x t && ltb t (x + window)

-- the clock readings do not go back, and start from `from`
abbrev pub Clock : ℕ → List Call → Type 0
Clock from [] = Unit
Clock from (c ∷ cs) = (from ≤ c.now) × Clock c.now cs

below : (window x s : ℕ) (l : List ℕ) → All (λ t. t ≤ s) l → s < x → keep (within window x) l ≡ []
below window x s [] h lt = refl
below window x s (t ∷ ts) h lt =
    let (first, rest) = h in ground (arith, below window x s ts rest lt)

above :
    (window x s : ℕ) (l : List ℕ)
    → All (λ t. s ≤ t) l
    → x + window ≤ s
    → keep (within window x) l ≡ []
above window x s [] h le = refl
above window x s (t ∷ ts) h le =
    let (first, rest) = h in ground (arith, above window x s ts rest le)

append_row-tried : (now : ℕ) (lands : Bool) (n : ℕ) → tried_at now (append_row lands n) ≡ now ∷ []
append_row-tried now lands n = ground arith

-- The rows tried so far are those of the current window, which the counter bounds, and those before it.
pub record Spread (window clock : ℕ) (t : Throttle) (made : List ℕ) : Type 0 where
  older : List ℕ
  current : List ℕ
  split : made ≡ older ++ current
  before : All (λ at. at ≤ t.window_start) older
  since : All (λ at. t.window_start ≤ at) current
  until : All (λ at. at ≤ clock) current
  started : t.window_start ≤ clock
  counted : length current ≤ t.window_rows
  rows : t.window_rows ≤ 120
  few : (x : ℕ) → length (keep (within window x) older) ≤ 240
  near : (x : ℕ) → t.window_start < x + window → length (keep (within window x) older) ≤ 120

module _ (window : ℕ) where
  Spread-few :
      (clock : ℕ) (t : Throttle) (made : List ℕ)
      → Spread window clock t made
      → (x : ℕ) → length (keep (within window x) made) ≤ 240
  Spread-few clock t made h x =
      let f = within window x in
      let parts : length (keep f made) ≡ length (keep f h.older) + length (keep f h.current) =
        ap (λ l. length (keep f l)) h.split
        ∙ ap length (keep-append f h.older h.current)
        ∙ length-append (keep f h.older) (keep f h.current) in
      let bound = length-keep-le f h.current in
      let counted = h.counted in
      let rows = h.rows in
      elim (Bool-cases (ltb t.window_start (x + window))) [
        | inl e ↦ let near = h.near x (ground (arith, e)) in omega (arith, parts, bound, near)
        | inr e ↦
            let none_left =
              ap length (above window x t.window_start h.current h.since (ground (arith, e))) in
            let few = h.few x in omega (arith, parts, none_left, few)
      ]

  later-Spread :
      (clock now : ℕ) (t : Throttle) (made : List ℕ)
      → clock ≤ now
      → Spread window clock t made
      → Spread window now t made
  later-Spread clock now t made le h = record {
    older = h.older;
    current = h.current;
    split = h.split;
    before = h.before;
    since = h.since;
    until = All-map _ _ (λ at lt. omega arith) h.current h.until;
    started = let started = h.started in omega arith;
    counted = h.counted;
    rows = h.rows;
    few = h.few;
    near = h.near;
  }

  -- a new window starts with no rows
  fresh-Spread :
      (now : ℕ) (t : Throttle) (made : List ℕ)
      → t.window_start + window ≤ now
      → Spread window now t made
      → Spread window now (record t { window_start = now; window_rows = 0 }) made
  fresh-Spread now t made over h = record {
    older = made;
    current = [];
    split = sym (append-nil made);
    before =
        let early =
          All-map (λ at. at ≤ t.window_start) (λ at. at ≤ now)
            (λ at lt. let started = h.started in omega arith) h.older h.before in
        subst (All (λ at. at ≤ now)) (sym h.split)
          (All-append (λ at. at ≤ now) h.older h.current early h.until);
    since = tt;
    until = tt;
    started = omega arith;
    counted = omega arith;
    rows = omega arith;
    few = Spread-few now t made h;
    near = λ x lt.
        let f = within window x in
        let none_left = below window x t.window_start h.older h.before (omega arith) in
        let whole : keep f made ≡ keep f h.current =
          ap (keep f) h.split
          ∙ keep-append f h.older h.current
          ∙ ap (λ l. l ++ keep f h.current) none_left in
        let bound = length-keep-le f h.current in
        let counted = h.counted in let rows = h.rows in omega (arith, ap length whole, bound);
  }

  roll-Spread :
      (now : ℕ) (t : Throttle) (made : List ℕ)
      → Spread window now t made
      → Spread window now (roll window now t) made
  unfolding roll
  roll-Spread now t made h = elim (Bool-cases (leb (t.window_start + window) now)) [
    | inl e ↦ rw (e, roll) (fresh-Spread now t made (ground (arith, e)) h)
    | inr e ↦ rw (e, roll) h
  ]

  global_limit-Spread :
      (action key : String) (now : ℕ) (lands : Bool) (t : Throttle) (made : List ℕ)
      → Spread window now t made
      → Spread window now
          (global_limit action key now lands t).1
          (made ++ tried_at now (global_limit action key now lands t).0)
  unfolding global_limit write_row
  global_limit-Spread action key now lands t made h = elim (Bool-cases (leb 120 t.window_rows)) [
    | inl e ↦
        rw (e, global_limit, append-nil)
          (record {
            older = h.older;
            current = h.current;
            split = h.split;
            before = h.before;
            since = h.since;
            until = h.until;
            started = h.started;
            counted = h.counted;
            rows = h.rows;
            few = h.few;
            near = h.near;
          })
    | inr e ↦
        rw (e, global_limit, append_row-tried)
          (record {
            older = h.older;
            current = h.current ++ now ∷ [];
            split = ap (λ l. l ++ now ∷ []) h.split ∙ append_assoc h.older h.current (now ∷ []);
            before = h.before;
            since = All-append _ h.current (now ∷ []) h.since (h.started, tt);
            until = All-append _ h.current (now ∷ []) h.until (omega arith, tt);
            started = h.started;
            counted = let counted = h.counted in omega (arith, length-append h.current (now ∷ []));
            rows = ground (arith, e);
            few = h.few;
            near = h.near;
          })
  ]

  record_throttled-Spread :
      (clock : ℕ) (c : Call) (t : Throttle) (made : List ℕ)
      → clock ≤ c.now
      → Spread window clock t made
      → Spread window c.now
          (record_throttled window c.action c.key c.now c.lands t).1
          (made ++ tried_at c.now (record_throttled window c.action c.key c.now c.lands t).0)
  unfolding record_throttled
  record_throttled-Spread clock c t made le h =
      let later = later-Spread clock c.now t made le h in
      elim (Bool-cases (is_recent window c.now (last_of c.action c.key t.recent))) [
        | inl e ↦
            rw (e, record_throttled, append-nil)
              (record {
                older = later.older;
                current = later.current;
                split = later.split;
                before = later.before;
                since = later.since;
                until = later.until;
                started = later.started;
                counted = later.counted;
                rows = later.rows;
                few = later.few;
                near = later.near;
              })
        | inr e ↦
            rw (e, record_throttled)
              (global_limit-Spread c.action c.key c.now c.lands (roll window c.now t) made
                (roll-Spread c.now t made later))
      ]

  -- the rows tried before a sequence of calls, and in it
  pub record_all-few :
      (cs : List Call) (clock : ℕ) (t : Throttle) (made : List ℕ)
      → Clock clock cs
      → Spread window clock t made
      → (x : ℕ) → length (keep (within window x) (made ++ tried (record_all window cs t).0)) ≤ 240
  unfolding record_all
  record_all-few [] clock t made mono h x = rw append-nil (Spread-few clock t made h x)
  record_all-few (c ∷ cs) clock t made mono h x =
      let (reply, t') = record_throttled window c.action c.key c.now c.lands t in
      let rest =
        record_all-few cs c.now t' (made ++ tried_at c.now reply) mono.1
          (record_throttled-Spread clock c t made mono.0 h) x in
      subst (λ l. length (keep (within window x) l) ≤ 240)
        (append_assoc made (tried_at c.now reply) (tried (record_all window cs t').0)) rest

  pub start-Spread : (t : Throttle) → t.window_rows ≤ 120 → Spread window t.window_start t []
  start-Spread t small = record {
    older = [];
    current = [];
    split = refl;
    before = tt;
    since = tt;
    until = tt;
    started = omega arith;
    counted = omega arith;
    rows = small;
    few = λ x. omega arith;
    near = λ x lt. omega arith;
  }

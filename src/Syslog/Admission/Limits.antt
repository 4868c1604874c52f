-- ===== src/Syslog/Admission/Limits.antt =====
-- The limits hold, and the counters are exact.
use netlog_ai.Prelude.{
  ℕ, ◌&&◌, ◌+◌, ◌-◌, ◌≤◌, ◌<◌, String, ◌≡◌, refl, ◌∙◌, Bool, true, List, [], ◌∷◌, arith, ltb, leb,
  str_eq, eq_iff, if◌then◌else◌, any, length, keep, lookup, lookup-insert, lookup-erase, insert,
  inl, inr, Bool-cases,
}
use netlog_ai.Syslog.Admission.{
  Conns, no_conns, of_ip, admit, release, Event, connected, ended, without_one, serve, serve_all,
}

-- the open connections of a sender
abbrev pub open_of : String → List String → ℕ
open_of ip l = length (keep (λ s. str_eq s ip) l)

without_one-open :
    (sender ip : String) (l : List String)
    → any (λ s. str_eq s sender) l ≡ true
    → (length (without_one sender l) + 1 ≡ length l)
      × (open_of ip (without_one sender l) + (if str_eq sender ip then 1 else 0) ≡ open_of ip l)
unfolding without_one
without_one-open sender ip [] h = absurd (ground arith)
without_one-open sender ip (s ∷ l) h = elim (Bool-cases (str_eq s sender)) [
  | inl e ↦
      let same : s ≡ sender = (eq_iff s sender).0 e in
      rw (e, without_one) (omega arith, rw same (ground arith))
  | inr e ↦
      let (n, o) = without_one-open sender ip l (ground arith) in
      rw (e, without_one) (omega (arith, n), ground (arith, o))
]

release-of_ip :
    (sender ip : String) (c : Conns)
    → of_ip ip (release sender c) ≡ of_ip ip c - (if str_eq sender ip then 1 else 0)
unfolding release
release-of_ip sender ip c = ground (
  arith,
  lookup-erase sender ip c.conns_by_ip,
  lookup-insert sender ip (of_ip sender c - 1) c.conns_by_ip,
  eq_iff sender ip,
)

module _ (max_connections max_connections_per_ip : ℕ) (allowed : String → Bool) where
  pub record IsExact (s : List String × Conns) : Type 0 where
    pub total : s.1.active_conns ≡ length s.0
    pub each : (ip : String) → of_ip ip s.1 ≡ open_of ip s.0
    pub bounded : length s.0 ≤ max_connections
    pub fair : (ip : String) → 0 < max_connections_per_ip → open_of ip s.0 ≤ max_connections_per_ip

  admitted-IsExact :
      (sender : String) (l : List String) (c : Conns)
      → IsExact (l, c)
      → c.active_conns < max_connections
      → (0 < max_connections_per_ip → of_ip sender c < max_connections_per_ip)
      → IsExact (
        sender ∷ l,
        record c {
          active_conns = c.active_conns + 1;
          conns_by_ip = insert sender (of_ip sender c + 1) c.conns_by_ip;
          connections = c.connections + 1;
        },
      )
  admitted-IsExact sender l c v room fits = record {
    total = let total = v.total in omega arith;
    each = λ ip. ground (
      arith,
      v.each ip,
      v.each sender,
      lookup-insert sender ip (of_ip sender c + 1) c.conns_by_ip,
      eq_iff sender ip,
    );
    bounded = let total = v.total in omega arith;
    fair = λ ip pos.
        let few = fits pos in ground (arith, v.each sender, v.fair ip pos, eq_iff sender ip, few);
  }

  connected-IsExact :
      (sender : String) (l : List String) (c : Conns)
      → IsExact (l, c)
      → IsExact (serve max_connections max_connections_per_ip allowed (connected sender) (l, c))
  unfolding serve admit
  connected-IsExact sender l c v = elim (Bool-cases (allowed sender)) [
    | inr denied ↦ rw (denied, serve) (refused _)
    | inl welcome ↦ elim (Bool-cases (leb max_connections c.active_conns)) [
      | inl full ↦ rw (welcome, full, serve) (refused _)
      | inr room ↦
          elim (Bool-cases
            (ltb 0 max_connections_per_ip && leb max_connections_per_ip (of_ip sender c))) [
              | inl full ↦ rw (welcome, room, full, serve) (refused _)
              | inr fits ↦
                  rw (welcome, room, fits, serve)
                    (admitted-IsExact sender l c v (ground arith) (λ pos. ground arith))
            ]
    ]
  ]
    where
      refused :
          (n : ℕ × ℕ × ℕ)
          → IsExact (
            l,
            record c { rejected_sender = n.0; rejected_conn_limit = n.1; rejected_ip_limit = n.2 },
          )
      refused n = record { total = v.total; each = v.each; bounded = v.bounded; fair = v.fair }

  ended-IsExact :
      (sender : String) (l : List String) (c : Conns)
      → IsExact (l, c)
      → IsExact (serve max_connections max_connections_per_ip allowed (ended sender) (l, c))
  unfolding serve
  ended-IsExact sender l c v = elim (Bool-cases (any (λ s. str_eq s sender) l)) [
    | inr absent ↦ rw (absent, serve) v
    | inl found ↦
        let (n, _) = without_one-open sender sender l found in
        rw (found, serve)
          (record {
            total = unfold release in let total = v.total in omega (arith, n);
            each = λ ip.
                let (_, o) = without_one-open sender ip l found in
                release-of_ip sender ip c ∙ omega (arith, o, v.each ip);
            bounded = let bounded = v.bounded in omega (arith, n);
            fair = λ ip pos.
                let (_, o) = without_one-open sender ip l found in omega (arith, o, v.fair ip pos);
          })
  ]

  serve_all-IsExact :
      (es : List Event) (s : List String × Conns)
      → IsExact s
      → IsExact (serve_all max_connections max_connections_per_ip allowed es s)
  unfolding serve_all
  serve_all-IsExact [] s v = v
  serve_all-IsExact (connected sender ∷ es) s v =
      serve_all-IsExact es _ (connected-IsExact sender s.0 s.1 v)
  serve_all-IsExact (ended sender ∷ es) s v =
      serve_all-IsExact es _ (ended-IsExact sender s.0 s.1 v)

  -- Whatever connects and ends, from the start on: `_active_conns` and the entries of `_conns_by_ip` are the
  -- numbers of connections that are open, in all and for each sender; they are at most the limit, and
  -- for each sender at most the limit for one sender if that is above 0.
  pub serve_all_lem :
      (es : List Event)
      → IsExact (serve_all max_connections max_connections_per_ip allowed es ([], no_conns))
  serve_all_lem es =
      serve_all-IsExact es ([], no_conns)
        (record {
          total = refl;
          each = λ ip. unfold lookup in refl;
          bounded = omega arith;
          fair = λ ip pos. omega arith;
        })

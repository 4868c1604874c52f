-- ===== src/Vault/Valid.antt =====
-- The invariant of a vault.
use netlog_ai.Prelude.{
  ℕ, ◌+◌, ◌≤◌, ◌<◌, String, ◌≡◌, refl, ap, subst, false, Option, none, some, List, [], ◌∷◌, ◌++◌,
  arith, eq_iff, ◌==◌, length, length-append, All, All-append, All-map, inl, inr, Bool-cases,
  Option-cases, Dict, insert, lookup-insert,
}
use netlog_ai.Vault.{
  Token, token_eq, Entry, Vault, Request, find, reveal, remember, shrink, expire, counter, touch,
  issue, token_for,
}
use netlog_ai.Vault.Tokens.{token_eq_iff, IsNew}
use netlog_ai.Vault.Entries.{
  Linked, Trimmed, shrink-Trimmed, drop_expired-Trimmed, find-All, without-All, touch-Linked,
  issued-Linked,
}

-- the token is one that the counters have reached
abbrev pub WasIssued : Dict ℕ → Token → Type 0
WasIssued counters t = t.idx ≤ counter t.kind counters

-- Both maps agree, the forward map is within its limit, and its tokens were issued.
pub record IsValid (v : Vault) : Type 0 where
  pub room : 0 < v.max_entries
  pub bounded : length v.forward ≤ v.max_entries
  pub linked : Linked v.forward v.reverse
  pub issued : All (λ e. WasIssued v.counters e.token) v.forward

pub counter-insert :
    (kind k : String) (counters : Dict ℕ)
    → counter k counters ≤ counter k (insert kind (counter kind counters + 1) counters)
unfolding counter
counter-insert kind k counters =
    ground (arith, lookup-insert kind k (counter kind counters + 1) counters, eq_iff kind k)

pub counter-insert_self :
    (kind : String) (n : ℕ) (counters : Dict ℕ) → counter kind (insert kind n counters) ≡ n
unfolding counter
counter-insert_self kind n counters =
    ground (arith, lookup-insert kind kind n counters, eq_iff kind kind)

All-suffix : (P : Entry → Type 0) (a b : List Entry) → All P (a ++ b) → All P b
All-suffix P [] b h = h
All-suffix P (x ∷ a) b h = All-suffix P a b h.1

pub Trimmed-All :
    (P : Entry → Type 0) (f f' : List Entry) (r : List (Token × String))
    → Trimmed f f' r
    → All P f
    → All P f'
Trimmed-All P f f' r t h = All-suffix P t.gone f' (subst (All P) t.split h)

Trimmed-length :
    (f f' : List Entry) (r : List (Token × String)) → Trimmed f f' r → length f' ≤ length f
Trimmed-length f f' r t =
    let l = length-append t.gone f' in let e = ap length t.split in omega arith

-- the token that a new entity of a kind gets
abbrev pub next_token : String → Vault → Token
next_token kind v = record { kind = kind; idx = counter kind v.counters + 1 }

pub next_token-IsNew : (kind : String) (v : Vault) → IsValid v → IsNew (next_token kind v) v.forward
next_token-IsNew kind v h = All-map _ _ (λ e i. apart e.token i) v.forward h.issued
  where
    apart : (t : Token) → WasIssued v.counters t → token_eq t (next_token kind v) ≡ false
    apart t i = elim (Bool-cases (token_eq t (next_token kind v))) [
      | inl same ↦ absurd (
          omega
            (arith, subst (WasIssued v.counters) ((token_eq_iff t (next_token kind v)).0 same) i))
      | inr other ↦ other
    ]

pub issue-IsValid : (r : Request) (v : Vault) → IsValid v → IsValid (issue r v).1
unfolding issue
issue-IsValid r v h = record {
  room = h.room;
  bounded = trimmed.1;
  linked = trimmed.0.linked;
  issued =
      Trimmed-All (λ e. WasIssued (issue r v).1.counters e.token) (v.forward ++ entry ∷ []) _ _
        trimmed.0
        (All-append (λ e. WasIssued (issue r v).1.counters e.token) v.forward (entry ∷ [])
          (All-map _ _ (λ e i. omega (arith, i, counter-insert r.kind e.token.kind v.counters))
            v.forward h.issued)
          (
            omega (arith, counter-insert_self r.kind (counter r.kind v.counters + 1) v.counters),
            tt,
          ));
}
  where
    entry : Entry
    entry = record {
      kind = r.kind;
      key = r.key;
      token = next_token r.kind v;
      display = r.display;
      seen = r.now;
    }

    trimmed :
        Trimmed
          (v.forward ++ entry ∷ [])
          (shrink v.max_entries
            (v.forward ++ entry ∷ [])
            (remember (next_token r.kind v) r.display v.reverse)).0
          (shrink v.max_entries
            (v.forward ++ entry ∷ [])
            (remember (next_token r.kind v) r.display v.reverse)).1
        × (length
              (shrink v.max_entries
                (v.forward ++ entry ∷ [])
                (remember (next_token r.kind v) r.display v.reverse)).0
            ≤ v.max_entries)
    trimmed =
        shrink-Trimmed v.max_entries (v.forward ++ entry ∷ []) _
          (issued-Linked v.forward v.reverse entry h.linked (next_token-IsNew r.kind v h))

pub touch-IsValid :
    (r : Request) (e : Entry) (v : Vault)
    → IsValid v
    → find r.kind r.key v.forward ≡ some e
    → IsValid (record v { forward = touch r e v.forward })
touch-IsValid r e v h found =
    let (l, n) = touch-Linked r e v.forward v.reverse h.linked found in
    let bounded = h.bounded in
    record {
      room = h.room;
      bounded = omega (arith, n);
      linked = l;
      issued =
          unfold touch in
          All-append (λ e. WasIssued v.counters e.token) _ (record e { seen = r.now } ∷ [])
            (without-All (λ e. WasIssued v.counters e.token) r.kind r.key v.forward h.issued)
            (
              find-All (λ e. WasIssued v.counters e.token) r.kind r.key v.forward e h.issued found,
              tt,
            );
    }

-- Asking for a token, of a new entity or a known one, leaves a valid vault.
pub token_for-IsValid : (r : Request) (v : Vault) → IsValid v → IsValid (token_for r v).1
unfolding token_for
token_for-IsValid r v h = elim (Option-cases (find r.kind r.key v.forward)) [
  | inl new ↦ rw (new, token_for) (issue-IsValid r v h)
  | inr (e, known) ↦ rw (known, token_for) (touch-IsValid r e v h known)
]

pub expire-IsValid : (ttl : Option ℕ) (now : ℕ) (v : Vault) → IsValid v → IsValid (expire ttl now v)
unfolding expire
expire-IsValid none now v h = h
expire-IsValid (some ttl) now v h = elim (Bool-cases (ttl == 0)) [
  | inl never ↦ rw (never, expire) h
  | inr some_time ↦
      let t = drop_expired-Trimmed ttl now v.forward v.reverse h.linked in
      rw (some_time, expire)
        (record {
          room = h.room;
          bounded = let bounded = h.bounded in omega (arith, Trimmed-length v.forward _ _ t);
          linked = t.linked;
          issued = Trimmed-All (λ e. WasIssued v.counters e.token) v.forward _ _ t h.issued;
        })
]

abbrev pub empty : ℕ → Vault
empty max = record { max_entries = max; forward = []; reverse = []; counters = [] }

pub empty-IsValid : (max : ℕ) → 0 < max → IsValid (empty max)
empty-IsValid max room = record {
  room = room;
  bounded = omega arith;
  linked = record { distinct = tt; revealed = λ t. unfold reveal in refl };
  issued = tt;
}

-- ===== src/Vault/Exclusive.antt =====
-- About the tokens that a vault hands out to different entities (`_token_for`).
use netlog_ai.Prelude.{
  ℕ, ◌+◌, ◌<◌, String, ◌≡◌, ◌≢◌, refl, sym, subst, false, Option, none, some, List, [], ◌∷◌, ◌++◌,
  arith, eq_iff, ◌==◌, All, All-append, All-map, inl, inr, Bool-cases, Option-cases,
}
use netlog_ai.Vault.{
  Token, token_eq, Entry, Vault, Request, find, expire, counter, touch, without, has_key, issue,
  token_for,
}
use netlog_ai.Vault.Tokens.{token_eq_iff}
use netlog_ai.Vault.Entries.{
  shrink-Trimmed, drop_expired-Trimmed, find-All, without-All, issued-Linked, without-Distinct,
}
use netlog_ai.Vault.Valid.{
  WasIssued, IsValid, counter-insert, counter-insert_self, Trimmed-All, next_token,
  next_token-IsNew, issue-IsValid, touch-IsValid, expire-IsValid, empty, empty-IsValid,
}

-- what was handed out: the entity and its token
abbrev pub Grant : Type 0
Grant = (String × String) × Token

-- A step of a vault's life: a request, or an expiry.
pub data Event : Type 0 where
  requested : Request → Event
  expired : Option ℕ → ℕ → Event

-- the grants of a sequence of steps, the newest first, and the vault after them
pub run : List Event → List Grant × Vault → List Grant × Vault
run [] s = s
run (requested r ∷ es) (log, v) =
    let (t, v') = token_for r v in run es ((((r.kind, r.key), t) ∷ log), v')
run (expired ttl now ∷ es) (log, v) = run es (log, expire ttl now v)

-- every grant of the token is to the entity
abbrev pub IsOwn : List Grant → String × String → Token → Type 0
IsOwn log entity t = All (λ g. g.1 ≡ t → g.0 ≡ entity) log

-- all grants of one token are to one entity
abbrev pub IsExclusive : List Grant → Type 0
IsExclusive [] = Unit
IsExclusive (g ∷ log) = IsOwn log g.0 g.1 × IsExclusive log

record Keeps (log : List Grant) (v : Vault) : Type 0 where
  valid : IsValid v
  exclusive : IsExclusive log
  reached : All (λ g. WasIssued v.counters g.1) log
  owned : All (λ e. IsOwn log (e.kind, e.key) e.token) v.forward

All-zip {ℓ} :
    {A : Type ℓ} (P Q R : A → Type 0) (l : List A)
    → ((a : A) → P a → Q a → R a)
    → All P l
    → All Q l
    → All R l
All-zip P Q R [] f p q = tt
All-zip P Q R (a ∷ l) f p q = (f a p.0 q.0, All-zip P Q R l f p.1 q.1)

next_token-apart :
    (kind : String) (v : Vault) (t : Token) → WasIssued v.counters t → t ≢ next_token kind v
next_token-apart kind v t i e = absurd (omega (arith, subst (WasIssued v.counters) e i))

issue-token : (r : Request) (v : Vault) → (issue r v).0 ≡ next_token r.kind v
unfolding issue
issue-token r v = refl

issue-counters :
    (r : Request) (v : Vault) (t : Token)
    → WasIssued v.counters t
    → WasIssued (issue r v).1.counters t
unfolding issue
issue-counters r v t i = omega (arith, i, counter-insert r.kind t.kind v.counters)

issue-reached : (r : Request) (v : Vault) → WasIssued (issue r v).1.counters (next_token r.kind v)
unfolding issue
issue-reached r v =
    omega (arith, counter-insert_self r.kind (counter r.kind v.counters + 1) v.counters)

-- what holds of the old entries and of the new one holds of the entries that an issue leaves
issue-All :
    (P : Entry → Type 0) (r : Request) (v : Vault)
    → IsValid v
    → All P v.forward
    → P (record {
      kind = r.kind;
      key = r.key;
      token = next_token r.kind v;
      display = r.display;
      seen = r.now;
    })
    → All P (issue r v).1.forward
unfolding issue
issue-All P r v h old new =
    Trimmed-All P (v.forward ++ entry ∷ []) _ _
      (shrink-Trimmed v.max_entries (v.forward ++ entry ∷ []) _
        (issued-Linked v.forward v.reverse entry h.linked (next_token-IsNew r.kind v h))).0
      (All-append P v.forward (entry ∷ []) old (new, tt))
  where
    entry : Entry
    entry = record {
      kind = r.kind;
      key = r.key;
      token = next_token r.kind v;
      display = r.display;
      seen = r.now;
    }

issue-Keeps :
    (r : Request) (log : List Grant) (v : Vault)
    → Keeps log v
    → Keeps (((r.kind, r.key), next_token r.kind v) ∷ log) (issue r v).1
issue-Keeps r log v k = record {
  valid = issue-IsValid r v k.valid;
  exclusive = (own, k.exclusive);
  reached = (issue-reached r v, All-map _ _ (λ g i. issue-counters r v g.1 i) log k.reached);
  owned =
      issue-All (λ e. IsOwn (((r.kind, r.key), next_token r.kind v) ∷ log) (e.kind, e.key) e.token)
        r v k.valid
        (All-zip (λ e. WasIssued v.counters e.token) (λ e. IsOwn log (e.kind, e.key) e.token) _
          v.forward (λ e i o. (λ same. absurd (next_token-apart r.kind v e.token i (sym same)), o))
          k.valid.issued k.owned)
        (λ same. refl, own);
}
  where
    own : IsOwn log (r.kind, r.key) (next_token r.kind v)
    own = All-map _ _ (λ g i same. absurd (next_token-apart r.kind v g.1 i same)) log k.reached

pub find-key :
    (kind key : String) (l : List Entry) (e : Entry)
    → find kind key l ≡ some e
    → (e.kind ≡ kind) × (e.key ≡ key)
unfolding find
find-key kind key [] e h = absurd (ground arith)
find-key kind key (x ∷ l) e h = elim (Bool-cases (has_key kind key x)) [
  | inl same ↦
      let one : x ≡ e = ground arith in
      rw (← one) (ground (arith, eq_iff x.kind kind), ground (arith, eq_iff x.key key))
  | inr other ↦ find-key kind key l e (ground arith)
]

touch-Keeps :
    (r : Request) (e : Entry) (log : List Grant) (v : Vault)
    → Keeps log v
    → find r.kind r.key v.forward ≡ some e
    → Keeps (((r.kind, r.key), e.token) ∷ log) (record v { forward = touch r e v.forward })
touch-Keeps r e log v k found =
    let (kind, key) = find-key r.kind r.key v.forward e found in
    let (_, new, _, _) = without-Distinct r.kind r.key v.forward e k.valid.linked.distinct found in
    let mine =
      find-All (λ e. IsOwn log (e.kind, e.key) e.token) r.kind r.key v.forward e k.owned found in
    record {
      valid = touch-IsValid r e v k.valid found;
      exclusive = (rw (← kind, ← key) mine, k.exclusive);
      reached = (
        find-All (λ e. WasIssued v.counters e.token) r.kind r.key v.forward e k.valid.issued found,
        k.reached,
      );
      owned =
          unfold touch in
          All-append _ (without r.kind r.key v.forward) (record e { seen = r.now } ∷ [])
            (All-zip (λ x. token_eq x.token e.token ≡ false)
              (λ x. IsOwn log (x.kind, x.key) x.token) _ (without r.kind r.key v.forward)
              (λ x apart o.
                (λ same. absurd (ground (arith, apart, token_eq_iff x.token e.token, same)), o))
              new
              (without-All (λ x. IsOwn log (x.kind, x.key) x.token) r.kind r.key v.forward k.owned))
            ((λ same. cc (kind, key), mine), tt);
    }

expire-Keeps :
    (ttl : Option ℕ) (now : ℕ) (log : List Grant) (v : Vault)
    → Keeps log v
    → Keeps log (expire ttl now v)
expire-Keeps ttl now log v k = record {
  valid = expire-IsValid ttl now v k.valid;
  exclusive = k.exclusive;
  reached = rw expire-counters k.reached;
  owned = owned ttl;
}
  where
    expire-counters : (expire ttl now v).counters ≡ v.counters
    expire-counters = unfold expire in ground arith

    owned :
        (ttl : Option ℕ) → All (λ e. IsOwn log (e.kind, e.key) e.token) (expire ttl now v).forward
    owned none = unfold expire in k.owned
    owned (some ttl) = elim (Bool-cases (ttl == 0)) [
      | inl never ↦ unfold expire in rw never k.owned
      | inr some_time ↦
          unfold expire in
          rw some_time (
            Trimmed-All (λ e. IsOwn log (e.kind, e.key) e.token) v.forward _ _
              (drop_expired-Trimmed ttl now v.forward v.reverse k.valid.linked) k.owned)
    ]

token_for-Keeps :
    (r : Request) (log : List Grant) (v : Vault)
    → Keeps log v
    → Keeps (((r.kind, r.key), (token_for r v).0) ∷ log) (token_for r v).1
unfolding token_for
token_for-Keeps r log v k = elim (Option-cases (find r.kind r.key v.forward)) [
  | inl new ↦
      rw (new, token_for)
        (subst (λ t. Keeps (((r.kind, r.key), t) ∷ log) (issue r v).1) (sym (issue-token r v))
          (issue-Keeps r log v k))
  | inr (e, known) ↦ rw (known, token_for) (touch-Keeps r e log v k known)
]

run-Keeps :
    (es : List Event) (log : List Grant) (v : Vault)
    → Keeps log v
    → Keeps (run es (log, v)).0 (run es (log, v)).1
unfolding run
run-Keeps [] log v k = k
run-Keeps (requested r ∷ es) log v k = run-Keeps es _ _ (token_for-Keeps r log v k)
run-Keeps (expired ttl now ∷ es) log v k =
    run-Keeps es log (expire ttl now v) (expire-Keeps ttl now log v k)

-- Whatever a vault is asked for and whatever it evicts or expires on the way: all grants of a token are to one
-- entity, the forward map stays within its limit, and the reverse map holds just the tokens of its entries.
pub run-IsExclusive :
    (max : ℕ) (es : List Event)
    → 0 < max
    → IsExclusive (run es ([], empty max)).0 × IsValid (run es ([], empty max)).1
run-IsExclusive max es room =
    let k =
      run-Keeps es [] (empty max)
        (record { valid = empty-IsValid max room; exclusive = tt; reached = tt; owned = tt }) in
    (k.exclusive, k.valid)

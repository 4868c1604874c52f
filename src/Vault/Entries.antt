-- ===== src/Vault/Entries.antt =====
-- About the forward map and the reverse map of a vault (`_forward` and `_reverse`).
use netlog_ai.Prelude.{
  ℕ, ◌+◌, ◌≤◌, String, ◌≡◌, refl, sym, ap, ◌∙◌, subst, false, some, List, [], ◌∷◌, ◌++◌, arith,
  if◌then◌else◌, ltb, leb, length, length-append, All, All-append, inl, inr, Bool-cases,
}
use netlog_ai.Vault.{
  Token, token_eq, Entry, Request, has_key, find, reveal, forget, remember, shrink, drop_expired,
  without, touch,
}
use netlog_ai.Vault.Tokens.{
  token_eq_iff, reveal-forget, reveal-remember, shown, IsNew, Distinct, shown-IsNew, shown-snoc,
}

-- a token has one entry, and the reverse map holds just the tokens of the entries, with their display values
pub record Linked (forward : List Entry) (reverse : List (Token × String)) : Type 0 where
  pub distinct : Distinct forward
  pub revealed : (t : Token) → reveal t reverse ≡ shown t forward

tail-Linked :
    (e : Entry) (l : List Entry) (r : List (Token × String))
    → Linked (e ∷ l) r
    → Linked l (forget e.token r)
tail-Linked e l r h = record {
  distinct = h.distinct.1;
  revealed = λ t.
      reveal-forget t e.token r
      ∙ rw h.revealed (elim (Bool-cases (token_eq e.token t)) [
        | inl same ↦
            let one : e.token ≡ t = (token_eq_iff e.token t).0 same in
            rw same (sym (shown-IsNew t l (subst (λ t. IsNew t l) one h.distinct.0)))
        | inr other ↦ rw other
      ]);
}

-- What a loop that evicts from the front leaves: a linked pair whose entries are the last of those before.
pub record Trimmed (f f' : List Entry) (r' : List (Token × String)) : Type 0 where
  pub linked : Linked f' r'
  pub gone : List Entry
  pub split : f ≡ gone ++ f'

Trimmed-refl : (f : List Entry) (r : List (Token × String)) → Linked f r → Trimmed f f r
Trimmed-refl f r h = record { linked = h; gone = []; split = refl }

Trimmed-cons :
    (e : Entry) (f f' : List Entry) (r' : List (Token × String))
    → Trimmed f f' r'
    → Trimmed (e ∷ f) f' r'
Trimmed-cons e f f' r' h = record {
  linked = h.linked;
  gone = e ∷ h.gone;
  split = ap (◌∷◌ e) h.split;
}

pub shrink-Trimmed :
    (max : ℕ) (f : List Entry) (r : List (Token × String))
    → Linked f r
    → Trimmed f (shrink max f r).0 (shrink max f r).1 × (length (shrink max f r).0 ≤ max)
unfolding shrink
shrink-Trimmed max [] r h = (Trimmed-refl [] r h, omega arith)
shrink-Trimmed max (e ∷ l) r h = elim (Bool-cases (ltb max (length (e ∷ l)))) [
  | inl over ↦
      let (t, n) = shrink-Trimmed max l (forget e.token r) (tail-Linked e l r h) in
      rw (over, shrink) (Trimmed-cons e l _ _ t, n)
  | inr fits ↦ rw (fits, shrink) (Trimmed-refl (e ∷ l) r h, ground arith)
]

pub drop_expired-Trimmed :
    (ttl now : ℕ) (f : List Entry) (r : List (Token × String))
    → Linked f r
    → Trimmed f (drop_expired ttl now f r).0 (drop_expired ttl now f r).1
unfolding drop_expired
drop_expired-Trimmed ttl now [] r h = Trimmed-refl [] r h
drop_expired-Trimmed ttl now (e ∷ l) r h = elim (Bool-cases (leb now (e.seen + ttl))) [
  | inl fresh ↦ rw (fresh, drop_expired) (Trimmed-refl (e ∷ l) r h)
  | inr stale ↦
      rw (stale, drop_expired)
        (Trimmed-cons e l _ _
          (drop_expired-Trimmed ttl now l (forget e.token r) (tail-Linked e l r h)))
]

-- at room for all, nothing is evicted
pub shrink_fits :
    (max : ℕ) (f : List Entry) (r : List (Token × String))
    → length f ≤ max
    → shrink max f r ≡ (f, r)
unfolding shrink
shrink_fits max [] r h = refl
shrink_fits max (e ∷ l) r h = ground arith

pub find-All :
    (P : Entry → Type 0) (kind key : String) (l : List Entry) (e : Entry)
    → All P l
    → find kind key l ≡ some e
    → P e
unfolding find
find-All P kind key [] e a h = absurd (ground arith)
find-All P kind key (x ∷ l) e a h = elim (Bool-cases (has_key kind key x)) [
  | inl same ↦ let one : x ≡ e = ground arith in subst P one a.0
  | inr other ↦ find-All P kind key l e a.1 (ground arith)
]

pub without-All :
    (P : Entry → Type 0) (kind key : String) (l : List Entry) → All P l → All P (without kind key l)
unfolding without
without-All P kind key [] a = tt
without-All P kind key (x ∷ l) a = elim (Bool-cases (has_key kind key x)) [
  | inl same ↦ rw (same, without) a.1
  | inr other ↦ rw (other, without) (a.0, without-All P kind key l a.1)
]

token_apart : (a b : Token) → token_eq a b ≡ false → token_eq b a ≡ false
token_apart a b h = ground (arith, token_eq_iff a b, token_eq_iff b a)

-- taking the entry of a key out, and putting it at the end
pub without-Distinct :
    (kind key : String) (l : List Entry) (e : Entry)
    → Distinct l
    → find kind key l ≡ some e
    → Distinct (without kind key l)
      × IsNew e.token (without kind key l)
      × ((t : Token)
          → shown t l
            ≡ (if token_eq e.token t then some e.display else shown t (without kind key l)))
      × (length (without kind key l) + 1 ≡ length l)
unfolding find without
without-Distinct kind key [] e d h = absurd (ground arith)
without-Distinct kind key (x ∷ l) e d h = elim (Bool-cases (has_key kind key x)) [
  | inl same ↦
      let one : x ≡ e = ground arith in rw (same, without, ← one) (d.1, d.0, λ t. refl, omega arith)
  | inr other ↦
      let found : find kind key l ≡ some e = ground arith in
      let (ds, new, same, n) = without-Distinct kind key l e d.1 found in
      let apart = find-All (λ y. token_eq y.token x.token ≡ false) kind key l e d.0 found in
      rw (other, without)
        (
          (without-All (λ y. token_eq y.token x.token ≡ false) kind key l d.0, ds),
          (token_apart e.token x.token apart, new),
          λ t. ground (
            arith,
            same t,
            apart,
            token_eq_iff x.token t,
            token_eq_iff e.token t,
            token_eq_iff e.token x.token,
          ),
          omega (arith, n),
        )
]

pub snoc-Distinct :
    (l : List Entry) (e : Entry) → Distinct l → IsNew e.token l → Distinct (l ++ e ∷ [])
snoc-Distinct [] e d n = (tt, tt)
snoc-Distinct (x ∷ l) e d n = (
  All-append (λ y. token_eq y.token x.token ≡ false) l (e ∷ []) d.0
      (token_apart x.token e.token n.0, tt),
  snoc-Distinct l e d.1 n.1,
)

pub touch-Linked :
    (r : Request) (e : Entry) (f : List Entry) (rev : List (Token × String))
    → Linked f rev
    → find r.kind r.key f ≡ some e
    → Linked (touch r e f) rev × (length (touch r e f) ≡ length f)
unfolding touch
touch-Linked r e f rev h found =
    let (ds, new, same, n) = without-Distinct r.kind r.key f e h.distinct found in
    (
      record {
        distinct = snoc-Distinct (without r.kind r.key f) (record e { seen = r.now }) ds new;
        revealed = λ t.
            h.revealed t
            ∙ same t
            ∙ sym (shown-snoc t (without r.kind r.key f) (record e { seen = r.now }) new);
      },
      rw length-append (omega (arith, n)),
    )

pub issued-Linked :
    (f : List Entry) (rev : List (Token × String)) (e : Entry)
    → Linked f rev
    → IsNew e.token f
    → Linked (f ++ e ∷ []) (remember e.token e.display rev)
issued-Linked f rev e h new = record {
  distinct = snoc-Distinct f e h.distinct new;
  revealed = λ t. rw (reveal-remember, h.revealed, shown-snoc, new);
}

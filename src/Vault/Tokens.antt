-- ===== src/Vault/Tokens.antt =====
-- Tokens and the reverse map: what is known of a token after it is remembered or forgotten.
use netlog_ai.Prelude.{
  String, ◌≡◌, ◌↔◌, refl, ◌∙◌, true, false, Option, none, some, List, [], ◌∷◌, ◌++◌, arith, ==_iff,
  eq_iff, if◌then◌else◌, All,
}
use netlog_ai.Vault.{Token, token_eq, Entry, reveal, forget, remember}

pub token_eq_iff : (a b : Token) → (token_eq a b ≡ true) ↔ (a ≡ b)
token_eq_iff a b = ground (arith, eq_iff a.kind b.kind, ==_iff a.idx b.idx)

pub token_eq_refl : (t : Token) → token_eq t t ≡ true
token_eq_refl t = (token_eq_iff t t).1 refl

pub reveal-forget :
    (t u : Token) (l : List (Token × String))
    → reveal t (forget u l) ≡ (if token_eq u t then none else reveal t l)
unfolding reveal forget
reveal-forget t u [] = ground arith
reveal-forget t u (r ∷ l) =
    ground (arith, reveal-forget t u l, token_eq_iff r.0 u, token_eq_iff r.0 t, token_eq_iff u t)

pub reveal-remember :
    (t u : Token) (d : String) (l : List (Token × String))
    → reveal t (remember u d l) ≡ (if token_eq u t then some d else reveal t l)
unfolding reveal remember
reveal-remember t u d [] = refl
reveal-remember t u d (r ∷ l) =
    ground
      (arith, reveal-remember t u d l, token_eq_iff r.0 u, token_eq_iff r.0 t, token_eq_iff u t)

pub reveal-remember_self :
    (t : Token) (d : String) (l : List (Token × String)) → reveal t (remember t d l) ≡ some d
reveal-remember_self t d l = reveal-remember t t d l ∙ rw (token_eq_refl t)

pub reveal-remember_new :
    (t u : Token) (d d' : String) (l : List (Token × String))
    → reveal u l ≡ none
    → reveal t l ≡ some d
    → reveal t (remember u d' l) ≡ some d
reveal-remember_new t u d d' l absent h = ground (arith, reveal-remember t u d' l, token_eq_iff u t)

-- the display value that a list of entries has for a token
abbrev pub shown : Token → List Entry → Option String
shown t [] = none
shown t (e ∷ l) = let rest = shown t l in if token_eq e.token t then some e.display else rest

-- no entry has the token
abbrev pub IsNew : Token → List Entry → Type 0
IsNew t = All (λ e. token_eq e.token t ≡ false)

abbrev pub Distinct : List Entry → Type 0
Distinct [] = Unit
Distinct (e ∷ l) = IsNew e.token l × Distinct l

pub shown-IsNew : (t : Token) (l : List Entry) → IsNew t l → shown t l ≡ none
shown-IsNew t [] h = refl
shown-IsNew t (e ∷ l) h = ground (arith, h.0, shown-IsNew t l h.1)

pub shown-snoc :
    (t : Token) (l : List Entry) (e : Entry)
    → IsNew e.token l
    → shown t (l ++ e ∷ []) ≡ (if token_eq e.token t then some e.display else shown t l)
shown-snoc t [] e h = refl
shown-snoc t (x ∷ l) e h = ground (
  arith,
  h.0,
  shown-snoc t l e h.1,
  token_eq_iff x.token t,
  token_eq_iff e.token t,
  token_eq_iff x.token e.token,
)

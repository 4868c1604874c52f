-- ===== src/StateStore/AuditLog/Examples.antt =====
-- The theorems about the audit log with a concrete digest that has no collisions: an escaped text.
use Prim.Native.Char.{Char}
use netlog_ai.Prelude.{
  ℕ, zero, suc, String, ◌≡◌, ◌≢◌, refl, sym, ap, true, false, none, some, [], ◌∷◌, ◌++◌, arith, map,
}
use netlog_ai.StateStore.AuditLog.{
  Entry, AuditRow, AuditLog, head_hash, audit_append, verify_from, audit_verify,
}
use netlog_ai.StateStore.AuditLog.Chain.{
  covered, audit_append-verifies, audit_verify-first_broken, audit_verify-pins,
}

abbrev ended : Char
ended = "0"

abbrev more : Char
more = "1"

-- each character of `s` behind `more`, then `ended`, then `rest`
escaped : String → String → String
escaped String.[] rest = String.◌∷◌ ended rest
escaped (String.◌∷◌ c s) rest = String.◌∷◌ more (String.◌∷◌ c (escaped s rest))

tally : ℕ → String
tally zero = String.[]
tally (suc n) = String.◌∷◌ more (tally n)

ended_apart : (p q : String) → String.◌∷◌ ended p ≢ String.◌∷◌ more q
ended_apart p q h = absurd (omega (arith, first))
  where
    first : ◌≡◌ {A = ℕ} 48 49
    first = cc h

escaped-injective : (s t p q : String) → escaped s p ≡ escaped t q → (s ≡ t) × (p ≡ q)
unfolding escaped
escaped-injective String.[] String.[] p q h = (refl, cc h)
escaped-injective String.[] (String.◌∷◌ d t) p q h = absurd (ended_apart _ _ h)
escaped-injective (String.◌∷◌ c s) String.[] p q h = absurd (ended_apart _ _ (sym h))
escaped-injective (String.◌∷◌ c s) (String.◌∷◌ d t) p q h =
    let (front, rest) = escaped-injective s t p q (cc h) in (cc (h, front), rest)

tally-injective : (n m : ℕ) → tally n ≡ tally m → n ≡ m
unfolding tally
tally-injective zero zero h = refl
tally-injective zero (suc m) h = absurd (cc h)
tally-injective (suc n) zero h = absurd (cc h)
tally-injective (suc n) (suc m) h = ap suc (tally-injective n m (cc h))

abbrev serialised : String → Entry → String
serialised p e = escaped p (
    escaped (tally e.ts) (
      escaped e.actor (
        escaped e.role
          (escaped e.action (escaped e.target (escaped e.outcome (escaped e.remote e.detail)))))))

serialised-injective :
    (p q : String) (d e : Entry) → serialised p d ≡ serialised q e → (p ≡ q) × (d ≡ e)
serialised-injective p q d e h =
    let (same, h1) = escaped-injective p q _ _ h in
    let (ts, h2) = escaped-injective (tally d.ts) (tally e.ts) _ _ h1 in
    let (actor, h3) = escaped-injective d.actor e.actor _ _ h2 in
    let (role, h4) = escaped-injective d.role e.role _ _ h3 in
    let (action, h5) = escaped-injective d.action e.action _ _ h4 in
    let (target, h6) = escaped-injective d.target e.target _ _ h5 in
    let (outcome, h7) = escaped-injective d.outcome e.outcome _ _ h6 in
    let (remote, detail) = escaped-injective d.remote e.remote d.detail e.detail h7 in
    let stamp = tally-injective d.ts e.ts ts in
    (same, cc (stamp, actor, role, action, target, outcome, remote, detail))

abbrev entry : String → Entry
entry action = record {
  ts = 7;
  actor = "alice";
  role = "admin";
  action = action;
  target = "";
  outcome = "ok";
  remote = "";
  detail = "{}";
}

abbrev none_yet : AuditLog
none_yet = record { rows = []; next_id = 1 }

-- a log of one row
abbrev first : AuditRow
first = record {
  id = 1;
  entry = entry "login";
  prev_hash = "";
  hash = serialised "" (entry "login");
}

abbrev second : AuditRow
second = record {
  id = 2;
  entry = entry "logout";
  prev_hash = first.hash;
  hash = serialised first.hash (entry "logout");
}

abbrev forged : AuditRow
forged = record second { prev_hash = "" }

abbrev two : AuditLog
two = record { rows = first ∷ second ∷ []; next_id = 3 }

two_verify : (audit_verify serialised two).ok ≡ true
unfolding audit_verify verify_from escaped tally
two_verify = refl

audit_append-verifies_example :
    audit_verify serialised (audit_append serialised 9 (entry "reload") two).1
    ≡ record { ok = true; checked = 3; broken_at = none }
audit_append-verifies_example = audit_append-verifies serialised 9 (entry "reload") two two_verify

audit_verify-first_broken_example :
    audit_verify serialised (record { rows = (first ∷ []) ++ (forged ∷ second ∷ []); next_id = 4 })
    ≡ record { ok = false; checked = 1; broken_at = some 2 }
unfolding verify_from escaped tally
audit_verify-first_broken_example =
    audit_verify-first_broken serialised (first ∷ []) (second ∷ []) forged 4 refl
      (λ c. absurd (forged_apart c.0))
  where
    forged_apart : ¬ (forged.prev_hash ≡ head_hash (first ∷ []))
    forged_apart e = unfold head_hash in cc e

audit_verify-pins_example : map covered two.rows ≡ map covered two.rows
unfolding audit_verify
audit_verify-pins_example =
    audit_verify-pins serialised serialised-injective two (record two { next_id = 9 }) two_verify
      two_verify refl refl

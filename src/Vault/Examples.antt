-- ===== src/Vault/Examples.antt =====
-- Two addresses, one of them twice, and a vault that has room for one entity only.
use netlog_ai.Prelude.{ℕ, String, ◌≡◌, refl, some, List, [], ◌∷◌, arith, map}
use netlog_ai.Vault.{Request, plain_text, token_text, restore, token_for_all}
use netlog_ai.Vault.Valid.{IsValid, empty, empty-IsValid}
use netlog_ai.Vault.Exclusive.{Event, requested, expired, run, IsExclusive, run-IsExclusive}
use netlog_ai.Vault.RoundTrip.{restore-tokens}

abbrev ask : String → ℕ → Request
ask address now = record { kind = "IP"; key = address; display = address; now = now }

abbrev events : List Event
events =
    requested (ask "10.0.0.1" 1)
    ∷ requested (ask "10.0.0.2" 2)
    ∷ expired (some 5) 9
    ∷ requested (ask "10.0.0.1" 9)
    ∷ []

run-IsExclusive_example :
    IsExclusive (run events ([], empty 1)).0 × IsValid (run events ([], empty 1)).1
run-IsExclusive_example = run-IsExclusive 1 events (omega arith)

abbrev text : List Request
text = ask "10.0.0.1" 1 ∷ ask "10.0.0.2" 1 ∷ ask "10.0.0.1" 1 ∷ []

restore-tokens_example :
    map
      (λ t. restore (token_for_all text (empty 3)).1 (token_text t))
      (token_for_all text (empty 3)).0
    ≡ plain_text "10.0.0.1" ∷ plain_text "10.0.0.2" ∷ plain_text "10.0.0.1" ∷ []
restore-tokens_example =
    restore-tokens (λ kind key. key) text (empty 3) (empty-IsValid 3 (omega arith)) tt
      (refl, (refl, (refl, tt))) (omega arith)

-- ===== src/Sources/Examples.antt =====
-- The theorems about sources, for configurations that are an id and an address.
use netlog_ai.Prelude.{
  ◌≡◌, ◌⊎◌, refl, String, true, false, none, some, List, [], ◌∷◌, ◌&&◌, arith, str_eq, any, ◌==◌,
  lookup, insert,
}
use netlog_ai.Sources.{
  Configs, Manager, empty, Call, add_call, add, replace, close_then, is_same, shutdown, step, run,
}
use netlog_ai.Sources.Leaks.{is_in, Listed, run-loses_none}
use netlog_ai.Sources.Failures.{add-keeps_closed}

abbrev configs : Configs
configs = record {
  Config = String × String;
  id = λ c. c.0;
  same = λ a b. str_eq a.0 b.0 && str_eq a.1 b.1;
}

abbrev calls : List (Call configs)
calls =
    add_call true true ("loki", "http://a")
    ∷ add_call true true ("loki", "http://b")
    ∷ add_call true false ("loki", "http://c")
    ∷ []

run-loses_none_example :
    ((is_in 1 (run configs calls (empty configs)).closed ≡ true)
      ⊎ Listed configs 1 (run configs calls (empty configs)))
    × (is_in 1 (shutdown configs (run configs calls (empty configs))).closed ≡ true)
unfolding run step add replace close_then is_same empty lookup insert
run-loses_none_example = run-loses_none configs calls 1 (omega arith)

abbrev held : Manager configs
held = record {
  sources = ("loki", 0) ∷ [];
  configs = ("loki", ("loki", "http://a")) ∷ [];
  closed = [];
  next = 1;
}

add-keeps_closed_example :
    ((add configs true false ("loki", "http://b") held).0 ≡ none)
    × (any (λ n. n == 0) (add configs true false ("loki", "http://b") held).1.closed ≡ true)
    × ((add configs true false
          ("loki", "http://a")
          (add configs true false ("loki", "http://b") held).1).0
        ≡ some 0)
unfolding lookup
add-keeps_closed_example =
    add-keeps_closed configs held ("loki", "http://a") ("loki", "http://b") 0 refl refl refl refl
      refl

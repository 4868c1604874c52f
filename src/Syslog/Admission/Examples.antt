-- ===== src/Syslog/Admission/Examples.antt =====
-- The limits at work: two connections in all, one for each sender.
use netlog_ai.Prelude.{String, Bool, true, List, [], ◌∷◌}
use netlog_ai.Syslog.Admission.{Event, connected, ended, no_conns, serve_all}
use netlog_ai.Syslog.Admission.Limits.{IsExact, serve_all_lem}

abbrev everyone : String → Bool
everyone sender = true

abbrev events : List Event
events =
    connected "10.0.0.1"
    ∷ connected "10.0.0.1"
    ∷ connected "10.0.0.2"
    ∷ connected "10.0.0.3"
    ∷ ended "10.0.0.1"
    ∷ connected "10.0.0.3"
    ∷ []

serve_all_lem_example : IsExact 2 1 everyone (serve_all 2 1 everyone events ([], no_conns))
serve_all_lem_example = serve_all_lem 2 1 everyone events

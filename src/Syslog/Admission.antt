-- ===== src/Syslog/Admission.antt =====
-- The admission of connections in `_handle_conn`: the allow list, the two limits, and the `finally` block.
-- `_allowed` is a parameter, since the networks are those of `ipaddress`.
pub mod Limits
mod Examples
use netlog_ai.Prelude.{
  ℕ, ◌+◌, ◌-◌, String, Bool, true, false, not, ◌&&◌, Option, none, some, List, [], ◌∷◌, ltb, leb,
  str_eq, if◌then◌else◌, any, Dict, lookup, insert, erase,
}

pub record Conns : Type 0 where
  pub active_conns : ℕ
  pub conns_by_ip : Dict ℕ
  pub rejected_sender : ℕ
  pub rejected_conn_limit : ℕ
  pub rejected_ip_limit : ℕ
  pub connections : ℕ

abbrev pub no_conns : Conns
no_conns = record {
  active_conns = 0;
  conns_by_ip = [];
  rejected_sender = 0;
  rejected_conn_limit = 0;
  rejected_ip_limit = 0;
  connections = 0;
}

abbrev pub or_zero : Option ℕ → ℕ
or_zero none = 0
or_zero (some n) = n

-- the Counter's entry of a sender
abbrev pub of_ip : String → Conns → ℕ
of_ip sender c = or_zero (lookup sender c.conns_by_ip)

-- the `finally` block of a served connection
pub release : String → Conns → Conns
release sender c = record c {
  active_conns = c.active_conns - 1;
  conns_by_ip =
      if leb (of_ip sender c) 1
      then erase sender c.conns_by_ip
      else insert sender (of_ip sender c - 1) c.conns_by_ip;
}

-- what happens to the listener: a sender connects, or a connection of a sender ends
pub data Event : Type 0 where
  connected ended : String → Event

-- one of the open connections of the sender is gone
pub without_one : String → List String → List String
without_one sender [] = []
without_one sender (s ∷ l) =
    let rest = without_one sender l in if str_eq s sender then l else s ∷ rest

module _ (max_connections max_connections_per_ip : ℕ) (allowed : String → Bool) where
  -- whether the connection is served, and the counters
  pub admit : String → Conns → Bool × Conns
  admit sender c =
      if not (allowed sender)
      then (false, record c { rejected_sender = c.rejected_sender + 1 })
      else if leb max_connections c.active_conns
      then (false, record c { rejected_conn_limit = c.rejected_conn_limit + 1 })
      else if ltb 0 max_connections_per_ip && leb max_connections_per_ip (of_ip sender c)
      then (false, record c { rejected_ip_limit = c.rejected_ip_limit + 1 })
      else (
        true,
        record c {
          active_conns = c.active_conns + 1;
          conns_by_ip = insert sender (of_ip sender c + 1) c.conns_by_ip;
          connections = c.connections + 1;
        },
      )

  -- the senders of the open connections, and the counters
  pub serve : Event → List String × Conns → List String × Conns
  serve (connected sender) (now_open, c) =
      let (ok, c') = admit sender c in (if ok then sender ∷ now_open else now_open, c')
  serve (ended sender) (now_open, c) =
      if any (λ s. str_eq s sender) now_open
      then (without_one sender now_open, release sender c)
      else (now_open, c)

  pub serve_all : List Event → List String × Conns → List String × Conns
  serve_all [] s = s
  serve_all (e ∷ es) s = serve_all es (serve e s)

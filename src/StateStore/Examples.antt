-- ===== src/StateStore/Examples.antt =====
-- The theorems about state_store.py at concrete tables.
use mathlib.Core.Option
use netlog_ai.Prelude.{
  ℕ, ◌+◌, String, ◌≡◌, ◌≢◌, refl, true, false, none, some, List, [], ◌∷◌, arith, lookup, inl,
  if◌then◌else◌, str_eq, ap, sym, eq_iff,
}
use netlog_ai.StateStore.Spool.{Row, Line, Spool, of_source, newest, meta_of, spool_append}
use netlog_ai.StateStore.Spool.Order.{Between}
use netlog_ai.StateStore.Spool.Prune.{backlog}
use netlog_ai.StateStore.Spool.Append.{due, stored, pending_of, IsAccurate}
use netlog_ai.StateStore.Spool.Invariant.{
  IsValid, spool_append-window, spool_append-backlog, spool_append-IsValid,
}
use netlog_ai.StateStore.Lease.{Leases, lease_acquire, lease_valid}
use netlog_ai.StateStore.Lease.Exclusion.{
  acquire, release, attempts, lease_acquire-excludes, lease_acquire-expires,
}
use netlog_ai.StateStore.Tickets.{Ticket, Tickets, triage_get, triage_put}
use netlog_ai.StateStore.Tickets.Laws.{triage_put_fenced}
use netlog_ai.StateStore.Incidents.{Incident, Journal}
use netlog_ai.StateStore.Incidents.Appends.{IsOrdered}

abbrev line : String → Line
line text = record { received_at = 10; sender = "10.0.0.1"; line = text }

abbrev row : ℕ → String → Row
row id text = record { id = id; source = "tcp"; received_at = 9; sender = "10.0.0.1"; line = text }

-- two rows of one source, the first of them read
abbrev two_rows : Spool
two_rows = record {
  table = row 1 "a" ∷ row 2 "b" ∷ [];
  next_id = 3;
  counts = ("tcp", record { rows = 2; pruned = 0; lost_unread = 0 }) ∷ [];
  prune_counter = ("tcp", 2) ∷ [];
  cursors = ("tcp", some 1) ∷ [];
}

two_rows-IsOrdered : Between 0 two_rows.next_id two_rows.table
two_rows-IsOrdered = (omega arith, omega arith)

abbrev more : List Line
more = line "d" ∷ []

some-injective {ℓ} : {A : Type ℓ} (a b : A) → some a ≡ some b → a ≡ b
some-injective a b h = ap (λ o. elim o [ none ↦ a | some x ↦ x ]) h

two_rows-IsAccurate : IsAccurate "tcp" two_rows
unfolding lookup
two_rows-IsAccurate m h = sym (ap (λ x. x.rows) (some-injective _ m h))

abbrev udp : String
udp = "udp"

abbrev tcp : String
tcp = "tcp"

udp_ne : udp ≢ tcp
udp_ne e = ground (arith, eq_iff udp tcp)

spool_append-window_example :
    (of_source tcp (spool_append tcp (line "c" ∷ more) 2 two_rows).1.table ≡ (
      if due (pending_of tcp (line "c" ∷ more) two_rows) 2
      then newest 2 (stored tcp (line "c" ∷ more) two_rows)
      else stored tcp (line "c" ∷ more) two_rows))
    × (of_source udp (spool_append tcp (line "c" ∷ more) 2 two_rows).1.table
        ≡ of_source udp two_rows.table)
spool_append-window_example =
    spool_append-window tcp (line "c") more 2 two_rows two_rows-IsOrdered two_rows-IsAccurate udp
      udp_ne

spool_append-backlog_example :
    (meta_of tcp (spool_append tcp (line "c" ∷ more) 2 two_rows).1).lost_unread
      + backlog
          (lookup tcp two_rows.cursors)
          (of_source tcp (spool_append tcp (line "c" ∷ more) 2 two_rows).1.table)
    ≡ (meta_of tcp two_rows).lost_unread
      + backlog (lookup tcp two_rows.cursors) (stored tcp (line "c" ∷ more) two_rows)
spool_append-backlog_example =
    spool_append-backlog tcp (line "c") more 2 two_rows two_rows-IsOrdered two_rows-IsAccurate

abbrev empty : Spool
empty = record { table = []; next_id = 1; counts = []; prune_counter = []; cursors = [] }

empty-IsValid : IsValid 2 empty
unfolding lookup
empty-IsValid = record {
  ordered = omega arith;
  accurate = λ src m h. absurd (ground arith);
  bounded = λ src. omega arith;
  small = λ src. omega arith;
}

spool_append-IsValid_example : IsValid 2 (spool_append tcp (line "a" ∷ line "c" ∷ more) 2 empty).1
spool_append-IsValid_example =
    spool_append-IsValid 2 tcp empty empty-IsValid (line "a" ∷ line "c" ∷ more)

-- one lease, held by "a" from 100 to 130
abbrev none_held : Leases
none_held = []

abbrev lease : String
lease = "triage-worker"

abbrev a : String
a = "a"

abbrev b : String
b = "b"

abbrev c : String
c = "c"

b_ne : b ≢ a
b_ne e = ground (arith, eq_iff b a)

c_ne : c ≢ a
c_ne e = ground (arith, eq_iff c a)

lease_acquire-excludes_example :
    (attempts lease 30
        (acquire b 110 ∷ release c ∷ acquire c 120 ∷ [])
        (lease_acquire lease a 30 100 none_held).1
      ≡ (false, (lease_acquire lease a 30 100 none_held).1))
    × (lease_valid lease a 129 (lease_acquire lease a 30 100 none_held).1 ≡ true)
    × (lease_valid lease b 129 (lease_acquire lease a 30 100 none_held).1 ≡ false)
lease_acquire-excludes_example =
    lease_acquire-excludes lease a 30 100 none_held (acquire b 110 ∷ release c ∷ acquire c 120 ∷ [])
      b 129 (unfold lease_acquire lookup in refl)
      ((b_ne, omega arith, omega arith), (c_ne, ((c_ne, omega arith, omega arith), tt))) b_ne
      (omega arith)

lease_acquire-expires_example :
    (lease_acquire lease b 30 130 (lease_acquire lease a 30 100 none_held).1).0 ≡ true
lease_acquire-expires_example =
    lease_acquire-expires lease a 30 100 none_held b 130 (unfold lease_acquire lookup in refl)
      (inl (omega arith))

abbrev ticket : String → String → ℕ → Ticket
ticket fp state seen = record {
  fingerprint = fp;
  first_seen = 1;
  last_seen = seen;
  last_sent = 1;
  severity = "high";
  event_count = 3;
  last_event_at = 1;
  sends = 1;
  held = 0;
  state = state;
  title = "BGP down";
  refs = [];
}

abbrev tickets : Tickets
tickets = ("f", ticket "f" "recovered" 5) ∷ ("g", ticket "g" "active" 5) ∷ []

triage_put_fenced_example :
    Option.map
      (triage_get b)
      (triage_put (some (lease, a)) 110 (ticket b "active" 9) none_held tickets)
    ≡ (if lease_valid lease a 110 none_held
        then some (if str_eq b b then some (ticket b "active" 9) else triage_get b tickets)
        else none)
triage_put_fenced_example = triage_put_fenced lease a b 110 (ticket b "active" 9) none_held tickets

abbrev incident : String → Incident
incident text = record {
  description = text;
  severity = "high";
  category = "bgp";
  devices = [];
  count = 1;
  sample_messages = [];
  generated_at = "";
}

abbrev journal : Journal
journal = record {
  rows = record { id = 1; incident = incident "x"; resolution = none } ∷ [];
  next_id = 2;
}

journal-IsOrdered : IsOrdered journal
journal-IsOrdered = (omega arith, omega arith)

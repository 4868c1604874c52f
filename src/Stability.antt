-- ===== src/Stability.antt =====
-- stability.py: flaps, bursts and trends of devices, and their scores. Parameters are what other modules
-- parse out of a time stamp (the minute of an event, and the order of minutes) and Python's rounding.
pub mod Bounds
pub mod Flips
pub mod Report
mod Examples
use netlog_ai.Prelude.{
  ℕ, suc, ◌+◌, ◌-◌, ◌*◌, ◌/◌, min, ◌&&◌, ◌||◌, not, String, Bool, true, false, Option, none, some,
  List, [], ◌∷◌, ◌++◌, leb, ltb, ◌==◌, str_eq, if◌then◌else◌, length, keep, take, drop, map,
  get_elem?, last?, Dict, lookup, insert, erase, Pair, PairDict, get_pair, set_pair,
}
use netlog_ai.Prelude.Sort.{sort}
use netlog_ai.EntityState.Key.{Event, EntityKey, entity_key}

-- _DOWN_DESCRIPTIONS
abbrev pub down_descriptions : Dict String
down_descriptions =
    ("Interface link down", "interface")
    ∷ ("BGP peer down / connect failure", "bgp")
    ∷ ("BGP peer idle / notification", "bgp")
    ∷ ("BGP notification / adjacency down (FRR/IOS)", "bgp")
    ∷ ("OSPF neighbor state change", "ospf")
    ∷ ("OSPF adjacency loss (FRR/IOS)", "ospf")
    ∷ ("BFD session down", "bfd")
    ∷ ("LACP/LAG member down", "lag")
    ∷ ("LAG member leaving bundle", "lag")
    ∷ ("VPN/IPsec tunnel failure", "vpn")
    ∷ ("VRRP/gateway failover", "redundancy")
    ∷ ("IS-IS adjacency down", "isis")
    ∷ ("IS-IS adjacency change", "isis")
    ∷ ("LDP neighbor/session down", "ldp")
    ∷ ("STP root/loop/BPDU guard block", "stp")
    ∷ []

-- _UP_DESCRIPTIONS
abbrev pub up_descriptions : Dict String
up_descriptions =
    ("Interface link up", "interface")
    ∷ ("BGP peer established", "bgp")
    ∷ ("OSPF neighbor established", "ospf")
    ∷ ("LAG member joining bundle", "lag")
    ∷ ("IS-IS adjacency up", "isis")
    ∷ ("LDP neighbor/session up", "ldp")
    ∷ ("STP guard recovered", "stp")
    ∷ []

abbrev pub max_buckets_per_host : ℕ
max_buckets_per_host = 512

abbrev pub max_entities_per_host : ℕ
max_entities_per_host = 1024

abbrev pub arrival_bucket_size : ℕ
arrival_bucket_size = 200

pub data Direction : Type 0 where
  down up : Direction

-- keys are (entity class, entity id); the id is empty where the event names none
pub record DeviceState : Type 0 where
  pub transitions : PairDict ℕ
  pub last_state : PairDict Direction
  pub downs : PairDict ℕ
  pub criticals : ℕ
  pub highs : ℕ
  pub total : ℕ
  pub buckets : Dict ℕ

abbrev pub new_device : DeviceState
new_device = record {
  transitions = [];
  last_state = [];
  downs = [];
  criticals = 0;
  highs = 0;
  total = 0;
  buckets = [];
}

-- what this module reads of a classified event
pub record Classified : Type 0 where
  pub event : Event
  pub severity : String
  pub description : String

-- d[key] = d.get(key, 0) + 1
abbrev pub or_zero : Option ℕ → ℕ
or_zero none = 0
or_zero (some n) = n

pub count_pair : Pair → PairDict ℕ → PairDict ℕ
count_pair k m = set_pair k (suc (or_zero (get_pair k m))) m

-- `_entity`; `lower` is str.lower
pub entity : (String → String) → DeviceState → String → Classified → Pair
entity lower st cls e =
    let ident : String = elim (entity_key lower e.event) [ none ↦ "" | some k ↦ k.ident ] in
    elim (get_pair (cls, ident) st.last_state) [
      | some d ↦ (cls, ident)
      | none ↦
          if not (str_eq ident "") && leb max_entities_per_host (length st.last_state)
          then (cls, "")
          else (cls, ident)
    ]

abbrev pub is_flip : Direction → Option Direction → Bool
is_flip d none = false
is_flip down (some down) = false
is_flip down (some up) = true
is_flip up (some down) = true
is_flip up (some up) = false

-- the change of state of one entity
pub note : Direction → Pair → DeviceState → DeviceState
note d k st = record st {
  transitions =
      if is_flip d (get_pair k st.last_state) then count_pair k st.transitions else st.transitions;
  last_state = set_pair k d st.last_state;
}

-- the event as a state of its entity, if it is one
pub add_state : (String → String) → Classified → DeviceState → DeviceState
add_state lower e st = elim (lookup e.description down_descriptions) [
  | some cls ↦
      let k = entity lower st cls e in note down k (record st { downs = count_pair k st.downs })
  | none ↦ elim (lookup e.description up_descriptions) [
    | some cls ↦ note up (entity lower st cls e) st
    | none ↦ st
  ]
]

abbrev pub add_severity : Classified → DeviceState → DeviceState
add_severity e st =
    let counted = record st { total = suc st.total } in
    if str_eq e.severity "critical"
    then record counted { criticals = suc st.criticals }
    else if str_eq e.severity "high"
    then record counted { highs = suc st.highs }
    else counted

-- min(st.buckets, key=_bucket_order): the first of the least; `earlier` is the strict order
pub oldest : (String → String → Bool) → String → Dict ℕ → String
oldest earlier best [] = best
oldest earlier best ((k, n) ∷ l) = oldest earlier (if earlier k best then k else best) l

-- del st.buckets[min(…)]
pub drop_oldest : (String → String → Bool) → Dict ℕ → Dict ℕ
drop_oldest earlier [] = []
drop_oldest earlier ((k, n) ∷ l) = erase (oldest earlier k l) ((k, n) ∷ l)

pub add_bucket : (String → String → Bool) → String → DeviceState → DeviceState
add_bucket earlier key st =
    let more = insert key (suc (or_zero (lookup key st.buckets))) st.buckets in
    record st {
      buckets = if ltb max_buckets_per_host (length more) then drop_oldest earlier more else more;
    }

-- What the tracker needs of other modules: `str.lower`, the minute of a stamp, the name of an arrival
-- bucket and the order of buckets.
pub record Stamps : Type 0 where
  pub lower : String → String
  pub minute : String → String
  pub arrival : ℕ → String
  pub earlier : String → String → Bool

pub record Tracker : Type 0 where
  pub devices : Dict DeviceState
  pub seq : ℕ

abbrev pub nothing_seen : Tracker
nothing_seen = record { devices = []; seq = 0 }

abbrev pub device_or_new : Option DeviceState → DeviceState
device_or_new none = new_device
device_or_new (some st) = st

-- what `add` makes of a device
pub add_to_device : Stamps → ℕ → Classified → DeviceState → DeviceState
add_to_device s seq e st =
    let key =
      if str_eq e.event.timestamp ""
      then s.arrival (seq / arrival_bucket_size)
      else s.minute e.event.timestamp in
    add_bucket s.earlier key (add_state s.lower e (add_severity e st))

pub add : Stamps → Classified → Tracker → Tracker
add s e t = if str_eq e.event.hostname "" then t else record {
  devices =
      insert e.event.hostname
        (add_to_device s t.seq e (device_or_new (lookup e.event.hostname t.devices))) t.devices;
  seq = suc t.seq;
}

pub add_all : Stamps → List Classified → Tracker → Tracker
add_all s [] t = t
add_all s (e ∷ es) t = add_all s es (add s e t)

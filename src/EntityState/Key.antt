-- ===== src/EntityState/Key.antt =====
-- `entity_key`: the identity of the network object that an event is about. `str.lower` is a parameter.
use netlog_ai.Prelude.{
  String, ◌≡◌, ◌↔◌, Bool, true, ◌&&◌, ◌||◌, Option, none, some, [], ◌∷◌, arith, str_eq, eq_iff,
  if◌then◌else◌, Dict, lookup, or_text, join,
}

-- what this module reads of a classified event
pub record Event : Type 0 where
  pub event_type : String
  pub state : String
  pub hostname : String
  pub vendor : String
  pub timestamp : String
  pub peer_ip : String
  pub vrf : String
  pub interface : String
  pub tunnel_id : String
  pub healthcheck : String
  pub neighbor : String

-- (hostname, kind, id)
pub record EntityKey : Type 0 where
  pub hostname : String
  pub kind : String
  pub ident : String

pub key_eq : EntityKey → EntityKey → Bool
key_eq a b = str_eq a.hostname b.hostname && (str_eq a.kind b.kind && str_eq a.ident b.ident)

pub key_eq_iff : (a b : EntityKey) → (key_eq a b ≡ true) ↔ (a ≡ b)
unfolding key_eq
key_eq_iff a b =
    ground (arith, eq_iff a.hostname b.hostname, eq_iff a.kind b.kind, eq_iff a.ident b.ident)

-- _KIND_BY_EVENT_TYPE
abbrev pub kind_by_event_type : Dict String
kind_by_event_type =
    ("bgp_session", "bgp")
    ∷ ("bgp_max_prefix", "bgp")
    ∷ ("interface_link", "intf")
    ∷ ("ipsec_tunnel", "tunnel")
    ∷ ("ike_phase1", "tunnel")
    ∷ ("ike_phase2", "tunnel")
    ∷ ("sdwan_sla", "sla")
    ∷ ("bfd_session", "bfd")
    ∷ ("omp_peer", "omp")
    ∷ ("control_connection", "control")
    ∷ ("ospf_adjacency", "ospf")
    ∷ ("isis_adjacency", "isis")
    ∷ ("ldp_session", "ldp")
    ∷ ("lag_member", "lag")
    ∷ ("conserve_mode", "conserve")
    ∷ []

abbrev is_one_of : String → String → String → Bool
is_one_of k a b = str_eq k a || str_eq k b

-- the identity within its kind; empty where the event names none
unfoldable pub ident_of : String → Event → String
ident_of kind ev =
    if str_eq kind "bgp"
    then (if str_eq ev.peer_ip ""
        then ""
        else join (or_text ev.vrf "default") (join "|" ev.peer_ip))
    else if is_one_of kind "intf" "lag"
    then ev.interface
    else if str_eq kind "tunnel"
    then or_text ev.tunnel_id ev.peer_ip
    else if str_eq kind "sla"
    then (if str_eq ev.healthcheck "" && str_eq ev.interface ""
        then ""
        else join ev.healthcheck (join "|" ev.interface))
    else if is_one_of kind "bfd" "control"
    then or_text ev.tunnel_id ev.peer_ip
    else if is_one_of kind "omp" "ospf"
    then or_text ev.peer_ip ev.interface
    else if str_eq kind "isis"
    then or_text ev.interface ev.neighbor
    else if str_eq kind "ldp"
    then or_text ev.peer_ip ev.interface
    else "memory"

unfoldable pub entity_key : (String → String) → Event → Option EntityKey
entity_key lower ev = elim (lookup ev.event_type kind_by_event_type) [
  | none ↦ none
  | some kind ↦
      let ident = ident_of kind ev in
      if str_eq ident ""
      then none
      else some (record { hostname = lower ev.hostname; kind = kind; ident = lower ident })
]

-- ===== src/Stability/Bounds.antt =====
-- About what `StabilityTracker.add` keeps of a device.
use netlog_ai.Prelude.{
  ℕ, suc, ◌+◌, ◌≤◌, ◌<◌, ◌≡◌, refl, sym, ap, subst, ◌∙◌, String, Bool, true, false, ◌&&◌, not, none,
  some, List, [], ◌∷◌, arith, leb, str_eq, eq_iff, if◌then◌else◌, inl, inr, ◌⊎◌, Bool-cases,
  Option-cases, any, keep, Dict, lookup, insert, erase, length, length-insert-le, length-keep-le,
  All, All-insert, All-lookup, Pair, PairDict, get_pair, set_pair, count-set_pair,
}
use netlog_ai.EntityState.Key.{entity_key}
use netlog_ai.Stability.{
  DeviceState, Direction, down, up, Classified, Stamps, Tracker, max_buckets_per_host,
  max_entities_per_host, down_descriptions, up_descriptions, or_zero, entity, note, oldest,
  drop_oldest, add_state, add_severity, add_bucket, add_to_device, add, add_all, device_or_new,
}

-- an entity that an event names
abbrev named : Pair → Bool
named k = not (str_eq k.1 "")

abbrev named_count : PairDict Direction → ℕ
named_count m = length (keep (λ row. named row.0) m)

pub record IsBounded (st : DeviceState) : Type 0 where
  pub entities : named_count st.last_state ≤ max_entities_per_host
  pub buckets : length st.buckets ≤ max_buckets_per_host

has : String → Dict ℕ → Bool
has k = any (λ row. str_eq row.0 k)

length-erase-le : (k : String) (m : Dict ℕ) → length (erase k m) ≤ length m
unfolding erase
length-erase-le k [] = omega arith
length-erase-le k ((j, n) ∷ m) = ground (arith, length-erase-le k m)

length-erase-lt : (k : String) (m : Dict ℕ) → has k m ≡ true → length (erase k m) < length m
unfolding erase has
length-erase-lt k [] h = absurd (ground arith)
length-erase-lt k ((j, n) ∷ m) h = ground (arith, h, length-erase-lt k m, length-erase-le k m)

has-oldest :
    (earlier : String → String → Bool) (x best : String) (n : ℕ) (l : Dict ℕ)
    → x ≡ oldest earlier best l
    → has x ((best, n) ∷ l) ≡ true
unfolding oldest has
has-oldest earlier x best n [] p = ground (arith, p, eq_iff best x)
has-oldest earlier x best n ((k, m) ∷ l) p = elim (Bool-cases (earlier k best)) [
  | inl e ↦
      let found =
        has-oldest earlier x k m l (p ∙ ap (λ b. oldest earlier (if b then k else best) l) e) in
      ground (arith, found)
  | inr e ↦
      let found =
        has-oldest earlier x best n l (p ∙ ap (λ b. oldest earlier (if b then k else best) l) e) in
      ground (arith, found)
]

length-drop_oldest :
    (earlier : String → String → Bool) (m : Dict ℕ)
    → length m ≤ max_buckets_per_host + 1
    → length (drop_oldest earlier m) ≤ max_buckets_per_host
unfolding drop_oldest
length-drop_oldest earlier [] h = omega arith
length-drop_oldest earlier ((k, n) ∷ l) h = omega (
  arith,
  length-erase-lt (oldest earlier k l) ((k, n) ∷ l)
      (has-oldest earlier (oldest earlier k l) k n l refl),
)

add_bucket-buckets :
    (earlier : String → String → Bool) (key : String) (st : DeviceState)
    → length st.buckets ≤ max_buckets_per_host
    → length (add_bucket earlier key st).buckets ≤ max_buckets_per_host
unfolding add_bucket
add_bucket-buckets earlier key st h =
    let n = suc (or_zero (lookup key st.buckets)) in
    let more = insert key n st.buckets in
    ground (arith, h, length-insert-le key n st.buckets, length-drop_oldest earlier more)

entity-cases :
    (lower : String → String) (cls : String) (e : Classified) (st : DeviceState)
    → ((d : Direction) × (get_pair (entity lower st cls e) st.last_state ≡ some d))
      ⊎ (named (entity lower st cls e) ≡ false)
      ⊎ (length st.last_state < max_entities_per_host)
unfolding entity
entity-cases lower cls e st =
    let ident : String = elim (entity_key lower e.event) [ none ↦ "" | some k ↦ k.ident ] in
    elim (Option-cases (get_pair (cls, ident) st.last_state)) [
      | inr (d, known) ↦ rw (known, entity) (inl (d, known))
      | inl new ↦
          elim (Bool-cases
            (not (str_eq ident "") && leb max_entities_per_host (length st.last_state))) [
              | inl full ↦ rw (new, entity, full) (inr (inl (ground (arith, eq_iff "" ""))))
              | inr room ↦
                  rw (new, entity, room)
                    (elim (Bool-cases (str_eq ident "")) [
                      | inl nameless ↦ inr (inl (ground (arith, nameless)))
                      | inr e_named ↦ inr (inr (ground (arith, room, e_named)))
                    ])
            ]
    ]

note-entities :
    (d : Direction) (lower : String → String) (cls : String) (e : Classified) (st : DeviceState)
    → named_count st.last_state ≤ max_entities_per_host
    → named_count (set_pair (entity lower st cls e) d st.last_state) ≤ max_entities_per_host
note-entities d lower cls e st h =
    let k = entity lower st cls e in
    let after = count-set_pair named k d st.last_state in
    let few = length-keep-le (λ row. named row.0) st.last_state in
    elim (entity-cases lower cls e st) [
      | inl (old, known) ↦ ground (arith, after, known, h)
      | inr (inl nameless) ↦ ground (arith, after, nameless, h)
      | inr (inr room) ↦ elim (Option-cases (get_pair k st.last_state)) [
        | inl new ↦ ground (arith, after, new, few, room, h)
        | inr (old, known) ↦ ground (arith, after, known, h)
      ]
    ]

add_state-IsBounded :
    (lower : String → String) (e : Classified) (st : DeviceState)
    → IsBounded st
    → IsBounded (add_state lower e st)
unfolding add_state note
add_state-IsBounded lower e st b = elim (Option-cases (lookup e.description down_descriptions)) [
  | inr (cls, downwards) ↦
      rw (downwards, add_state)
        (record { entities = note-entities down lower cls e st b.entities; buckets = b.buckets })
  | inl no_down ↦ elim (Option-cases (lookup e.description up_descriptions)) [
    | inr (cls, upwards) ↦
        rw (no_down, add_state, upwards)
          (record { entities = note-entities up lower cls e st b.entities; buckets = b.buckets })
    | inl no_up ↦ rw (no_down, add_state, no_up) b
  ]
]

add_severity-keeps :
    (e : Classified) (st : DeviceState)
    → ((add_severity e st).last_state ≡ st.last_state) × ((add_severity e st).buckets ≡ st.buckets)
add_severity-keeps e st = ground arith

add_bucket-keeps :
    (earlier : String → String → Bool) (key : String) (st : DeviceState)
    → (add_bucket earlier key st).last_state ≡ st.last_state
unfolding add_bucket
add_bucket-keeps earlier key st = refl

add_to_device-IsBounded :
    (s : Stamps) (seq : ℕ) (e : Classified) (st : DeviceState)
    → IsBounded st
    → IsBounded (add_to_device s seq e st)
unfolding add_to_device
add_to_device-IsBounded s seq e st b =
    let (same_states, same_buckets) = add_severity-keeps e st in
    let severe : IsBounded (add_severity e st) = record {
      entities = subst (λ m. named_count m ≤ max_entities_per_host) (sym same_states) b.entities;
      buckets = omega (arith, b.buckets, ap length same_buckets);
    } in
    let stated = add_state s.lower e (add_severity e st) in
    let b' = add_state-IsBounded s.lower e (add_severity e st) severe in
    record {
      entities =
          subst (λ m. named_count m ≤ max_entities_per_host)
            (sym (add_bucket-keeps s.earlier _ stated)) b'.entities;
      buckets = add_bucket-buckets s.earlier _ stated b'.buckets;
    }

device_or_new-IsBounded :
    (name : String) (m : Dict DeviceState)
    → All (λ row. IsBounded row.1) m
    → IsBounded (device_or_new (lookup name m))
device_or_new-IsBounded name m h = elim (Option-cases (lookup name m)) [
  | inl new ↦ rw (new, device_or_new) (record { entities = omega arith; buckets = omega arith })
  | inr (st, known) ↦ rw (known, device_or_new) (All-lookup IsBounded name st m known h)
]

add-IsBounded :
    (s : Stamps) (e : Classified) (t : Tracker)
    → All (λ row. IsBounded row.1) t.devices
    → All (λ row. IsBounded row.1) (add s e t).devices
unfolding add
add-IsBounded s e t h = elim (Bool-cases (str_eq e.event.hostname "")) [
  | inl nameless ↦ rw (nameless, add) h
  | inr has_name ↦
      let st = device_or_new (lookup e.event.hostname t.devices) in
      rw (has_name, add)
        (All-insert IsBounded e.event.hostname (add_to_device s t.seq e st) t.devices
          (add_to_device-IsBounded s t.seq e st
            (device_or_new-IsBounded e.event.hostname t.devices h))
          h)
]

-- Each event leaves every device within its limits: no more than 1024 entities that have an id of their
-- own, and no more than 512 minutes. So a tracker that starts empty is within them after any events.
pub add_all-IsBounded :
    (s : Stamps) (es : List Classified) (t : Tracker)
    → All (λ row. IsBounded row.1) t.devices
    → All (λ row. IsBounded row.1) (add_all s es t).devices
unfolding add_all
add_all-IsBounded s [] t h = h
add_all-IsBounded s (e ∷ es) t h = add_all-IsBounded s es (add s e t) (add-IsBounded s e t h)

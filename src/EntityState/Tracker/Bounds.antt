-- ===== src/EntityState/Tracker/Bounds.antt =====
-- The tracker's memory is bounded, its keys are distinct, and evictions are counted.
use mathlib.Core.Option
use netlog_ai.Prelude.{
  ℕ, suc, ◌+◌, ◌≤◌, ◌<◌, ◌≡◌, refl, ap, subst, false, Option, none, some, List, [], ◌∷◌, ◌++◌,
  arith, leb, length, length-append, length-drop, drop, All, All-append, All-keep, inl, inr, last?,
  last?-snoc, Bool-cases, Option-cases,
}
use netlog_ai.EntityState.Key.{Event, EntityKey, key_eq, key_eq_iff}
use netlog_ai.EntityState.Tracker.{
  Transition, Slot, Tracker, find, without, push_transition, pop_oldest, make_room, new_slot,
  put_last, record_transition,
}

-- no entry has the key
abbrev pub IsAbsent : EntityKey → List (EntityKey × Slot) → Type 0
IsAbsent k = All (λ e. key_eq e.0 k ≡ false)

-- no key stands twice
abbrev pub Distinct : List (EntityKey × Slot) → Type 0
Distinct [] = Unit
Distinct (e ∷ l) = IsAbsent e.0 l × Distinct l

-- an entity has at least one transition, and at most the limit
abbrev pub Fits : ℕ → EntityKey × Slot → Type 0
Fits limit e = (0 < length e.1.transitions) × (length e.1.transitions ≤ limit)

pub record IsValid (t : Tracker) : Type 0 where
  pub room : 0 < t.max_entities
  pub depth : 0 < t.max_transitions
  pub bounded : length t.entities ≤ t.max_entities
  pub distinct : Distinct t.entities
  pub fits : All (Fits t.max_transitions) t.entities

key_eq_sym : (a b : EntityKey) → key_eq a b ≡ false → key_eq b a ≡ false
key_eq_sym a b h = ground (arith, key_eq_iff a b, key_eq_iff b a)

find-IsAbsent : (k : EntityKey) (l : List (EntityKey × Slot)) → find k l ≡ none → IsAbsent k l
unfolding find
find-IsAbsent k [] h = tt
find-IsAbsent k ((j, s) ∷ l) h = (ground arith, find-IsAbsent k l (ground arith))

without_absent : (k : EntityKey) (l : List (EntityKey × Slot)) → IsAbsent k l → without k l ≡ l
without_absent k [] h = refl
without_absent k (e ∷ l) h = rw h.0 (ap (◌∷◌ e) (without_absent k l h.1))

without-IsAbsent : (k : EntityKey) (l : List (EntityKey × Slot)) → IsAbsent k (without k l)
without-IsAbsent k [] = tt
without-IsAbsent k (e ∷ l) = elim (Bool-cases (key_eq e.0 k)) [
  | inl h ↦ rw h (without-IsAbsent k l)
  | inr h ↦ rw h (h, without-IsAbsent k l)
]

without-Distinct :
    (k : EntityKey) (l : List (EntityKey × Slot)) → Distinct l → Distinct (without k l)
without-Distinct k [] h = tt
without-Distinct k (e ∷ l) h = elim (Bool-cases (key_eq e.0 k)) [
  | inl q ↦ rw q (without-Distinct k l h.1)
  | inr q ↦ rw q (All-keep (λ x. key_eq x.0 e.0 ≡ false) _ l h.0, without-Distinct k l h.1)
]

Distinct-snoc :
    (k : EntityKey) (s : Slot) (l : List (EntityKey × Slot))
    → IsAbsent k l
    → Distinct l
    → Distinct (l ++ (k, s) ∷ [])
Distinct-snoc k s [] h d = (tt, tt)
Distinct-snoc k s (e ∷ l) h d = (
  All-append (λ x. key_eq x.0 e.0 ≡ false) l ((k, s) ∷ []) d.0 (key_eq_sym e.0 k h.0, tt),
  Distinct-snoc k s l h.1 d.1,
)

-- a key that is found stands once
length-without :
    (k : EntityKey) (l : List (EntityKey × Slot)) (s : Slot)
    → Distinct l
    → find k l ≡ some s
    → suc (length (without k l)) ≡ length l
unfolding find
length-without k [] s d h = absurd (ground arith)
length-without k ((j, v) ∷ l) s d h = elim (Bool-cases (key_eq j k)) [
  | inl e ↦
      let absent : IsAbsent k l = subst (λ x. IsAbsent x l) ((key_eq_iff j k).0 e) d.0 in
      rw e (ap (λ m. suc (length m)) (without_absent k l absent))
  | inr e ↦ rw e (ap suc (length-without k l s d.1 (ground arith)))
]

push_transition-Fits :
    (limit : ℕ) (tr : Transition) (k : EntityKey) (s : Slot)
    → 0 < limit
    → length s.transitions ≤ limit
    → Fits limit (k, push_transition limit tr s)
unfolding push_transition
push_transition-Fits limit tr k s pos h =
    ground (arith, length-append s.transitions (tr ∷ []), length-drop 1 (s.transitions ++ tr ∷ []))

find-Fits :
    (limit : ℕ) (k : EntityKey) (l : List (EntityKey × Slot)) (s : Slot)
    → All (Fits limit) l
    → find k l ≡ some s
    → length s.transitions ≤ limit
unfolding find
find-Fits limit k [] s a h = absurd (ground arith)
find-Fits limit k ((j, v) ∷ l) s a h = elim (Bool-cases (key_eq j k)) [
  | inl e ↦ let same : v ≡ s = ground arith in subst (λ x. length x.transitions ≤ limit) same a.0.1
  | inr e ↦ find-Fits limit k l s a.1 (ground arith)
]

-- What making room leaves: a valid table with a free place, and the same sum of entities and evictions.
record HasRoom (t t' : Tracker) : Type 0 where
  valid : IsValid t'
  free : length t'.entities < t'.max_entities
  depth : t'.max_transitions ≡ t.max_transitions
  capacity : t'.max_entities ≡ t.max_entities
  counted : length t'.entities + t'.dropped_entities ≡ length t.entities + t.dropped_entities
  absent : (k : EntityKey) → IsAbsent k t.entities → IsAbsent k t'.entities

pop_oldest_lem : (l : List (EntityKey × Slot)) → 0 < length l → pop_oldest l ≡ some (drop 1 l)
unfolding pop_oldest
pop_oldest_lem [] h = absurd (omega arith)
pop_oldest_lem (e ∷ l) h = refl

All-tail :
    (P : EntityKey × Slot → Type 0) (l : List (EntityKey × Slot)) → All P l → All P (drop 1 l)
All-tail P [] h = tt
All-tail P (e ∷ l) h = h.1

Distinct-tail : (l : List (EntityKey × Slot)) → Distinct l → Distinct (drop 1 l)
Distinct-tail [] h = tt
Distinct-tail (e ∷ l) h = h.1

make_room_lem : (t : Tracker) → IsValid t → (t' : Tracker) × (make_room t ≡ some t') × HasRoom t t'
unfolding make_room
make_room_lem t v = elim (Bool-cases (leb t.max_entities (length t.entities))) [
  | inl full ↦
      let shorter = length-drop 1 t.entities in
      let t' : Tracker = record t {
        entities = drop 1 t.entities;
        dropped_entities = t.dropped_entities + 1;
      } in
      let some_left : 0 < length t.entities = let r = v.room in ground arith in
      let bounds = v.bounded in
      let room = v.room in
      (
        t',
        rw (full, pop_oldest_lem t.entities some_left),
        record {
          valid = record {
            room = v.room;
            depth = v.depth;
            bounded = omega arith;
            distinct = Distinct-tail t.entities v.distinct;
            fits = All-tail _ t.entities v.fits;
          };
          free = ground arith;
          depth = refl;
          capacity = refl;
          counted = ground arith;
          absent = λ k. All-tail _ t.entities;
        },
      )
  | inr free ↦ (
    t,
    rw (free, make_room),
    record {
      valid = v;
      free = ground arith;
      depth = refl;
      capacity = refl;
      counted = refl;
      absent = λ k h. h;
    },
  )
]

put_last-IsValid :
    (k : EntityKey) (tr : Transition) (s : Slot) (t : Tracker)
    → IsValid t
    → length s.transitions ≤ t.max_transitions
    → length (without k t.entities) < t.max_entities
    → IsValid (put_last k tr s t)
put_last-IsValid k tr s t v h free = record {
  room = v.room;
  depth = v.depth;
  bounded = rw length-append (omega arith);
  distinct =
      Distinct-snoc k (push_transition t.max_transitions tr s) (without k t.entities)
        (without-IsAbsent k t.entities) (without-Distinct k t.entities v.distinct);
  fits =
      All-append (Fits t.max_transitions) (without k t.entities) _
        (All-keep (Fits t.max_transitions) _ t.entities v.fits)
        (push_transition-Fits t.max_transitions tr k s v.depth h, tt);
}

-- 1 for an entity that is not tracked, 0 for one that is
abbrev pub is_new : Option Slot → ℕ
is_new none = 1
is_new (some s) = 0

-- A transition of an entity never fails on a valid tracker, and leaves a valid one: at most
-- `max_entities` distinct entities, each with one to `max_transitions` transitions. The entity is now the
-- last one; and the entities tracked and evicted grow together by one exactly if it was new.
pub record_transition-IsValid :
    (k : EntityKey) (ev : Event) (tr : Transition) (t : Tracker)
    → IsValid t
    → (t' : Tracker) × (record_transition k ev tr t ≡ some t')
      × IsValid t'
      × (Option.map (λ e. e.0) (last? t'.entities) ≡ some k)
      × (length t'.entities + t'.dropped_entities
          ≡ length t.entities + t.dropped_entities + is_new (find k t.entities))
unfolding record_transition
record_transition-IsValid k ev tr t v = elim (Option-cases (find k t.entities)) [
  | inl e ↦
      let (t1, made, r) = make_room_lem t v in
      let absent : without k t1.entities ≡ t1.entities =
        without_absent k t1.entities (r.absent k (find-IsAbsent k t.entities e)) in
      (
        put_last k tr (new_slot ev) t1,
        rw (e, record_transition, made),
        put_last-IsValid k tr (new_slot ev) t1 r.valid (omega arith) (rw absent r.free),
        rw last?-snoc,
        rw (e, absent, length-append) (let c = r.counted in omega arith),
      )
  | inr (s, e) ↦
      let one_less = length-without k t.entities s v.distinct e in
      let bounded = v.bounded in
      (
        put_last k tr s t,
        rw (e, record_transition),
        put_last-IsValid k tr s t v (find-Fits t.max_transitions k t.entities s v.fits e)
            (omega arith),
        rw last?-snoc,
        rw (e, length-append) (omega arith),
      )
]

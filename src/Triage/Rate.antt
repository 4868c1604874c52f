-- ===== src/Triage/Rate.antt =====
-- The hourly limit: `_rate_ok` and `_note_attempt`. An hour is 3600 ticks of one second each.
use netlog_ai.Prelude.{
  ℕ, ◌+◌, ◌≤◌, ◌<◌, ◌≡◌, refl, sym, ap, ◌∙◌, ltb→lt, length-keep-le, Bool, true, false, ◌&&◌, List,
  [], ◌∷◌, ◌++◌, arith, ltb, leb, if◌then◌else◌, length, length-append, keep, keep-append, All,
  All-append, All-map, inl, inr, Bool-cases, append_assoc,
}

-- while times and times[0] < now - 3600: popleft
unfoldable pub expire : ℕ → List ℕ → List ℕ
expire now [] = []
expire now (t ∷ ts) = let rest = expire now ts in if ltb (t + 3600) now then rest else t ∷ ts

unfoldable pub rate_ok : ℕ → ℕ → List ℕ → Bool × List ℕ
unfolding expire
rate_ok limit now times = let left = expire now times in (ltb (length left) limit, left)

unfoldable pub note_attempt : ℕ → List ℕ → List ℕ
note_attempt now times = times ++ now ∷ []

-- A send at `now` if the limit allows it, as `_handle` makes it: the times kept by the limiter, and the
-- sends so far that came back. `back` is false where `_send` raises `_LeaseGone`: the attempt is then not
-- noted, whatever the sinks before the loss took.
pub try_send : ℕ → ℕ → Bool → List ℕ → List ℕ → List ℕ × List ℕ
try_send limit now back times made =
    let (ok, left) = rate_ok limit now times in
    if ok && back then (note_attempt now left, made ++ now ∷ []) else (left, made)

-- the same at each of a list of times, each with whether its send, if there is one, comes back
pub sends : ℕ → List ℕ → List ℕ → List (ℕ × Bool) → List ℕ × List ℕ
sends limit times made [] = (times, made)
sends limit times made ((now, back) ∷ l) =
    let (times', made') = try_send limit now back times made in sends limit times' made' l

-- in the hour that starts at `x`, both ends included
abbrev pub in_hour : ℕ → ℕ → Bool
in_hour x t = leb x t && leb t (x + 3600)

-- the clock readings do not go back, and start from `from`
abbrev pub Clock : ℕ → List (ℕ × Bool) → Type 0
Clock from [] = Unit
Clock from ((now, back) ∷ l) = (from ≤ now) × Clock now l

-- The limiter's times are the sends that may still count: those made before are out of the hour; and
-- no hour so far holds more than the limit.
record Tracks (limit clock : ℕ) (times made : List ℕ) : Type 0 where
  gone : List ℕ
  split : made ≡ gone ++ times
  old : All (λ t. t + 3600 < clock) gone
  few : (x : ℕ) → length (keep (in_hour x) made) ≤ limit

expire_split :
    (now : ℕ) (times : List ℕ)
    → (gone : List ℕ) × (times ≡ gone ++ expire now times) × All (λ t. t + 3600 < now) gone
unfolding expire
expire_split now [] = ([], refl, tt)
expire_split now (t ∷ ts) = elim (Bool-cases (ltb (t + 3600) now)) [
  | inl e ↦
      let (gone, q, a) = expire_split now ts in (t ∷ gone, rw e (ap (◌∷◌ t) q), (ground arith, a))
  | inr e ↦ ([], rw e, tt)
]

-- sends out of the hour before `now` are in no hour that `now` is in
old_outside :
    (x now : ℕ) (gone : List ℕ)
    → All (λ t. t + 3600 < now) gone
    → now ≤ x + 3600
    → keep (in_hour x) gone ≡ []
old_outside x now [] h le = refl
old_outside x now (t ∷ ts) h le =
    let (first, rest) = h in ground (arith, old_outside x now ts rest le)

module _ (limit : ℕ) where
  -- what expiry at `now` leaves still tracks
  expire-Tracks :
      (clock now : ℕ) (times made : List ℕ)
      → clock ≤ now
      → Tracks limit clock times made
      → Tracks limit now (expire now times) made
  expire-Tracks clock now times made le h =
      let (gone, q, out) = expire_split now times in
      record {
        gone = h.gone ++ gone;
        split =
            h.split ∙ ap (λ l. h.gone ++ l) q ∙ sym (append_assoc h.gone gone (expire now times));
        old = All-append _ h.gone gone (All-map _ _ (λ t lt. omega arith) h.gone h.old) out;
        few = h.few;
      }

  -- one more send, where there is room for it
  note-Tracks :
      (now : ℕ) (times made : List ℕ)
      → length times < limit
      → Tracks limit now times made
      → Tracks limit now (times ++ now ∷ []) (made ++ now ∷ [])
  note-Tracks now times made room h = record {
    gone = h.gone;
    split = ap (λ l. l ++ now ∷ []) h.split ∙ append_assoc h.gone times (now ∷ []);
    old = h.old;
    few = λ x.
        rw (keep-append, length-append)
          (elim (Bool-cases (in_hour x now)) [
            | inl inside ↦ rw inside (
                let bound = length-keep-le (in_hour x) times in
                let empty : keep (in_hour x) made ≡ keep (in_hour x) times =
                  rw (h.split, keep-append)
                    (rw (old_outside x now h.gone h.old (ground arith)) refl) in
                rw empty (omega arith))
            | inr outside ↦ rw outside (let few = h.few x in omega arith)
          ]);
  }

  try_send-Tracks :
      (clock now : ℕ) (back : Bool) (times made : List ℕ)
      → clock ≤ now
      → Tracks limit clock times made
      → Tracks limit now
          (try_send limit now back times made).0
          (try_send limit now back times made).1
  unfolding try_send rate_ok note_attempt
  try_send-Tracks clock now false times made le h =
      elim (Bool-cases (ltb (length (expire now times)) limit)) [
        | inl ok ↦ rw (ok, try_send) (expire-Tracks clock now times made le h)
        | inr full ↦ rw (full, try_send) (expire-Tracks clock now times made le h)
      ]
  try_send-Tracks clock now true times made le h =
      let left = expire-Tracks clock now times made le h in
      elim (Bool-cases (ltb (length (expire now times)) limit)) [
        | inl ok ↦ rw (ok, try_send) (note-Tracks now (expire now times) made (ltb→lt _ _ ok) left)
        | inr full ↦ rw (full, try_send) left
      ]

  sends-few :
      (l : List (ℕ × Bool)) (clock : ℕ) (times made : List ℕ)
      → Clock clock l
      → Tracks limit clock times made
      → (x : ℕ) → length (keep (in_hour x) (sends limit times made l).1) ≤ limit
  unfolding sends
  sends-few [] clock times made c h x = h.few x
  sends-few ((now, back) ∷ l) clock times made c h x =
      sends-few l now (try_send limit now back times made).0 (try_send limit now back times made).1
        c.1 (try_send-Tracks clock now back times made c.0 h) x

  -- However often sends are tried, by a clock that does not go back, no hour, wherever it starts, holds
  -- more sends that came back than the limit, whichever of the sends in between are cut off by the loss of
  -- the lease; those that are cut off are not counted here, as the limiter does not count them.
  pub rate_limit_holds :
      (l : List (ℕ × Bool)) (x : ℕ)
      → Clock 0 l
      → length (keep (in_hour x) (sends limit [] [] l).1) ≤ limit
  rate_limit_holds l x c =
      sends-few l 0 [] [] c (record { gone = []; split = refl; old = tt; few = λ x. omega arith }) x

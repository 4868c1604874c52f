-- ===== src/EntityState/Flap.antt =====
-- `_is_flapping`: the sliding window over the sorted down times, against a description by counting.
-- Times are clock ticks; `none` is a time stamp that does not parse.
use netlog_ai.Prelude.{
  ℕ, zero, suc, ◌+◌, ◌-◌, ◌≤◌, ◌<◌, ◌≡◌, ◌↔◌, refl, Bool, true, false, ◌&&◌, ◌||◌, Option, none,
  some, List, [], ◌∷◌, arith, ltb, leb, if◌then◌else◌, length, length-map, get_elem?, keep, any,
  map, All, inl, inr, Bool-cases, ap,
}
use netlog_ai.Prelude.Sort
use netlog_ai.Prelude.Sort.{sort}

-- the times that parse
pub known : List (Option ℕ) → List ℕ
known [] = []
known (none ∷ l) = known l
known (some t ∷ l) = t ∷ known l

pub is_unknown : Option ℕ → Bool
is_unknown none = true
is_unknown (some t) = false

-- times[i + n - 1] - times[i] <= window, at the start of the list given
pub starts_window : ℕ → ℕ → ℕ → List ℕ → Bool
starts_window n w b l = elim (get_elem? l (n - 1)) [ none ↦ false | some u ↦ leb u (b + w) ]

-- the same for some i with i + n <= len(times)
pub has_window : ℕ → ℕ → List ℕ → Bool
has_window n w [] = false
has_window n w (t ∷ ts) = starts_window n w t (t ∷ ts) || has_window n w ts

unfoldable pub is_flapping : ℕ → ℕ → List (Option ℕ) → Bool
unfolding known is_unknown starts_window has_window
is_flapping n w down_times =
    if ltb (length down_times) n
    then false
    else if any is_unknown down_times
    then true
    else has_window n w (sort leb (known down_times))

-- a time in [from, from + w]
abbrev pub within : ℕ → ℕ → ℕ → Bool
within w from t = leb from t && leb t (from + w)

none_below :
    (t b : ℕ) (l : List ℕ)
    → All (λ c. leb t c ≡ true) l
    → b < t
    → length (keep (λ c. leb c b) l) ≡ 0
none_below t b [] h lt = refl
none_below t b (c ∷ l) h lt = ground (arith, h.0, none_below t b l h.1 lt)

-- on ascending times, the n-th is at most `b` exactly if more than `n` of them are
nth_count :
    (n b : ℕ) (l : List ℕ)
    → Sort.IsSorted leb l
    → (elim (get_elem? l n) [ none ↦ false | some u ↦ leb u b ])
      ≡ ltb n (length (keep (λ t. leb t b) l))
nth_count n b [] s = ground arith
nth_count zero b (t ∷ l) s = elim (Bool-cases (leb t b)) [
  | inl e ↦ rw e (ground arith)
  | inr e ↦ rw (e, none_below t b l s.0 (ground arith)) (ground arith)
]
nth_count (suc n) b (t ∷ l) s = elim (Bool-cases (leb t b)) [
  | inl e ↦ rw (e, nth_count n b l s.1) (ground arith)
  | inr e ↦ rw (e, nth_count n b l s.1, none_below t b l s.0 (ground arith)) (ground arith)
]

-- the least of ascending times sees at least as many others in its window as any start does
count_from_least :
    (w from t : ℕ) (l : List ℕ)
    → All (λ c. leb t c ≡ true) l
    → from ≤ t
    → length (keep (within w from) l) ≤ length (keep (λ c. leb c (t + w)) l)
count_from_least w from t [] h le = omega arith
count_from_least w from t (c ∷ l) h le = ground (arith, h.0, count_from_least w from t l h.1 le)

count_within :
    (w t : ℕ) (l : List ℕ)
    → All (λ c. leb t c ≡ true) l
    → length (keep (within w t) l) ≡ length (keep (λ c. leb c (t + w)) l)
count_within w t [] h = refl
count_within w t (c ∷ l) h = ground (arith, h.0, count_within w t l h.1)

module _ (n w : ℕ) (positive : 0 < n) where
  starts_window_lem :
      (t : ℕ) (l : List ℕ)
      → Sort.IsSorted leb (t ∷ l)
      → starts_window n w t (t ∷ l) ≡ leb n (length (keep (λ c. leb c (t + w)) (t ∷ l)))
  unfolding starts_window
  starts_window_lem t l s = rw (nth_count (n - 1) (t + w) (t ∷ l) s) (ground arith)

  -- a window that the loop finds holds `n` of the times
  window_holds :
      (l : List ℕ)
      → Sort.IsSorted leb l
      → has_window n w l ≡ true
      → (from : ℕ) × (n ≤ length (keep (within w from) l))
  unfolding has_window
  window_holds [] s h = absurd (ground arith)
  window_holds (t ∷ l) s h = elim (Bool-cases (starts_window n w t (t ∷ l))) [
    | inl e ↦ (t, ground (arith, starts_window_lem t l s, count_within w t l s.0))
    | inr e ↦ let (from, holds) = window_holds l s.1 (ground arith) in (from, ground arith)
  ]

  -- and where some window holds `n` of them, the loop finds one
  window_found :
      (from : ℕ) (l : List ℕ)
      → Sort.IsSorted leb l
      → n ≤ length (keep (within w from) l)
      → has_window n w l ≡ true
  unfolding has_window
  window_found from [] s h = absurd (omega arith)
  window_found from (t ∷ l) s h = elim (Bool-cases (leb from t)) [
    | inl e ↦
        ground
          (arith, starts_window_lem t l s, count_from_least w from t l s.0, window_found from l s.1)
    | inr e ↦ ground (arith, window_found from l s.1)
  ]

known-map : (times : List ℕ) → known (map some times) ≡ times
unfolding known
known-map [] = refl
known-map (t ∷ l) = ap (◌∷◌ t) (known-map l)

none_unknown : (times : List ℕ) → any is_unknown (map some times) ≡ false
unfolding is_unknown
none_unknown [] = refl
none_unknown (t ∷ l) = none_unknown l

ascending : (l : List ℕ) → Sort.IsSorted leb (sort leb l)
ascending l =
    Sort.sort-IsSorted leb leb (λ a b h. h) (λ a b h. ground arith) (λ a b c h k. ground arith) l

count-le-length : (p : ℕ → Bool) (l : List ℕ) → length (keep p l) ≤ length l
count-le-length p [] = omega arith
count-le-length p (t ∷ l) = ground (arith, count-le-length p l)

-- If every down time parses, an entity is flapping exactly if some window of the given length holds at
-- least the threshold number of its down transitions, in whatever order they are listed.
pub is_flapping_iff :
    (n w : ℕ) (times : List ℕ)
    → 0 < n
    → (is_flapping n w (map some times) ≡ true)
      ↔ ((from : ℕ) × (n ≤ length (keep (within w from) times)))
is_flapping_iff n w times positive = (forth, back)
  where
    found :
        is_flapping n w (map some times)
        ≡ (if ltb (length times) n then false else has_window n w (sort leb times))
    found = unfold is_flapping in rw (length-map, none_unknown, known-map)

    forth :
        is_flapping n w (map some times) ≡ true
        → (from : ℕ) × (n ≤ length (keep (within w from) times))
    forth h =
        let (from, holds) =
          window_holds n w positive (sort leb times) (ascending times) (ground (arith, found)) in
        (from, omega (arith, Sort.count-sort leb (within w from) times))

    back :
        (from : ℕ) × (n ≤ length (keep (within w from) times))
        → is_flapping n w (map some times) ≡ true
    back (from, holds) = ground (
      arith,
      found,
      count-le-length (within w from) times,
      window_found n w positive from (sort leb times) (ascending times)
          (omega (arith, Sort.count-sort leb (within w from) times)),
    )

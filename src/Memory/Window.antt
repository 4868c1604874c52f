-- ===== src/Memory/Window.antt =====
-- The newest rows of a table that grows at its end and is cut at its beginning.
use netlog_ai.Prelude.{
  ℕ, zero, suc, ◌+◌, ◌-◌, ◌<◌, ◌≤◌, ◌≡◌, refl, sym, ap, ◌∙◌, List, [], ◌∷◌, ◌++◌, arith, length,
  length-append, length-drop, drop, drop-append, drop-drop, drop_all, keep-append, above, above_all,
  Ascends, Ascends-lower, ltb, inl, inr, Bool-cases,
}

module _ {ℓ} {A : Type ℓ} where
  -- the last `cap` elements
  abbrev pub newest : ℕ → List A → List A
  newest cap l = drop (length l - cap) l

  pub newest-append :
      (cap : ℕ) (l m : List A)
      → newest cap (l ++ m) ≡ drop (length l + length m - cap) l ++ newest cap m
  newest-append cap l m =
      let size : length (l ++ m) - cap ≡ length l + length m - cap =
        omega (arith, length-append l m) in
      let part : length l + length m - cap - length l ≡ length m - cap = omega arith in
      ap (λ n. drop n (l ++ m)) size
      ∙ drop-append (length l + length m - cap) l m
      ∙ ap (λ n. drop (length l + length m - cap) l ++ drop n m) part

  pub length-newest-le : (cap : ℕ) (l : List A) → length (newest cap l) ≤ cap
  length-newest-le cap l = omega (arith, length-drop (length l - cap) l)

  pub newest_all : (cap : ℕ) (l : List A) → length l ≤ cap → newest cap l ≡ l
  newest_all cap l h = let uncut : length l - cap ≡ 0 = omega arith in rw uncut refl

  -- cutting before an append, and cutting what is appended, change nothing
  pub newest-newest_left :
      (cap : ℕ) (l m : List A) → newest cap (newest cap l ++ m) ≡ newest cap (l ++ m)
  newest-newest_left cap l m =
      let size = length-drop (length l - cap) l in
      let cut : length l - cap + (length (newest cap l) + length m - cap)
          ≡ length l + length m - cap =
        omega (arith, size) in
      newest-append cap (newest cap l) m
      ∙ ap (λ t. t ++ newest cap m)
          (drop-drop (length (newest cap l) + length m - cap) (length l - cap) l
            ∙ ap (λ n. drop n l) cut)
      ∙ sym (newest-append cap l m)

  drop_same :
      (cap : ℕ) (l m : List A)
      → drop (length l + length (newest cap m) - cap) l ≡ drop (length l + length m - cap) l
  drop_same cap l m =
      let size = length-drop (length m - cap) m in
      elim (Bool-cases (ltb cap (length m))) [
        | inl e ↦
            drop_all (length l + length (newest cap m) - cap) l (ground (arith, size, e))
            ∙ sym (drop_all (length l + length m - cap) l (ground (arith, e)))
        | inr e ↦
            let index : length l + length (newest cap m) - cap ≡ length l + length m - cap =
              ground (arith, size, e) in
            ap (λ n. drop n l) index
      ]

  pub newest-newest_right :
      (cap : ℕ) (l m : List A) → newest cap (l ++ newest cap m) ≡ newest cap (l ++ m)
  newest-newest_right cap l m =
      newest-append cap l (newest cap m)
      ∙ ap (λ t. drop (length l + length (newest cap m) - cap) l ++ t)
          (newest_all cap (newest cap m) (length-newest-le cap m))
      ∙ ap (λ t. t ++ newest cap m) (drop_same cap l m)
      ∙ sym (newest-append cap l m)

module _ {ℓ} {A : Type ℓ} (key : A → ℕ) where
  pub Ascends-drop : (n lo hi : ℕ) (l : List A) → Ascends key lo hi l → Ascends key lo hi (drop n l)
  Ascends-drop zero lo hi l h = h
  Ascends-drop (suc n) lo hi [] h = h
  Ascends-drop (suc n) lo hi (a ∷ l) h =
      Ascends-lower key lo (suc (key a)) hi (drop n l) (omega arith)
        (Ascends-drop n (suc (key a)) hi l h.1)

  pub Ascends-below : (lo hi : ℕ) (l : List A) → Ascends key lo hi l → lo ≤ hi
  Ascends-below lo hi [] h = h
  Ascends-below lo hi (a ∷ l) h = omega (arith, h.0, Ascends-below (suc (key a)) hi l h.1)

  -- no key of a list is above one that all are below
  above_none : (b lo hi : ℕ) (l : List A) → hi ≤ suc b → Ascends key lo hi l → above key b l ≡ []
  above_none b lo hi [] h k = refl
  above_none b lo hi (a ∷ l) h k =
      let below : key a < hi = Ascends-below (suc (key a)) hi l k.1 in
      ground (arith, below, above_none b (suc (key a)) hi l h k.1)

  -- the rows past a key that divides the old ones from the new ones are the new ones
  pub above-newest :
      (cap b lo mid hi : ℕ) (l m : List A)
      → mid ≤ suc b
      → b < mid
      → Ascends key lo mid l
      → Ascends key mid hi m
      → above key b (newest cap (l ++ m)) ≡ newest cap m
  above-newest cap b lo mid hi l m top low old new =
      let cut = length l + length m - cap in
      ap (above key b) (newest-append cap l m)
      ∙ keep-append (λ a. ltb b (key a)) (drop cut l) (newest cap m)
      ∙ ap (λ t. t ++ above key b (newest cap m))
          (above_none b lo mid (drop cut l) top (Ascends-drop cut lo mid l old))
      ∙ above_all key b mid hi (newest cap m) low (Ascends-drop (length m - cap) mid hi m new)

-- ===== src/Syslog/Framing/RoundTrip.antt =====
-- About octet counting in `_read_frame`: frames that are sent with their length in front.
use netlog_ai.Prelude.{
  ℕ, zero, suc, ◌+◌, ◌-◌, ◌<◌, ◌≤◌, ◌≡◌, ◌≢◌, refl, sym, ap, ◌∙◌, true, false, List, [], ◌∷◌, ◌++◌,
  append_assoc, append-nil, arith, leb, ltb, ◌==◌, ==_iff, length, length-append, drop, take, All,
  map,
}
use netlog_ai.Syslog.Framing.{
  Bytes, lf, space, max_len_digits, is_digit, Limits, got, value, body, after_length, goes_on, scan,
  read_frame, read_all,
}

-- a frame: the digits of its length, and a message that starts with "<", a digit, and one byte more
pub record Counted : Type 0 where
  pub first : ℕ
  pub digits : Bytes
  pub priority : ℕ
  pub third : ℕ
  pub text : Bytes

unfoldable pub message : Counted → Bytes
message f = 60 ∷ f.priority ∷ f.third ∷ f.text

pub encode : Counted → Bytes
encode f = f.first ∷ f.digits ++ space ∷ message f

pub encode_all : List Counted → Bytes
encode_all [] = []
encode_all (f ∷ fs) = encode f ++ encode_all fs

-- the digits are those of the message's length, which has no zero in front and is within the limit
pub record IsCounted (c : Limits) (f : Counted) : Type 0 where
  pub leading : (is_digit f.first ≡ true) × (f.first ≢ 48)
  pub all_digits : All (λ d. is_digit d ≡ true) f.digits
  pub few : length f.digits < max_len_digits
  pub priority : is_digit f.priority ≡ true
  pub counts : value 0 (f.first ∷ f.digits) ≡ length (message f)
  pub small : length (message f) ≤ c.max_frame

take-append {ℓ} : {A : Type ℓ} (xs ys : List A) → take (length xs) (xs ++ ys) ≡ xs
take-append [] ys = refl
take-append (x ∷ xs) ys = ap (λ l. x ∷ l) (take-append xs ys)

drop-append_own {ℓ} : {A : Type ℓ} (xs ys : List A) → drop (length xs) (xs ++ ys) ≡ ys
drop-append_own [] ys = refl
drop-append_own (x ∷ xs) ys = drop-append_own xs ys

module _ (c : Limits) where
  -- once a digit is read, the digits up to the space are the length
  scan-digits :
      (pre ds s : Bytes)
      → 0 < length pre
      → All (λ d. is_digit d ≡ true) ds
      → length pre + length ds ≤ max_len_digits
      → scan c pre (ds ++ space ∷ s) ≡ after_length c (pre ++ ds) s
  unfolding scan
  scan-digits pre [] s h all few =
      let some_digit : (length pre == 0) ≡ false = ground (arith, h, ==_iff (length pre) 0) in
      rw (some_digit, scan) (ap (λ l. after_length c l s) (sym (append-nil pre)))
  scan-digits pre (d ∷ ds) s h all few =
      let further : goes_on pre d ≡ true = ground (arith, all.0, few, h, ==_iff (length pre) 0) in
      rw (further, scan)
        (scan-digits (pre ++ d ∷ []) ds s (omega (arith, length-append pre (d ∷ []))) all.1
            (omega (arith, few, length-append pre (d ∷ [])))
          ∙ ap (λ l. after_length c l s) (append_assoc pre (d ∷ []) ds))

  body-whole :
      (b1 b2 : ℕ) (text rest : Bytes)
      → suc (suc (length text)) ≤ c.max_frame
      → body c (suc (suc (length text))) b1 b2 (text ++ rest) ≡ got (b1 ∷ b2 ∷ text) rest
  unfolding body
  body-whole b1 b2 text rest small =
      let fits : ltb c.max_frame (suc (suc (length text))) ≡ false = ground (arith, small) in
      let two : suc (suc (length text)) - 2 ≡ length text = omega arith in
      let there : ltb (length (text ++ rest)) (length text) ≡ false =
        ground (arith, length-append text rest) in
      rw (fits, body, two, there, take-append text rest, drop-append_own text rest) refl

  after_length-whole :
      (f : Counted) (rest : Bytes)
      → IsCounted c f
      → after_length c (f.first ∷ f.digits) (message f ++ rest) ≡ got (message f) rest
  unfolding after_length message
  after_length-whole f rest v =
      let no_lf : (f.priority == lf) ≡ false = ground (arith, v.priority, ==_iff f.priority lf) in
      let long : leb 3 (suc (suc (suc (length f.text)))) ≡ true = ground arith in
      rw (no_lf, after_length, v.counts, v.priority, long)
        (body-whole 60 f.priority (f.third ∷ f.text) rest v.small)

  read_frame-encode :
      (f : Counted) (rest : Bytes)
      → IsCounted c f
      → read_frame c (encode f ++ rest) ≡ got (message f) rest
  unfolding read_frame encode message
  read_frame-encode f rest v =
      let whole = f.digits ++ space ∷ (message f ++ rest) in
      let starts : goes_on [] f.first ≡ true =
        ground (arith, v.leading.0, v.leading.1, ==_iff f.first 48) in
      let opened : scan c [] (f.first ∷ whole) ≡ scan c (f.first ∷ []) whole =
        unfold scan in rw starts refl in
      ap (λ l. scan c [] (f.first ∷ l)) (append_assoc f.digits (space ∷ message f) rest)
      ∙ opened
      ∙ scan-digits (f.first ∷ []) f.digits (message f ++ rest) (omega arith) v.all_digits
          (omega (arith, v.few))
      ∙ after_length-whole f rest v

  -- Frames that are sent one after the other, each with its length in front, starting with a priority and
  -- within the largest size, are all ingested, as they are and in order; nothing counts as oversized or
  -- truncated, whatever bytes the messages hold. Fuel of one more than the frames is enough.
  pub read_all-encode_all :
      (fuel : ℕ) (fs : List Counted)
      → length fs < fuel
      → All (IsCounted c) fs
      → read_all fuel c (encode_all fs)
        ≡ record { lines = map message fs; oversize = 0; truncated = 0; closed = true }
  unfolding read_all encode_all
  read_all-encode_all zero fs h v = absurd (omega arith)
  read_all-encode_all (suc fuel) [] h v = unfold read_frame scan in refl
  read_all-encode_all (suc fuel) (f ∷ fs) h v =
      rw (read_frame-encode f (encode_all fs) v.0, read_all-encode_all fuel fs (omega arith) v.1)
        (unfold message in refl)

-- ===== src/Syslog/Framing/Ends.antt =====
-- About the end of the loop over the frames of a connection (`_handle_conn`).
use netlog_ai.Prelude.{
  ℕ, zero, suc, ◌-◌, ◌<◌, ◌≤◌, ◌≡◌, refl, inl, inr, true, some, [], ◌∷◌, ◌++◌, arith, length,
  length-drop, Option-cases,
}
use netlog_ai.Syslog.Framing.{
  Bytes, space, Limits, Step, split_line, lf_tail, value, body, after_length, scan, read_frame,
  read_all,
}

length-split_line : (s l r : Bytes) → split_line s ≡ some (l, r) → length r < length s
unfolding split_line
length-split_line [] l r h = absurd (ground arith)
length-split_line (b ∷ bs) l r h = elim (Option-cases (split_line bs)) [
  | inl e ↦ ground (arith, h, e)
  | inr ((l', r'), e) ↦ let shorter = length-split_line bs l' r' e in ground (arith, h, e, shorter)
]

-- what a step leaves of the stream is no longer than `n`
abbrev Within : ℕ → Step → Type 0
Within n step = length step.rest ≤ n

lf_tail-Within : (c : Limits) (prefix s : Bytes) → Within (length s) (lf_tail c prefix s)
unfolding lf_tail
lf_tail-Within c prefix s = elim (Option-cases (split_line s)) [
  | inl e ↦ ground (arith, e)
  | inr ((l, r), e) ↦ let shorter = length-split_line s l r e in ground (arith, e, shorter)
]

body-Within : (c : Limits) (len b1 b2 : ℕ) (s : Bytes) → Within (length s) (body c len b1 b2 s)
unfolding body
body-Within c len b1 b2 s = ground (arith, length-drop (len - 2) s)

after_length-Within : (c : Limits) (digits s : Bytes) → Within (length s) (after_length c digits s)
unfolding after_length
after_length-Within c digits [] = omega arith
after_length-Within c digits (b1 ∷ []) = ground arith
after_length-Within c digits (b1 ∷ b2 ∷ s) =
    let counted = body-Within c (value 0 digits) b1 b2 s in
    let tail = lf_tail-Within c (digits ++ space ∷ b1 ∷ b2 ∷ []) s in ground (arith, counted, tail)

scan-Within :
    (c : Limits) (digits : Bytes) (b : ℕ) (s : Bytes) → Within (length s) (scan c digits (b ∷ s))
unfolding scan
scan-Within c digits b [] =
    ground (arith, after_length-Within c digits [], lf_tail-Within c (digits ++ b ∷ []) [])
scan-Within c digits b (b' ∷ s) =
    let further = scan-Within c (digits ++ b ∷ []) b' s in
    ground (
      arith,
      further,
      after_length-Within c digits (b' ∷ s),
      lf_tail-Within c (digits ++ b ∷ []) (b' ∷ s),
    )

-- The loop over a connection's frames comes to its end: with one unit of fuel more than the stream has
-- bytes it is closed by the end of the stream, whatever the bytes are and whatever lines overrun.
pub read_all-closed :
    (fuel : ℕ) (c : Limits) (s : Bytes) → length s < fuel → (read_all fuel c s).closed ≡ true
unfolding read_all read_frame
read_all-closed zero c s h = absurd (omega arith)
read_all-closed (suc fuel) c [] h = unfold scan in refl
read_all-closed (suc fuel) c (b ∷ s) h =
    let shorter = scan-Within c [] b s in
    let later = read_all-closed fuel c (scan c [] (b ∷ s)).rest in ground (arith, later, shorter, h)

-- ===== src/Syslog/Framing.antt =====
-- The framing of a TCP stream: `_read_frame`, `_after_length`, `_read_lf_tail` and the loop of
-- `_handle_conn`. A stream is the list of its bytes up to the sender's end of it.
pub mod Ends
pub mod RoundTrip
mod Examples
use netlog_ai.Prelude.{
  ℕ, zero, suc, ◌+◌, ◌-◌, ◌*◌, ◌&&◌, ◌||◌, not, Bool, true, false, Option, none, some, List, [],
  ◌∷◌, ◌++◌, leb, ltb, ◌==◌, if◌then◌else◌, length, take, drop,
}

abbrev pub Bytes : Type 0
Bytes = List ℕ

abbrev pub lf : ℕ
lf = 10

abbrev pub space : ℕ
space = 32

-- _MAX_LEN_DIGITS
abbrev pub max_len_digits : ℕ
max_len_digits = 10

abbrev pub is_digit : ℕ → Bool
is_digit b = leb 48 b && leb b 57

-- bytes.isspace and bytes.strip read these as blank: tab, LF, VT, FF, CR, space
abbrev pub is_blank : ℕ → Bool
is_blank b = (leb 9 b && leb b 13) || b == space

abbrev pub all_blank : Bytes → Bool
all_blank [] = true
all_blank (b ∷ bs) = is_blank b && all_blank bs

-- `overruns` is whether the stream reader's limit is passed before the next LF
pub record Limits : Type 0 where
  pub max_frame : ℕ
  pub overruns : Bytes → Bool

-- What one call of `_read_frame` leads to in the loop: the frame (empty where there is nothing to ingest),
-- whether the loop goes on, the counters, and the rest of the stream.
pub record Step : Type 0 where
  pub line : Bytes
  pub more : Bool
  pub oversize : ℕ
  pub truncated : ℕ
  pub rest : Bytes

abbrev pub got : Bytes → Bytes → Step
got line rest = record { line = line; more = true; oversize = 0; truncated = 0; rest = rest }

-- `return None`
abbrev pub ended : Step
ended = record { line = []; more = false; oversize = 0; truncated = 0; rest = [] }

-- readuntil(LF): the line with its LF, and the rest
pub split_line : Bytes → Option (Bytes × Bytes)
split_line [] = none
split_line (b ∷ bs) =
    let later = split_line bs in
    if b == lf
    then some (b ∷ [], bs)
    else elim later [ none ↦ none | some (l, r) ↦ some (b ∷ l, r) ]

-- `_read_lf_tail`. The end of the stream while an oversized line is discarded is an IncompleteReadError,
-- which the loop counts as a truncated frame.
pub lf_tail : Limits → Bytes → Bytes → Step
lf_tail c prefix s =
    if c.overruns s
    then elim (split_line s) [
      | none ↦ record { line = []; more = false; oversize = 1; truncated = 1; rest = [] }
      | some (l, r) ↦ record { line = []; more = true; oversize = 1; truncated = 0; rest = r }
    ]
    else elim (split_line s) [
      | none ↦
          if length s == 0 && (all_blank prefix && not (length prefix == 0))
          then ended
          else got (prefix ++ s) []
      | some (l, r) ↦ got (prefix ++ l) r
    ]

-- int(digits)
pub value : ℕ → Bytes → ℕ
value n [] = n
value n (d ∷ ds) = value (10 * n + (d - 48)) ds

-- the body of a frame of `len` bytes, of which two are read
pub body : Limits → ℕ → ℕ → ℕ → Bytes → Step
body c len b1 b2 s =
    let missing = ltb (length s) (len - 2) in
    if ltb c.max_frame len
    then (if missing
        then record { line = []; more = false; oversize = 1; truncated = 0; rest = [] }
        else record {
          line = [];
          more = true;
          oversize = 1;
          truncated = 0;
          rest = drop (len - 2) s;
        })
    else if missing
    then record { line = b1 ∷ b2 ∷ s; more = true; oversize = 0; truncated = 1; rest = [] }
    else got (b1 ∷ b2 ∷ take (len - 2) s) (drop (len - 2) s)

-- `_after_length`: digits and a space are read
pub after_length : Limits → Bytes → Bytes → Step
after_length c digits [] = ended
after_length c digits (b1 ∷ []) =
    if b1 == lf
    then got (digits ++ space ∷ []) []
    else if is_blank b1
    then ended
    else got (digits ++ space ∷ b1 ∷ []) []
after_length c digits (b1 ∷ b2 ∷ s) =
    let len = value 0 digits in
    if b1 == lf
    then got (digits ++ space ∷ []) (b2 ∷ s)
    else if b2 == lf
    then got (digits ++ space ∷ b1 ∷ []) s
    else if leb 3 len && (b1 == 60 && is_digit b2)
    then body c len b1 b2 s
    else lf_tail c (digits ++ space ∷ b1 ∷ b2 ∷ []) s

-- a byte that may go on with the length: no more than ten digits, and no 0 in front
abbrev pub goes_on : Bytes → ℕ → Bool
goes_on digits b =
    is_digit b && (ltb (length digits) max_len_digits && not (length digits == 0 && b == 48))

-- the loop of `_read_frame` over the digits
pub scan : Limits → Bytes → Bytes → Step
scan c digits [] = ended
scan c digits (b ∷ s) =
    let further = scan c (digits ++ b ∷ []) s in
    if goes_on digits b
    then further
    else if b == space && not (length digits == 0)
    then after_length c digits s
    else if b == lf || b == 0
    then got digits s
    else lf_tail c (digits ++ b ∷ []) s

pub read_frame : Limits → Bytes → Step
read_frame c s = scan c [] s

-- what a connection gives: its frames that are not empty, the counters, and whether it came to its end
pub record Connection : Type 0 where
  pub lines : List Bytes
  pub oversize : ℕ
  pub truncated : ℕ
  pub closed : Bool

abbrev pub add_line : Bytes → List Bytes → List Bytes
add_line [] ls = ls
add_line (b ∷ bs) ls = (b ∷ bs) ∷ ls

-- The loop of `_handle_conn`, without its timeouts. Every round but the last reads a byte, so one more
-- than the bytes of the stream is enough fuel.
pub read_all : ℕ → Limits → Bytes → Connection
read_all zero c s = record { lines = []; oversize = 0; truncated = 0; closed = false }
read_all (suc fuel) c s =
    let step = read_frame c s in
    let later = read_all fuel c step.rest in
    if step.more
    then record {
      lines = add_line step.line later.lines;
      oversize = step.oversize + later.oversize;
      truncated = step.truncated + later.truncated;
      closed = later.closed;
    }
    else record { lines = []; oversize = step.oversize; truncated = step.truncated; closed = true }

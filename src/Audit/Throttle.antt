-- ===== src/Audit/Throttle.antt =====
-- `record_throttled`: what an unauthenticated caller can make the audit log write.
-- The reading of the monotonic clock and whether the log takes the row
-- are arguments.
pub mod Accounts
pub mod Rows
mod Examples
use netlog_ai.Prelude.{
  ℕ, suc, ◌+◌, String, Bool, true, false, ◌&&◌, Option, none, some, List, [], ◌∷◌, ltb, leb, str_eq,
  if◌then◌else◌, length,
}

-- the keys (action, key) of `_THROTTLE` with the time of their last row
abbrev pub Recent : Type 0
Recent = List (String × String × ℕ)

pub record Throttle : Type 0 where
  pub recent : Recent
  pub suppressed : ℕ
  pub window_start : ℕ
  pub window_rows : ℕ

abbrev pub same_key : String → String → String × String × ℕ → Bool
same_key action key r = str_eq r.0 action && str_eq r.1 key

pub last_of : String → String → Recent → Option ℕ
last_of action key [] = none
last_of action key (r ∷ rs) =
    let rest = last_of action key rs in if same_key action key r then some r.2 else rest

-- _THROTTLE[(action, key)] = now
pub put_last : String → String → ℕ → Recent → Recent
put_last action key now [] = (action, key, now) ∷ []
put_last action key now (r ∷ rs) =
    let rest = put_last action key now rs in
    if same_key action key r then (action, key, now) ∷ rs else r ∷ rest

-- What a call comes to: nothing is written, a row that carries the number of calls suppressed before it, or
-- a row with such a number that is lost, since `record` could not append it.
pub data Reply : Type 0 where
  suppressed_call : Reply
  written lost : ℕ → Reply

-- the call of `record`: whether the audit log takes the row
abbrev pub append_row : Bool → ℕ → Reply
append_row true n = written n
append_row false n = lost n

abbrev pub suppress : Throttle → Reply × Throttle
suppress t = (suppressed_call, record t { suppressed = t.suppressed + 1 })

-- a row is tried, and carries the number of those suppressed, which starts anew whether it is written or not
pub write_row : String → String → ℕ → Bool → Throttle → Reply × Throttle
write_row action key now lands t =
    let kept : Recent = if leb 1024 (length t.recent) then [] else t.recent in
    (
      append_row lands t.suppressed,
      record t {
        recent = put_last action key now kept;
        suppressed = 0;
        window_rows = t.window_rows + 1;
      },
    )

-- a new window when the old one is over
pub roll : ℕ → ℕ → Throttle → Throttle
roll window now t =
    if leb (t.window_start + window) now
    then record t { window_start = now; window_rows = 0 }
    else t

pub global_limit : String → String → ℕ → Bool → Throttle → Reply × Throttle
global_limit action key now lands t =
    if leb 120 t.window_rows then suppress t else write_row action key now lands t

-- last is not None and now - last < window_s
pub is_recent : ℕ → ℕ → Option ℕ → Bool
is_recent window now none = false
is_recent window now (some last) = ltb now (last + window)

pub record_throttled : ℕ → String → String → ℕ → Bool → Throttle → Reply × Throttle
record_throttled window action key now lands t =
    if is_recent window now (last_of action key t.recent)
    then suppress t
    else global_limit action key now lands (roll window now t)

-- the action, the key and the time of a call, and whether a row of it would be appended
pub record Call : Type 0 where
  pub action : String
  pub key : String
  pub now : ℕ
  pub lands : Bool

-- a sequence of calls: what each comes to, with its time
pub record_all : ℕ → List Call → Throttle → List (ℕ × Reply) × Throttle
record_all window [] t = ([], t)
record_all window (c ∷ cs) t =
    let (reply, t') = record_throttled window c.action c.key c.now c.lands t in
    let (replies, t'') = record_all window cs t' in ((c.now, reply) ∷ replies, t'')

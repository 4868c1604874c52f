-- ===== src/StateStore/AuditLog.antt =====
-- The audit log of state_store.py: an append-only, hash-chained table. The digest is SHA-256 of a
-- canonical JSON text, code that is not the program's: a parameter, from the previous hash and the fields.
pub mod Chain
mod Examples
use netlog_ai.Prelude.{
  ℕ, suc, ◌+◌, String, Bool, true, false, not, ◌&&◌, ◌||◌, Option, none, some, List, [], ◌∷◌, ◌++◌,
  ltb, leb, str_eq, if◌then◌else◌, last?, keep, take, clip, or_text, ◌==◌, reverse,
}

-- the fields that the digest covers, `_AUDIT_FIELDS`
pub record Entry : Type 0 where
  pub ts : ℕ
  pub actor : String
  pub role : String
  pub action : String
  pub target : String
  pub outcome : String
  pub remote : String
  pub detail : String

pub record AuditRow : Type 0 where
  pub id : ℕ
  pub entry : Entry
  pub prev_hash : String
  pub hash : String

pub record AuditLog : Type 0 where
  pub rows : List AuditRow
  pub next_id : ℕ

-- {"ok": …, "checked": …, "broken_at": …}
pub record Verdict : Type 0 where
  pub ok : Bool
  pub checked : ℕ
  pub broken_at : Option ℕ

-- The `row` that `audit_append` builds: defaults and length limits. A missing field is the empty text, a
-- missing or zero time is `now`, and `detail` is the JSON text that is already dumped.
unfoldable pub normalise : ℕ → Entry → Entry
normalise now e = record {
  ts = if e.ts == 0 then now else e.ts;
  actor = clip 200 (or_text e.actor "unknown");
  role = clip 40 e.role;
  action = clip 200 e.action;
  target = clip 500 e.target;
  outcome = clip 40 e.outcome;
  remote = clip 100 e.remote;
  detail = clip 8000 e.detail;
}

-- the hash of the newest row, "" for an empty table
unfoldable pub head_hash : List AuditRow → String
head_hash rows = elim (last? rows) [ none ↦ "" | some r ↦ r.hash ]

module _ (digest : String → Entry → String) where
  unfoldable pub audit_append : ℕ → Entry → AuditLog → AuditRow × AuditLog
  audit_append now e log =
      let row = normalise now e in
      let prev = head_hash log.rows in
      let r : AuditRow = record {
        id = log.next_id;
        entry = row;
        prev_hash = prev;
        hash = digest prev row;
      } in
      (r, record { rows = log.rows ++ r ∷ []; next_id = suc log.next_id })

  -- the loop of `audit_verify`, with the previous hash and the rows checked so far
  unfoldable pub verify_from : String → ℕ → List AuditRow → Verdict
  verify_from prev checked [] = record { ok = true; checked = checked; broken_at = none }
  verify_from prev checked (r ∷ rs) =
      let rest = verify_from r.hash (checked + 1) rs in
      if not (str_eq r.prev_hash prev) || not (str_eq (digest prev r.entry) r.hash)
      then record { ok = false; checked = checked; broken_at = some r.id }
      else rest

  unfoldable pub audit_verify : AuditLog → Verdict
  audit_verify log = verify_from "" 0 log.rows

-- The WHERE clause of `audit_query`, newest first; `like` is SQLite's LIKE with the pattern made
-- from `action`.
unfoldable pub audit_query :
    (String → String → Bool) → ℕ → String → String → ℕ → AuditLog → List AuditRow
audit_query like limit actor action since log = take limit (
    reverse (
      keep
        (λ r.
          leb since r.entry.ts
          && ((str_eq actor "" || str_eq r.entry.actor actor)
              && (str_eq action "" || like action r.entry.action)))
        log.rows))

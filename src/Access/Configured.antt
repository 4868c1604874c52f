-- ===== src/Access/Configured.antt =====
-- About `auth_enabled` and what a configuration sets.
use netlog_ai.Prelude.{
  ℕ, suc, ◌&&◌, ◌||◌, not, String, ◌≡◌, ◌≢◌, refl, Bool, true, false, Option, none, some, List, [],
  ◌∷◌, arith, str_eq, if◌then◌else◌, any, or_text, inl, inr, Option-cases,
}
use netlog_ai.Access.{
  Principal, Texts, Config, is_on, both, check_len, principal_of, parts_of, entry_principals,
  entries_principals, env_principals, file_principals, users_of, principals, auth_enabled,
}

both-empty : (a b : Option (List Principal)) → both a b ≡ some [] → (a ≡ some []) × (b ≡ some [])
both-empty none b h = absurd (ground arith)
both-empty (some l) none h = absurd (ground arith)
both-empty (some []) (some m) h = (refl, h)
both-empty (some (p ∷ l)) (some m) h = absurd (ground arith)

is_on-off : (o : Option (List Principal)) → is_on o ≡ some false → o ≡ some []
is_on-off none h = absurd (ground arith)
is_on-off (some []) h = refl
is_on-off (some (p ∷ ps)) h = absurd (ground arith)

module _ (t : Texts) where
  -- what an entry gives as its token
  abbrev pub token_of : String → String
  token_of item = elim (t.partition item) [ none ↦ item | some (name, token) ↦ token ]

  -- an entry that gives a token
  abbrev pub gives_token : String → Bool
  gives_token item =
      not (str_eq (t.strip item) "") && not (str_eq (t.strip (token_of (t.strip item))) "")

  principal_of-some : (name role token : String) → principal_of t name role token ≢ some []
  unfolding principal_of check_len
  principal_of-some name role token h = absurd (ground (arith, h))

  parts_of-token :
      (role : String) (i : ℕ) (item : String) → (parts_of t role i item).1 ≡ token_of item
  unfolding parts_of
  parts_of-token role i item = elim (Option-cases (t.partition item)) [
    | inl e ↦ rw (e, parts_of, token_of) refl
    | inr ((name, token), e) ↦ rw (e, parts_of, token_of) refl
  ]

  entry-empty :
      (role : String) (i : ℕ) (item : String)
      → entry_principals t role i (t.strip item) ≡ some []
      → gives_token item ≡ false
  unfolding entry_principals
  entry-empty role i item h =
      let text = t.strip item in
      let (name, token) = parts_of t role i text in
      let made =
        principal_of-some (or_text (t.strip name) (t.bare_name role i)) role (t.strip token) in
      ground (arith, h, made, parts_of-token role i text)

  entries-empty :
      (role : String) (i : ℕ) (items : List String)
      → entries_principals t role i items ≡ some []
      → any gives_token items ≡ false
  unfolding entries_principals
  entries-empty role i [] h = refl
  entries-empty role i (item ∷ items) h =
      let (first, rest) =
        both-empty (entry_principals t role i (t.strip item))
          (entries_principals t role (suc i) items) h in
      ground (arith, entry-empty role i item first, entries-empty role (suc i) items rest)

  -- some of the three variables gives a token, or the legacy one is set
  abbrev pub configures : Config → Bool
  configures cfg =
      not (str_eq cfg.legacy_token "")
      || (any gives_token (t.split_commas cfg.viewer_tokens)
          || (any gives_token (t.split_commas cfg.operator_tokens)
              || any gives_token (t.split_commas cfg.admin_tokens)))

  principals-empty : (cfg : Config) → principals t cfg ≡ some [] → configures cfg ≡ false
  unfolding principals env_principals
  principals-empty cfg h =
      let legacy =
        if str_eq cfg.legacy_token ""
        then some []
        else principal_of t "shared-token" "admin" cfg.legacy_token in
      let viewer = entries_principals t "viewer" 0 (t.split_commas cfg.viewer_tokens) in
      let operator = entries_principals t "operator" 0 (t.split_commas cfg.operator_tokens) in
      let admin = entries_principals t "admin" 0 (t.split_commas cfg.admin_tokens) in
      let (no_legacy, rest) =
        both-empty legacy
          (both (both viewer (both operator admin)) (file_principals t (users_of t cfg.file))) h in
      let (env, file) =
        both-empty (both viewer (both operator admin)) (file_principals t (users_of t cfg.file))
          rest in
      let (no_viewer, env') = both-empty viewer (both operator admin) env in
      let (no_operator, no_admin) = both-empty operator admin env' in
      ground (
        arith,
        no_legacy,
        principal_of-some "shared-token" "admin" cfg.legacy_token,
        entries-empty "viewer" 0 (t.split_commas cfg.viewer_tokens) no_viewer,
        entries-empty "operator" 0 (t.split_commas cfg.operator_tokens) no_operator,
        entries-empty "admin" 0 (t.split_commas cfg.admin_tokens) no_admin,
      )

  -- A configuration that sets the legacy token, or gives a token in one of the three variables, never leaves
  -- authentication off: it is on, or the configuration is refused with an error. This holds of tokens that
  -- are too short, and whatever the file of users is.
  pub auth_enabled-configured :
      (cfg : Config) → configures cfg ≡ true → auth_enabled t cfg ≢ some false
  unfolding auth_enabled
  auth_enabled-configured cfg on off =
      absurd (ground (arith, on, principals-empty cfg (is_on-off (principals t cfg) off)))

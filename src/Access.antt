-- ===== src/Access.antt =====
-- rbac.py: roles, the principals that the configuration names, and their authentication. Python's text
-- functions and SHA-256 are parameters; a configuration error (`RbacConfigError`) is `none`.
pub mod Configured
pub mod Tokens
mod Examples
use netlog_ai.Prelude.{
  ℕ, suc, ◌+◌, ◌&&◌, ◌||◌, not, String, Bool, true, false, Option, none, some, List, [], ◌∷◌, ◌++◌,
  leb, ltb, ◌==◌, str_eq, if◌then◌else◌, or_text,
}

-- Python's functions on texts. `bare_name role i` is f"{role}-{i + 1}"; `partition` splits at the first
-- colon, `none` where there is none.
pub record Texts : Type 0 where
  pub len : String → ℕ
  pub strip : String → String
  pub lower : String → String
  pub partition : String → Option (String × String)
  pub split_commas : String → List String
  pub bare_name : String → ℕ → String
  -- `_digest`, the SHA-256 in hexadecimal
  pub digest : String → String

abbrev pub min_token_len : ℕ
min_token_len = 16

-- RANK
unfoldable pub rank : String → Option ℕ
rank role =
    if str_eq role "viewer"
    then some 1
    else if str_eq role "operator"
    then some 2
    else if str_eq role "admin"
    then some 3
    else none

pub record Principal : Type 0 where
  pub name : String
  pub role : String
  pub token_sha256 : String

-- RANK.get(role, 0)
abbrev pub rank_or_zero : Option ℕ → ℕ
rank_or_zero none = 0
rank_or_zero (some n) = n

-- `none`: the KeyError of a role that is required but unknown
pub allows : Principal → String → Option Bool
allows p required = elim (rank required) [
  | none ↦ none
  | some n ↦ some (leb n (rank_or_zero (rank p.role)))
]

-- the configuration: the legacy token, the texts of the three variables, and the users of the file,
-- `none` where it cannot be read
pub record User : Type 0 where
  pub name : String
  pub role : String
  pub token_sha256 : String
  pub token : String

pub record Config : Type 0 where
  pub legacy_token : String
  pub viewer_tokens : String
  pub operator_tokens : String
  pub admin_tokens : String
  -- no path, or the file
  pub file : Option (Option (List User))

-- a list of results of which one may be an error, put in front of the rest
abbrev pub both : Option (List Principal) → Option (List Principal) → Option (List Principal)
both none rest = none
both (some l) none = none
both (some l) (some m) = some (l ++ m)

abbrev pub is_on : Option (List Principal) → Option Bool
is_on none = none
is_on (some []) = some false
is_on (some (p ∷ ps)) = some true

module _ (t : Texts) where
  pub check_len : String → Option String
  check_len token = if ltb (t.len token) min_token_len then none else some token

  -- a principal whose token is given in the clear
  pub principal_of : String → String → String → Option (List Principal)
  principal_of name role token = elim (check_len token) [
    | none ↦ none
    | some checked ↦
        some (record { name = name; role = role; token_sha256 = t.digest checked } ∷ [])
  ]

  -- the name and the token of an entry that is not empty
  pub parts_of : String → ℕ → String → String × String
  parts_of role i item = elim (t.partition item) [
    | none ↦ (t.bare_name role i, item)
    | some (name, token) ↦ (name, token)
  ]

  pub entry_principals : String → ℕ → String → Option (List Principal)
  entry_principals role i item =
      let (name, token) = parts_of role i item in
      let stripped = t.strip token in
      if str_eq item ""
      then some []
      else if str_eq stripped ""
      then some []
      else principal_of (or_text (t.strip name) (t.bare_name role i)) role stripped

  pub entries_principals : String → ℕ → List String → Option (List Principal)
  entries_principals role i [] = some []
  entries_principals role i (item ∷ items) =
      both (entry_principals role i (t.strip item)) (entries_principals role (suc i) items)

  -- the loop over ROLES
  pub env_principals : Config → Option (List Principal)
  env_principals cfg = both (entries_principals "viewer" 0 (t.split_commas cfg.viewer_tokens)) (
      both (entries_principals "operator" 0 (t.split_commas cfg.operator_tokens))
        (entries_principals "admin" 0 (t.split_commas cfg.admin_tokens)))

  abbrev known_role : String → Bool
  known_role role = elim (rank role) [ none ↦ false | some n ↦ true ]

  -- the digest of a user, from the file or made of a token in the clear
  pub user_digest : String → String → User → Option String
  user_digest name role u =
      let given = t.lower (t.strip u.token_sha256) in
      if str_eq given "" && (not (str_eq u.token "") && (known_role role && not (str_eq name "")))
      then elim (check_len u.token) [ none ↦ none | some checked ↦ some (t.digest checked) ]
      else some given

  pub user_principals : User → Option (List Principal)
  user_principals u =
      let role = t.lower u.role in
      let name = t.strip u.name in
      elim (user_digest name role u) [
        | none ↦ none
        | some digest ↦
            if not (known_role role) || (str_eq name "" || not (t.len digest == 64))
            then some []
            else some (record { name = name; role = role; token_sha256 = digest } ∷ [])
      ]

  pub file_principals : List User → Option (List Principal)
  file_principals [] = some []
  file_principals (u ∷ us) = both (user_principals u) (file_principals us)

  -- a file that cannot be read has no users
  abbrev pub users_of : Option (Option (List User)) → List User
  users_of none = []
  users_of (some none) = []
  users_of (some (some us)) = us

  -- `principals`, on a cache miss
  pub principals : Config → Option (List Principal)
  principals cfg =
      both
        (if str_eq cfg.legacy_token ""
          then some []
          else principal_of "shared-token" "admin" cfg.legacy_token)
        (both (env_principals cfg) (file_principals (users_of cfg.file)))

  -- bool(principals(…))
  pub auth_enabled : Config → Option Bool
  auth_enabled cfg = is_on (principals cfg)

  -- the loop of `authenticate`: it goes over all entries, and the first that matches is kept
  pub find : String → List Principal → Option Principal → Option Principal
  find digest [] found = found
  find digest (p ∷ ps) found = find digest ps (elim found [
    | none ↦ if str_eq p.token_sha256 digest then some p else none
    | some q ↦ some q
  ])

  -- `none`: the configuration error
  pub authenticate : String → Config → Option (Option Principal)
  authenticate token cfg =
      if str_eq token ""
      then some none
      else elim (principals cfg) [ none ↦ none | some ps ↦ some (find (t.digest token) ps none) ]

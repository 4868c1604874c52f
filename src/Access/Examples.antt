-- ===== src/Access/Examples.antt =====
-- The theorems about access, for a configuration of one operator and a legacy token.
use netlog_ai.Prelude.{◌≡◌, ◌≢◌, refl, false, none, some, [], ◌∷◌, if◌then◌else◌, str_eq}
use netlog_ai.Access.{
  Principal, Texts, Config, check_len, principal_of, parts_of, entry_principals, entries_principals,
  env_principals, file_principals, principals, find, authenticate, auth_enabled,
}
use netlog_ai.Access.Configured.{auth_enabled-configured}
use netlog_ai.Access.Tokens.{IsConfigured, authenticate-IsConfigured}

abbrev texts : Texts
texts = record {
  len = λ s. if str_eq s "" then 0 else 20;
  strip = λ s. s;
  lower = λ s. s;
  partition = λ s.
      if str_eq s "alice:0123456789abcdef0123"
      then some ("alice", "0123456789abcdef0123")
      else none;
  split_commas = λ s. s ∷ [];
  bare_name = λ role i. role;
  digest = λ s. s;
}

abbrev config : Config
config = record {
  legacy_token = "legacy-token-of-twenty";
  viewer_tokens = "";
  operator_tokens = "alice:0123456789abcdef0123";
  admin_tokens = "";
  file = none;
}

auth_enabled-configured_example : auth_enabled texts config ≢ some false
auth_enabled-configured_example = auth_enabled-configured texts config refl

abbrev alice : Principal
alice = record { name = "alice"; role = "operator"; token_sha256 = "0123456789abcdef0123" }

authenticate-IsConfigured_example :
    IsConfigured texts config alice × (alice.token_sha256 ≡ "0123456789abcdef0123")
unfolding authenticate principals env_principals entries_principals entry_principals parts_of
    principal_of check_len find file_principals
authenticate-IsConfigured_example =
    authenticate-IsConfigured texts config "0123456789abcdef0123" alice refl refl

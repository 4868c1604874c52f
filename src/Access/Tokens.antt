-- ===== src/Access/Tokens.antt =====
-- About the tokens that `authenticate` lets in.
use mathlib.Core.Option.{some-injective}
use netlog_ai.Prelude.{
  ℕ, suc, ◌≤◌, String, ◌≡◌, refl, sym, subst, ◌∙◌, Option, none, some, List, [], ◌∷◌, arith, ltb,
  str_eq, eq_iff, if◌then◌else◌, or_text, All, All-append, All-map, Mem, mem-cons_self,
  mem-cons_of_mem, inl, inr, Bool-cases, Option-cases,
}
use netlog_ai.Access.{
  Principal, Texts, Config, both, min_token_len, check_len, principal_of, parts_of,
  entry_principals, entries_principals, env_principals, file_principals, users_of, principals, find,
  authenticate,
}

-- a property of all principals, where there is no configuration error
abbrev AllOf {κ} : (Principal → Type κ) → Option (List Principal) → Type κ
AllOf P none = Unit
AllOf P (some l) = All P l

both-AllOf {κ} :
    (P : Principal → Type κ) (a b : Option (List Principal))
    → AllOf P a
    → AllOf P b
    → AllOf P (both a b)
both-AllOf P none b h k = tt
both-AllOf P (some l) none h k = tt
both-AllOf P (some l) (some m) h k = All-append P l m h k

module _ (t : Texts) where
  -- the token of an entry of a variable: what stands after its first colon, all of it where it has none
  abbrev pub token_of : String → String
  token_of entry = elim (t.partition (t.strip entry)) [
    | none ↦ t.strip (t.strip entry)
    | some (name, token) ↦ t.strip token
  ]

  -- a principal with a role and a token of at least 16 characters
  abbrev pub Holds : String → String → Principal → Type 0
  Holds role token p =
      (p.role ≡ role) × (p.token_sha256 ≡ t.digest token) × (min_token_len ≤ t.len token)

  -- one entry of a variable's text gives the principal its token, and the variable its role
  abbrev pub IsListed : String → String → Principal → Type 0
  IsListed role text p =
      (entry : String) × Mem entry (t.split_commas text) × Holds role (token_of entry) p

  -- the configuration gives the principal its token and its role
  pub data IsConfigured (cfg : Config) (p : Principal) : Type 0 where
    shared : Holds "admin" cfg.legacy_token p → IsConfigured cfg p
    a_viewer : IsListed "viewer" cfg.viewer_tokens p → IsConfigured cfg p
    an_operator : IsListed "operator" cfg.operator_tokens p → IsConfigured cfg p
    an_admin : IsListed "admin" cfg.admin_tokens p → IsConfigured cfg p

  principal_of-Holds :
      (name role token : String) → AllOf (Holds role token) (principal_of t name role token)
  unfolding principal_of check_len
  principal_of-Holds name role token = elim (Bool-cases (ltb (t.len token) min_token_len)) [
    | inl e ↦ rw (e, AllOf, check_len) tt
    | inr e ↦ rw (e, AllOf, check_len) ((refl, refl, ground (arith, e)), tt)
  ]

  parts_of-token :
      (role : String) (i : ℕ) (entry : String)
      → t.strip (parts_of t role i (t.strip entry)).1 ≡ token_of entry
  unfolding parts_of
  parts_of-token role i entry = elim (Option-cases (t.partition (t.strip entry))) [
    | inl e ↦ rw (e, parts_of, token_of) refl
    | inr (parts, e) ↦ rw (e, parts_of, token_of) refl
  ]

  entry-Holds :
      (role : String) (i : ℕ) (entry : String)
      → AllOf (Holds role (token_of entry)) (entry_principals t role i (t.strip entry))
  unfolding entry_principals
  entry-Holds role i entry =
      let item = t.strip entry in
      let (name, token) = parts_of t role i item in
      let stripped = t.strip token in
      elim (Bool-cases (str_eq item "")) [
        | inl e ↦ rw (e, AllOf, entry_principals) tt
        | inr e ↦ elim (Bool-cases (str_eq stripped "")) [
          | inl f ↦ rw (e, AllOf, entry_principals, f) tt
          | inr f ↦
              let shown = or_text (t.strip name) (t.bare_name role i) in
              rw (e, AllOf, entry_principals, f)
                (subst (λ x. AllOf (Holds role x) (principal_of t shown role stripped))
                  (parts_of-token role i entry) (principal_of-Holds shown role stripped))
        ]
      ]

  module _ (P : Principal → Type 0) where
    AllOf-weaken :
        (Q : Principal → Type 0) (l : Option (List Principal))
        → ((p : Principal) → Q p → P p)
        → AllOf Q l
        → AllOf P l
    AllOf-weaken Q none f h = tt
    AllOf-weaken Q (some l) f h = All-map Q P f l h

    entries-All :
        (role : String) (i : ℕ) (entries : List String)
        → ((entry : String) (p : Principal)
            → Mem entry entries
            → Holds role (token_of entry) p
            → P p)
        → AllOf P (entries_principals t role i entries)
    unfolding entries_principals
    entries-All role i [] f = tt
    entries-All role i (entry ∷ entries) f =
        let own = entry_principals t role i (t.strip entry) in
        both-AllOf P own (entries_principals t role (suc i) entries)
          (AllOf-weaken (Holds role (token_of entry)) own (λ p h. f entry p mem-cons_self h)
            (entry-Holds role i entry))
          (entries-All role (suc i) entries (λ e p m h. f e p (mem-cons_of_mem entry m) h))

  env-IsConfigured : (cfg : Config) → AllOf (IsConfigured cfg) (env_principals t cfg)
  unfolding env_principals
  env-IsConfigured cfg =
      let P = IsConfigured cfg in
      let viewers = t.split_commas cfg.viewer_tokens in
      let operators = t.split_commas cfg.operator_tokens in
      let admins = t.split_commas cfg.admin_tokens in
      let viewer = entries_principals t "viewer" 0 viewers in
      let operator = entries_principals t "operator" 0 operators in
      let admin = entries_principals t "admin" 0 admins in
      both-AllOf P viewer (both operator admin)
        (entries-All P "viewer" 0 viewers (λ e p m h. a_viewer (e, m, h)))
        (both-AllOf P operator admin
          (entries-All P "operator" 0 operators (λ e p m h. an_operator (e, m, h)))
          (entries-All P "admin" 0 admins (λ e p m h. an_admin (e, m, h))))

  principals-IsConfigured :
      (cfg : Config) → cfg.file ≡ none → AllOf (IsConfigured cfg) (principals t cfg)
  unfolding principals
  principals-IsConfigured cfg no_file =
      let P = IsConfigured cfg in
      let given = principal_of t "shared-token" "admin" cfg.legacy_token in
      let legacy = if str_eq cfg.legacy_token "" then some [] else given in
      let own : AllOf P legacy = elim (Bool-cases (str_eq cfg.legacy_token "")) [
        | inl e ↦ rw (e, AllOf) tt
        | inr e ↦
            rw (e, AllOf)
              (AllOf-weaken P (Holds "admin" cfg.legacy_token) given (λ p h. shared h)
                (principal_of-Holds "shared-token" "admin" cfg.legacy_token))
      ] in
      let users : AllOf P (file_principals t (users_of t cfg.file)) =
        subst (λ f. AllOf P (file_principals t (users_of t f))) (sym no_file)
          (unfold file_principals in tt) in
      both-AllOf P legacy (both (env_principals t cfg) (file_principals t (users_of t cfg.file)))
        own
        (both-AllOf P (env_principals t cfg) (file_principals t (users_of t cfg.file))
          (env-IsConfigured cfg) users)

  find-later :
      (digest : String) (ps : List Principal) (p : Principal) → find t digest ps (some p) ≡ some p
  unfolding find
  find-later digest [] p = refl
  find-later digest (q ∷ ps) p = find-later digest ps p

  find-found :
      (P : Principal → Type 0) (digest : String) (ps : List Principal) (p : Principal)
      → All P ps
      → find t digest ps none ≡ some p
      → P p × (p.token_sha256 ≡ digest)
  unfolding find
  find-found P digest [] p h e = absurd (ground (arith, e))
  find-found P digest (q ∷ ps) p h e = elim (Bool-cases (str_eq q.token_sha256 digest)) [
    | inl same ↦
        let found : some q ≡ some p =
          sym (find-later digest ps q)
          ∙ subst (λ b. find t digest ps (if b then some q else none) ≡ some p) same e in
        let own : q ≡ p = some-injective q p found in
        subst (λ x. P x × (x.token_sha256 ≡ digest)) own
          (h.0, (eq_iff q.token_sha256 digest).0 same)
    | inr other ↦
        find-found P digest ps p h.1
          (subst (λ b. find t digest ps (if b then some q else none) ≡ some p) other e)
  ]

  -- When no file of users is configured, whoever is let in is a principal that the configuration gives: it
  -- has the role of an administrator and the digest of the legacy token, or the role of one of the three
  -- variables and the digest of the token of an entry of this variable's text. That token has at least 16
  -- characters, and the token that was shown has the same digest.
  pub authenticate-IsConfigured :
      (cfg : Config) (token : String) (p : Principal)
      → cfg.file ≡ none
      → authenticate t token cfg ≡ some (some p)
      → IsConfigured cfg p × (p.token_sha256 ≡ t.digest token)
  unfolding authenticate
  authenticate-IsConfigured cfg token p no_file e = elim (Option-cases (principals t cfg)) [
    | inl refused ↦ absurd (ground (arith, e, refused))
    | inr (ps, read) ↦
        let all : All (IsConfigured cfg) ps =
          subst (AllOf (IsConfigured cfg)) read (principals-IsConfigured cfg no_file) in
        let found : find t (t.digest token) ps none ≡ some p = ground (arith, e, read) in
        find-found (IsConfigured cfg) (t.digest token) ps p all found
  ]

-- ===== src/Vault.antt =====
-- sanitize_vault.py: `SanitizeVault`, the bounded and reversible map from network entities to tokens. A token
-- stands for its text `<kind_idx>`, with the index in plain decimal; a text that matches the pattern of tokens in
-- another way (a leading zero) is never a key of the reverse map, and is a piece of plain text here.
-- The forward map is the list of its entries, the least recently used first. Times are clock ticks.
pub mod Tokens
pub mod Entries
pub mod Valid
pub mod Exclusive
pub mod RoundTrip
mod Examples
use netlog_ai.Prelude.{
  ℕ, suc, ◌+◌, String, Bool, true, false, not, ◌&&◌, Option, none, some, List, [], ◌∷◌, ◌++◌, ltb,
  leb, ◌==◌, str_eq, if◌then◌else◌, length, keep, Dict, lookup, insert,
}

pub record Token : Type 0 where
  pub kind : String
  pub idx : ℕ

abbrev pub token_eq : Token → Token → Bool
token_eq a b = str_eq a.kind b.kind && (a.idx == b.idx)

-- an item of `_forward`: the key (kind, key), and (token, display, last-seen)
pub record Entry : Type 0 where
  pub kind : String
  pub key : String
  pub token : Token
  pub display : String
  pub seen : ℕ

pub record Vault : Type 0 where
  pub max_entries : ℕ
  pub forward : List Entry
  pub reverse : List (Token × String)
  pub counters : Dict ℕ

-- what a caller of `_token_for` asks for, and the clock when it does
pub record Request : Type 0 where
  pub kind : String
  pub key : String
  pub display : String
  pub now : ℕ

abbrev pub has_key : String → String → Entry → Bool
has_key kind key e = str_eq e.kind kind && str_eq e.key key

-- self._forward.get((kind, key))
unfoldable pub find : String → String → List Entry → Option Entry
find kind key [] = none
find kind key (e ∷ l) = let rest = find kind key l in if has_key kind key e then some e else rest

-- self._reverse.get(token)
unfoldable pub reveal : Token → List (Token × String) → Option String
reveal t [] = none
reveal t (r ∷ l) = let rest = reveal t l in if token_eq r.0 t then some r.1 else rest

-- self._reverse.pop(token, None)
unfoldable pub forget : Token → List (Token × String) → List (Token × String)
forget t = keep (λ r. not (token_eq r.0 t))

-- self._reverse[token] = display
unfoldable pub remember : Token → String → List (Token × String) → List (Token × String)
remember t display [] = (t, display) ∷ []
remember t display (r ∷ l) =
    let rest = remember t display l in if token_eq r.0 t then (t, display) ∷ l else r ∷ rest

-- while len(self._forward) > self.max_entries: self._evict_oldest()
unfoldable pub shrink : ℕ → List Entry → List (Token × String) → List Entry × List (Token × String)
shrink max [] reverse = ([], reverse)
shrink max (e ∷ l) reverse =
    let rest = shrink max l (forget e.token reverse) in
    if ltb max (length (e ∷ l)) then rest else (e ∷ l, reverse)

-- the loop of `_expire`, at `now`
unfoldable pub drop_expired :
    ℕ → ℕ → List Entry → List (Token × String) → List Entry × List (Token × String)
drop_expired ttl now [] reverse = ([], reverse)
drop_expired ttl now (e ∷ l) reverse =
    let rest = drop_expired ttl now l (forget e.token reverse) in
    if leb now (e.seen + ttl) then (e ∷ l, reverse) else rest

unfoldable pub expire : Option ℕ → ℕ → Vault → Vault
expire none now v = v
expire (some ttl) now v =
    if ttl == 0
    then v
    else (let (forward, reverse) = drop_expired ttl now v.forward v.reverse in
        record v { forward = forward; reverse = reverse })

-- self._counters.get(kind, 0)
unfoldable pub counter : String → Dict ℕ → ℕ
counter kind counters = elim (lookup kind counters) [ none ↦ 0 | some n ↦ n ]

-- the entries without that of a key
unfoldable pub without : String → String → List Entry → List Entry
without kind key [] = []
without kind key (e ∷ l) =
    let rest = without kind key l in if has_key kind key e then l else e ∷ rest

-- the entry is used again: move_to_end
unfoldable pub touch : Request → Entry → List Entry → List Entry
touch r e forward = without r.kind r.key forward ++ record e { seen = r.now } ∷ []

-- a new entity
unfoldable pub issue : Request → Vault → Token × Vault
issue r v =
    let n = counter r.kind v.counters + 1 in
    let token : Token = record { kind = r.kind; idx = n } in
    let entry : Entry = record {
      kind = r.kind;
      key = r.key;
      token = token;
      display = r.display;
      seen = r.now;
    } in
    let (forward, reverse) =
      shrink v.max_entries (v.forward ++ entry ∷ []) (remember token r.display v.reverse) in
    (
      token,
      record v { forward = forward; reverse = reverse; counters = insert r.kind n v.counters },
    )

unfoldable pub token_for : Request → Vault → Token × Vault
token_for r v = elim (find r.kind r.key v.forward) [
  | none ↦ issue r v
  | some e ↦ (e.token, record v { forward = touch r e v.forward })
]

-- the entities of a text, one after the other
unfoldable pub token_for_all : List Request → Vault → List Token × Vault
token_for_all [] v = ([], v)
token_for_all (r ∷ rs) v =
    let (t, v') = token_for r v in let (ts, v'') = token_for_all rs v' in (t ∷ ts, v'')

-- a part of a text: plain, or a token
pub data Piece : Type 0 where
  plain_text : String → Piece
  token_text : Token → Piece

-- the replacement in `detokenize`: a token that is unknown stays
unfoldable pub restore : Vault → Piece → Piece
restore v (plain_text s) = plain_text s
restore v (token_text t) = elim (reveal t v.reverse) [
  | none ↦ token_text t
  | some display ↦ plain_text display
]

unfoldable pub clear : Vault → Vault
clear v = record v { forward = []; reverse = [] }

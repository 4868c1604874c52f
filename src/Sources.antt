-- ===== src/Sources.antt =====
-- sources/manager.py: `SourceManager`, which holds the live sources. Source objects are numbered as they are
-- made; what `registry.create` and `close` do (return, or raise) is a parameter of each step.
pub mod Leaks
pub mod Failures
mod Examples
use netlog_ai.Prelude.{
  ℕ, suc, ◌==◌, ◌||◌, String, Bool, true, false, Option, none, some, List, [], ◌∷◌, ◌++◌,
  if◌then◌else◌, map, any, Dict, lookup, insert, erase,
}

-- the configurations: their ids, and the equality of the dataclass
pub record Configs : Type 1 where
  pub Config : Type 0
  pub id : Config → String
  pub same : Config → Config → Bool

module _ (k : Configs) where
  -- `_sources` and `_configs`, with the sources whose `close` was called and the number of the next one
  pub record Manager : Type 0 where
    pub sources : Dict ℕ
    pub configs : Dict k.Config
    pub closed : List ℕ
    pub next : ℕ

  pub empty : Manager
  empty = record { sources = []; configs = []; closed = []; next = 0 }

  -- the answer: the source, or `none` for an exception
  pub replace : Bool → k.Config → Manager → Option ℕ × Manager
  replace creates c m =
      if creates
      then (
        some m.next,
        record m {
          sources = insert (k.id c) m.next m.sources;
          configs = insert (k.id c) c m.configs;
          next = suc m.next;
        },
      )
      else (none, m)

  -- `existing.close()`, which may raise
  pub close_then : Bool → Bool → k.Config → ℕ → Manager → Option ℕ × Manager
  close_then closes creates c src m =
      let m' = record m { closed = src ∷ m.closed } in
      if closes then replace creates c m' else (none, m')

  -- self._configs.get(config.id) == config
  pub is_same : k.Config → Option k.Config → Bool
  is_same c none = false
  is_same c (some d) = k.same d c

  pub add : Bool → Bool → k.Config → Manager → Option ℕ × Manager
  add closes creates c m = elim (lookup (k.id c) m.sources) [
    | none ↦ replace creates c m
    | some src ↦
        if is_same c (lookup (k.id c) m.configs)
        then (some src, m)
        else close_then closes creates c src m
  ]

  -- an exception of `close` is logged
  pub remove : String → Manager → Bool × Manager
  remove source_id m = elim (lookup source_id m.sources) [
    | none ↦ (false, record m { configs = erase source_id m.configs })
    | some src ↦ (
      true,
      record m {
        sources = erase source_id m.sources;
        configs = erase source_id m.configs;
        closed = src ∷ m.closed;
      },
    )
  ]

  pub shutdown : Manager → Manager
  shutdown m = record m {
    sources = [];
    configs = [];
    closed = map (λ row. row.1) m.sources ++ m.closed;
  }

  pub get : String → Manager → Option ℕ
  get source_id m = lookup source_id m.sources

  pub data Call : Type 0 where
    -- with whether the old source's `close` returns, and whether a new one can be made
    add_call : Bool → Bool → k.Config → Call
    remove_call : String → Call
    shutdown_call : Call

  pub step : Call → Manager → Manager
  step (add_call closes creates c) m = (add closes creates c m).1
  step (remove_call source_id) m = (remove source_id m).1
  step shutdown_call m = shutdown m

  pub run : List Call → Manager → Manager
  run [] m = m
  run (c ∷ cs) m = run cs (step c m)

-- ===== src/Prelude/Texts.antt =====
-- Python's `s[:n]` and `a or b` on texts.
use Prim.Native.Nat.{ℕ, zero, suc}
use Prim.Native.String.{String}
use text.Mathlib.Text.{◌==◌ as str_eq}
use netlog_ai.Prelude.Tests.{if◌then◌else◌}

-- s[:n]
unfoldable pub clip : ℕ → String → String
clip zero s = String.[]
clip (suc n) String.[] = String.[]
clip (suc n) (String.◌∷◌ c s) = String.◌∷◌ c (clip n s)

-- `a or b`: an empty text is false
abbrev pub or_text : String → String → String
or_text a b = if str_eq a "" then b else a

-- a + b
unfoldable pub join : String → String → String
join String.[] t = t
join (String.◌∷◌ c s) t = String.◌∷◌ c (join s t)

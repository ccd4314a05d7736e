-- ===== src/Prelude/Texts.antt =====
-- Texts written as string literals.
use Prim.Native.Char.{code}
use Prim.Native.String.{String}
use mathlib.Core.List.{[], ◌∷◌}
use vpnself.Prelude.Keys.{Text}

-- The code points of a string.
abbrev pub codes : String → Text
codes String.[] = []
codes (String.◌∷◌ c s) = code c ∷ codes s

-- ===== src/Base/Literals.antt =====
-- Texts that stand in the source as literals.
use Prim.Native.Nat.{ℕ}
use Prim.Native.Char.{code}
use Prim.Native.String.{String}
use mathlib.Core.List.{List, [], ◌∷◌}
use Prim.Native.Nat.{◌+◌}
use mathlib.Core.Bool.{Bool, ◌&&◌, ◌||◌}
use harmony_migration.Base.Tests.{leb, if◌then◌else◌}
use harmony_migration.Base.Order.{Text}

-- The code points of a text.
abbrev pub codes : String → List ℕ
codes String.[] = []
codes (String.◌∷◌ c s) = code c ∷ codes s

-- `text.lower()`, on the ASCII letters; the texts so treated are hexadecimal.
abbrev pub lower : Text → Text
lower [] = []
lower (c ∷ cs) = (if leb 65 c && leb c 90 then c + 32 else c) ∷ lower cs

-- `text.strip()`, of the ASCII spaces.
abbrev is_space : ℕ → Bool
is_space c = (leb 9 c && leb c 13) || (leb 28 c && leb c 32)

abbrev strip_left : Text → Text
strip_left [] = []
strip_left (c ∷ cs) = let rest = strip_left cs in if is_space c then rest else c ∷ cs

abbrev strip_right : Text → Text
strip_right [] = []
strip_right (c ∷ cs) = elim (strip_right cs) [
  | [] ↦ if is_space c then [] else c ∷ []
  | d ∷ ds ↦ c ∷ d ∷ ds
]

abbrev pub strip : Text → Text
strip t = strip_right (strip_left t)

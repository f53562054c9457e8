-- ===== src/Prelude/Lower.antt =====
-- `str.lower` on ASCII text, as the code points of the result, and tests on such texts.
use Prim.Native.Nat.{ℕ, ◌+◌}
use Prim.Native.Char.{code}
use Prim.Native.String.{String}
use mathlib.Core.Bool.{Bool, true, false, ◌&&◌, ◌||◌}
use mathlib.Core.List.{List, [], ◌∷◌}
use mathlib.Core.Option.{Option, none, some}
use voice_mesh.Prelude.Tests.{leb, ◌==◌, if◌then◌else◌}

abbrev pub codes : String → List ℕ
codes String.[] = []
codes (String.◌∷◌ c s) = code c ∷ codes s

abbrev pub lower_code : ℕ → ℕ
lower_code c = if leb b'A' c && leb c b'Z' then c + 32 else c

unfoldable pub lower : String → List ℕ
lower String.[] = []
lower (String.◌∷◌ c s) = lower_code (code c) ∷ lower s

-- `str(value or "").lower()`
abbrev pub lower_or_empty : Option String → List ℕ
lower_or_empty none = []
lower_or_empty (some s) = lower s

unfoldable pub same_codes : List ℕ → List ℕ → Bool
same_codes [] [] = true
same_codes (c ∷ cs) (d ∷ ds) = c == d && same_codes cs ds
same_codes _ _ = false

-- `lowered == text` and `lowered in set(texts)`
abbrev pub is_word : List ℕ → String → Bool
is_word cs s = same_codes cs (codes s)

abbrev pub among : List ℕ → List String → Bool
among cs [] = false
among cs (s ∷ ss) = is_word cs s || among cs ss

-- The white space of `str.split` and `str.strip` in ASCII.
abbrev pub is_space : ℕ → Bool
is_space c = c == 32 || (leb 9 c && leb c 13) || (leb 28 c && leb c 31)

abbrev pub starts_with : List ℕ → List ℕ → Bool
starts_with [] cs = true
starts_with (d ∷ ds) [] = false
starts_with (d ∷ ds) (c ∷ cs) = d == c && starts_with ds cs

-- `marker in cleaned`, and `any(marker in cleaned for marker in markers)`.
abbrev pub contains : List ℕ → List ℕ → Bool
contains ds [] = starts_with ds []
contains ds (c ∷ cs) = starts_with ds (c ∷ cs) || contains ds cs

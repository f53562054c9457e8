-- ===== src/Prelude/Texts.antt =====
-- Python's tests on texts and on optional texts, and its sets of texts as lists.
use Prim.Native.Nat.{ℕ, zero, suc}
use Prim.Native.String.{String}
use mathlib.Core.Path.{◌≡◌, refl}
use mathlib.Core.Bool.{Bool, true, false, not, ◌||◌}
use mathlib.Core.Option.{Option, none, some}
use mathlib.Core.List.{List, [], ◌∷◌}
use native.Mathlib.Omega.{arith}
use text.Mathlib.Text.{◌==◌}
use text.Mathlib.TextEquality.{eq_iff}
use voice_mesh.Prelude.Tests.{if◌then◌else◌}

abbrev pub str_eq : String → String → Bool
str_eq = ◌==◌

pub str_eq_refl : (s : String) → str_eq s s ≡ true
str_eq_refl s = (eq_iff s s).1 refl

-- `text == value` where the value may be None.
abbrev pub is_text : String → Option String → Bool
is_text s none = false
is_text s (some t) = str_eq s t

-- `bool(value)`: None and the empty text are false.
abbrev pub truthy : Option String → Bool
truthy none = false
truthy (some s) = not (str_eq s "")

-- `value or default`
abbrev pub or_text : Option String → String → String
or_text none d = d
or_text (some s) d = if str_eq s "" then d else s

-- `text in set` and `set.add(text)`; the program never iterates over these sets.
abbrev pub has_text : String → List String → Bool
has_text s [] = false
has_text s (t ∷ ts) = str_eq s t || has_text s ts

abbrev pub add_text : String → List String → List String
add_text s ts = if has_text s ts then ts else s ∷ ts

pub has_text-add_text :
    (s t : String) (ts : List String) → has_text s ts ≡ true → has_text s (add_text t ts) ≡ true
has_text-add_text s t ts h = ground arith

pub has_text-add_text_self : (s : String) (ts : List String) → has_text s (add_text s ts) ≡ true
has_text-add_text_self s ts = ground (arith, str_eq_refl s)

pub is_text→eq : (s : String) (o : Option String) → is_text s o ≡ true → o ≡ some s
is_text→eq s none h = cc
is_text→eq s (some t) h = ground (arith, eq_iff s t)

pub is_text_self : (s : String) → is_text s (some s) ≡ true
is_text_self s = str_eq_refl s

-- `set.discard(text)`
abbrev pub remove_text : String → List String → List String
remove_text s [] = []
remove_text s (t ∷ ts) = let rest = remove_text s ts in if str_eq s t then rest else t ∷ rest

-- `text[:n]`
abbrev pub text_prefix : ℕ → String → String
text_prefix zero s = ""
text_prefix (suc n) String.[] = ""
text_prefix (suc n) (String.◌∷◌ c s) = String.◌∷◌ c (text_prefix n s)

-- ===== src/Prelude/Dict.antt =====
-- Python's `dict` with text keys, as an association list in insertion order.
use Prim.Native.String.{String}
use mathlib.Core.Path.{◌≡◌, refl}
use mathlib.Core.Bool.{Bool}
use mathlib.Core.Option.{Option, none, some}
use mathlib.Core.List.{List, [], ◌∷◌}
use native.Mathlib.Omega.{arith}
use text.Mathlib.TextEquality.{eq_iff}
use voice_mesh.Prelude.Tests.{if◌then◌else◌, is_some}
use voice_mesh.Prelude.Texts.{str_eq, str_eq_refl}

abbrev pub Dict {ℓ} : Type ℓ → Type ℓ
Dict V = List (String × V)

module _ {ℓ} {V : Type ℓ} where
  -- `d.get(key)`
  unfoldable pub lookup : String → Dict V → Option V
  lookup k [] = none
  lookup k ((j, v) ∷ d) = if str_eq j k then some v else lookup k d

  -- `d[key] = value`
  unfoldable pub insert : String → V → Dict V → Dict V
  insert k v [] = (k, v) ∷ []
  insert k v ((j, w) ∷ d) = if str_eq j k then (j, v) ∷ d else (j, w) ∷ insert k v d

  -- `key in d`
  abbrev pub has_key : String → Dict V → Bool
  has_key k d = is_some (lookup k d)

  pub lookup-insert :
      (k j : String) (v : V) (d : Dict V)
      → lookup j (insert k v d) ≡ (if str_eq k j then some v else lookup j d)
  unfolding lookup insert
  lookup-insert k j v [] = refl
  lookup-insert k j v ((i, w) ∷ d) =
      ground (arith, eq_iff k j, eq_iff i k, eq_iff i j, lookup-insert k j v d)

  pub lookup-insert_self : (k : String) (v : V) (d : Dict V) → lookup k (insert k v d) ≡ some v
  lookup-insert_self k v d = rw (lookup-insert k k v d, str_eq_refl k)

  -- `INSERT ... ON CONFLICT DO NOTHING`, and `UPDATE ... WHERE key = k`.
  unfoldable pub insert_new : String → V → Dict V → Dict V
  insert_new k v d = if has_key k d then d else insert k v d

  unfoldable pub update_row : String → (V → V) → Dict V → Dict V
  update_row k f [] = []
  update_row k f ((j, w) ∷ d) =
      let rest = update_row k f d in if str_eq j k then (j, f w) ∷ d else (j, w) ∷ rest

  -- To write the value that a key has changes nothing.
  pub insert_known : (k : String) (v : V) (d : Dict V) → lookup k d ≡ some v → insert k v d ≡ d
  unfolding lookup insert
  insert_known k v [] h = cc
  insert_known k v ((j, w) ∷ d) h = ground (arith, insert_known k v d)

  abbrev pub update_found : (V → V) → Option V → Option V
  update_found f none = none
  update_found f (some v) = some (f v)

  pub lookup-update_row :
      (k j : String) (f : V → V) (d : Dict V)
      → lookup j (update_row k f d)
        ≡ (if str_eq k j then update_found f (lookup j d) else lookup j d)
  unfolding lookup update_row
  lookup-update_row k j f [] = ground arith
  lookup-update_row k j f ((i, w) ∷ d) =
      ground (arith, eq_iff k j, eq_iff i k, eq_iff i j, lookup-update_row k j f d)

  abbrev pub found_or : V → Option V → Option V
  found_or v none = some v
  found_or v (some w) = some w

  pub lookup-insert_new :
      (k j : String) (v : V) (d : Dict V)
      → lookup j (insert_new k v d) ≡ (if str_eq k j then found_or v (lookup j d) else lookup j d)
  unfolding insert_new
  lookup-insert_new k j v d = ground (arith, eq_iff k j, lookup-insert k j v d)

  -- `d.pop(key, None)`
  unfoldable pub delete : String → Dict V → Dict V
  delete k [] = []
  delete k ((j, w) ∷ d) = let rest = delete k d in if str_eq j k then rest else (j, w) ∷ rest

  -- `d.get(key, default)` and `d.setdefault(key, value)`
  abbrev pub get_or : V → Option V → V
  get_or v none = v
  get_or v (some w) = w

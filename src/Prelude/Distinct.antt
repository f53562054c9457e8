-- ===== src/Prelude/Distinct.antt =====
-- Dicts whose keys are distinct, as the rows of a table with a primary key are.
use Prim.Native.String.{String}
use mathlib.Core.Path.{◌≡◌, refl}
use mathlib.Core.Bool.{false, ◌||◌}
use mathlib.Core.List.{[], ◌∷◌}
use native.Mathlib.Omega.{arith}
use text.Mathlib.TextEquality.{eq_iff}
use voice_mesh.Prelude.Texts.{str_eq}
use voice_mesh.Prelude.Dict.{Dict, lookup, has_key, insert, insert_new, update_row}

module _ {V : Type 0} where
  abbrev pub IsDistinct : Dict V → Type 0
  IsDistinct [] = Unit {0}
  IsDistinct ((k, v) ∷ d) = (has_key k d ≡ false) × IsDistinct d

  has_key-insert :
      (k j : String) (v : V) (d : Dict V) → has_key j (insert k v d) ≡ (str_eq k j || has_key j d)
  unfolding lookup insert
  has_key-insert k j v [] = ground arith
  has_key-insert k j v ((i, w) ∷ d) =
      ground (arith, eq_iff k j, eq_iff i k, eq_iff i j, has_key-insert k j v d)

  has_key-update_row :
      (k j : String) (f : V → V) (d : Dict V) → has_key j (update_row k f d) ≡ has_key j d
  unfolding lookup update_row
  has_key-update_row k j f [] = refl
  has_key-update_row k j f ((i, w) ∷ d) = ground (arith, has_key-update_row k j f d)

  pub update_row-IsDistinct :
      (k : String) (f : V → V) (d : Dict V) → IsDistinct d → IsDistinct (update_row k f d)
  unfolding update_row
  update_row-IsDistinct k f [] h = tt
  update_row-IsDistinct k f ((j, w) ∷ d) h =
      ground (arith, h.0, h.1, has_key-update_row k j f d, update_row-IsDistinct k f d h.1)

  insert-IsDistinct : (k : String) (v : V) (d : Dict V) → IsDistinct d → IsDistinct (insert k v d)
  unfolding insert lookup
  insert-IsDistinct k v [] h = (refl, tt)
  insert-IsDistinct k v ((j, w) ∷ d) h =
      ground (
        arith,
        h.0,
        h.1,
        eq_iff j k,
        eq_iff k j,
        has_key-insert k j v d,
        insert-IsDistinct k v d h.1,
      )

  pub insert_new-IsDistinct :
      (k : String) (v : V) (d : Dict V) → IsDistinct d → IsDistinct (insert_new k v d)
  unfolding insert_new
  insert_new-IsDistinct k v d h = ground (arith, h, insert-IsDistinct k v d h)

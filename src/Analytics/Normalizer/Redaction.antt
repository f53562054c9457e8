-- ===== src/Analytics/Normalizer/Redaction.antt =====
-- What `_sanitize_payload` of apps/api/analytics/clickhouse/normalizer.py leaves of a payload.
use voice_mesh.Prelude.{
  ◌≡◌, ◌↔◌, refl, ap, subst, String, Bool, true, false, if◌then◌else◌, inl, inr, Bool-cases,
}
use voice_mesh.Analytics.Normalizer.{
  Value, null, boolean, number, text, bytes, array, object, Items, nil, item, Fields, end, field,
  is_redacted, sanitize, sanitize_items, sanitize_fields,
}

abbrev pub Unless : Bool → Type 0 → Type 0 → Type 0
Unless true R S = R
Unless false R S = S

-- Nothing is left to redact: no bytes, and the mark alone under each redacted key, at every depth.
mutual
  pub IsClean : Value → Type 0
  IsClean null = Unit {0}
  IsClean (boolean b) = Unit {0}
  IsClean (number n) = Unit {0}
  IsClean (text s) = Unit {0}
  IsClean (bytes s) = ⊥
  IsClean (array xs) = AllClean xs
  IsClean (object fs) = FieldsClean fs

  pub AllClean : Items → Type 0
  AllClean nil = Unit {0}
  AllClean (item v xs) = IsClean v × AllClean xs

  pub FieldsClean : Fields → Type 0
  FieldsClean end = Unit {0}
  FieldsClean (field key v fs) =
      Unless (is_redacted key) (v ≡ text "[redacted]") (IsClean v) × FieldsClean fs

mutual
  unfolding sanitize IsClean

  sanitized-IsClean : (v : Value) → IsClean (sanitize v)
  sanitized-IsClean null = tt
  sanitized-IsClean (boolean b) = tt
  sanitized-IsClean (number n) = tt
  sanitized-IsClean (text s) = tt
  sanitized-IsClean (bytes s) = tt
  sanitized-IsClean (array xs) = sanitize-AllClean xs
  sanitized-IsClean (object fs) = sanitize-FieldsClean fs

  sanitize-AllClean : (xs : Items) → AllClean (sanitize_items xs)
  sanitize-AllClean nil = tt
  sanitize-AllClean (item v xs) = (sanitized-IsClean v, sanitize-AllClean xs)

  sanitize-FieldsClean : (fs : Fields) → FieldsClean (sanitize_fields fs)
  sanitize-FieldsClean end = tt
  sanitize-FieldsClean (field key v fs) =
      let here = sanitized-IsClean v in
      let rest = sanitize-FieldsClean fs in
      elim (Bool-cases (is_redacted key)) [
        | inl e ↦ rw (e, e) (refl, rest)
        | inr e ↦ rw (e, e) (here, rest)
      ]

Unless-map : (R S T : Type 0) (b : Bool) → Unless b R S → (S → T) → Unless b R T
Unless-map R S T true h f = h
Unless-map R S T false h f = f h

field_kept :
    (b : Bool) (key : String) (v clean : Value) (rest fs : Fields)
    → rest ≡ fs
    → Unless b (v ≡ text "[redacted]") (clean ≡ v)
    → (if b then field key (text "[redacted]") rest else field key clean rest) ≡ field key v fs
field_kept true key v clean rest fs e h = cc
field_kept false key v clean rest fs e h = cc

mutual
  unfolding sanitize IsClean

  clean_kept : (v : Value) → IsClean v → sanitize v ≡ v
  clean_kept null h = refl
  clean_kept (boolean b) h = refl
  clean_kept (number n) h = refl
  clean_kept (text s) h = refl
  clean_kept (bytes s) h = elim h [ ]
  clean_kept (array xs) h = ap array (items_kept xs h)
  clean_kept (object fs) h = ap object (fields_kept fs h)

  items_kept : (xs : Items) → AllClean xs → sanitize_items xs ≡ xs
  items_kept nil h = refl
  items_kept (item v xs) h = rw (clean_kept v h.0, items_kept xs h.1) refl

  fields_kept : (fs : Fields) → FieldsClean fs → sanitize_fields fs ≡ fs
  fields_kept end h = refl
  fields_kept (field key v fs) h =
      field_kept (is_redacted key) key v (sanitize v) (sanitize_fields fs) fs (fields_kept fs h.1)
        (Unless-map _ _ _ (is_redacted key) h.0 (clean_kept v))

-- The redaction of a payload is clean: it holds no bytes, and the mark alone under each redacted key, at
-- every depth. It changes a payload exactly when that is not clean already.
pub sanitize-IsClean : (v : Value) → IsClean (sanitize v) × ((sanitize v ≡ v) ↔ IsClean v)
sanitize-IsClean v =
    (sanitized-IsClean v, (λ e. subst IsClean e (sanitized-IsClean v), λ h. clean_kept v h))

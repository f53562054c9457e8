-- ===== src/Prelude/Results.antt =====
-- Results of code that may raise, and their `do` blocks.
use mathlib.Core.Path.{◌≡◌, refl}

pub data Error : Type 0 where
  key_error value_error runtime_error : Error

pub data Result {ℓ} (A : Type ℓ) : Type ℓ where
  ok : A → Result A
  err : Error → Result A

infixl 5 ◌>>=◌ ◌>>◌
abbrev pub ◌>>=◌ {ℓ κ} : {A : Type ℓ} {B : Type κ} → Result A → (A → Result B) → Result B
ok a >>= f = f a
err e >>= f = err e

abbrev pub ◌>>◌ {ℓ κ} : {A : Type ℓ} {B : Type κ} → Result A → Result B → Result B
m >> k = m >>= λ _. k

-- What holds of a value that came back.
pub bind_inv {ℓ κ μ} :
    {A : Type ℓ} {B : Type κ} (P : B → Type μ) (m : Result A) (f : A → Result B) (b : B)
    → ((a : A) → m ≡ ok a → f a ≡ ok b → P b)
    → (m >>= f) ≡ ok b
    → P b
bind_inv P (ok a) f b h q = h a refl q
bind_inv P (err e) f b h q = cc

pub ok_inj {ℓ} : {A : Type ℓ} {a b : A} → ok a ≡ ok b → a ≡ b
ok_inj q = cc

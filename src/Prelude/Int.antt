-- ===== src/Prelude/Int.antt =====
-- Signed integers, as far as the program's clamped inputs need them. `negsuc n` is -(n + 1).
use Prim.Native.Nat.{ℕ, ◌-◌}
use voice_mesh.Prelude.Tests.{leb, if◌then◌else◌}

pub data ℤ : Type 0 where
  pos : ℕ → ℤ
  negsuc : ℕ → ℤ

-- `max(0, value)`
abbrev pub clamp_zero : ℤ → ℕ
clamp_zero (pos n) = n
clamp_zero (negsuc n) = 0

-- `a - b` of two naturals.
abbrev pub sub_ℕ : ℕ → ℕ → ℤ
sub_ℕ a b = if leb b a then pos (a - b) else negsuc (b - a - 1)

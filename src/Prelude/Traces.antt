-- ===== src/Prelude/Traces.antt =====
-- Runs of a step function over a list of inputs, and the induction rule for its invariants.
use mathlib.Core.List.{List, [], ◌∷◌}

module _ {ℓ κ} {S : Type ℓ} {E : Type κ} (step : S → E → S) where
  abbrev pub run : S → List E → S
  run s [] = s
  run s (e ∷ es) = run (step s e) es

  pub run_induction {μ} :
      (P : S → Type μ)
      → ((s : S) (e : E) → P s → P (step s e))
      → (s : S) (es : List E) → P s
      → P (run s es)
  run_induction P keep s [] h = h
  run_induction P keep s (e ∷ es) h = run_induction P keep (step s e) es (keep s e h)

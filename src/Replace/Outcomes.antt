-- ===== src/Replace/Outcomes.antt =====
-- What an outcome that returns says of the outcomes that it is bound from (DataReplacer).
use stripe_mock_pi.Prelude.{◌≡◌, refl, ap, arith}
use stripe_mock_pi.Replace.{Outcome, returns, panics, no_fuel, bind}

-- An outcome that is not for want of fuel.
abbrev pub Ended {ℓ} : {A : Type ℓ} → Outcome A → Type 0
Ended (returns a) = Unit
Ended panics = Unit
Ended no_fuel = ⊥

module _ {ℓ κ} {A : Type ℓ} {B : Type κ} where
  pub bind-returns :
      (o : Outcome A) (next : A → Outcome B) (b : B)
      → bind o next ≡ returns b
      → (a : A) × ((o ≡ returns a) × (next a ≡ returns b))
  bind-returns (returns a) next b h = (a, (refl, h))
  bind-returns panics next b h = ground arith
  bind-returns no_fuel next b h = ground arith

  -- What is bound runs out of fuel only where one of the two does.
  pub bind-Ended :
      (o : Outcome A) (next : A → Outcome B)
      → Ended o
      → ((a : A) → o ≡ returns a → Ended (next a))
      → Ended (bind o next)
  bind-Ended (returns a) next ended later = later a refl
  bind-Ended panics next ended later = tt
  bind-Ended no_fuel next ended later = elim ended [ ]

pub returns-injective {ℓ} : {A : Type ℓ} (a b : A) → returns a ≡ returns b → a ≡ b
returns-injective a b h = ap (value a) h
  where
    value : {A : Type ℓ} → A → Outcome A → A
    value default (returns x) = x
    value default panics = default
    value default no_fuel = default

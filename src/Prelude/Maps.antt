-- ===== src/Prelude/Maps.antt =====
-- Go's map with string keys, as an association list that holds each key once.
use Prim.Native.String.{String}
use mathlib.Core.Path.{◌≡◌, refl}
use mathlib.Core.Option.{Option, none, some}
use mathlib.Core.List.{List, [], ◌∷◌}
use native.Mathlib.Omega.{arith}
use text.Mathlib.TextEquality.{eq_iff}
use stripe_mock_pi.Prelude.Tests.{◌==◌, if◌then◌else◌}

abbrev pub Dict {ℓ} : Type ℓ → Type ℓ
Dict V = List (String × V)

module _ {ℓ} {V : Type ℓ} where
  -- `v, ok := m[key]`
  unfoldable pub lookup : (key : String) → Dict V → Option V
  lookup key [] = none
  lookup key ((first, value) ∷ rest) = if first == key then some value else lookup key rest

  -- `m[key] = value`
  unfoldable pub insert : (key : String) → V → Dict V → Dict V
  insert key value [] = (key, value) ∷ []
  insert key value ((first, old) ∷ rest) =
      if first == key then (key, value) ∷ rest else (first, old) ∷ insert key value rest

  -- `delete(m, key)`
  unfoldable pub delete : (key : String) → Dict V → Dict V
  delete key [] = []
  delete key ((first, value) ∷ rest) =
      let others = delete key rest in if first == key then others else (first, value) ∷ others

  -- `for key := range m`
  unfoldable pub keys : Dict V → List String
  keys [] = []
  keys ((first, value) ∷ rest) = first ∷ keys rest

  pub lookup-insert :
      (key other : String) (value : V) (dict : Dict V)
      → lookup other (insert key value dict)
        ≡ (if key == other then some value else lookup other dict)
  unfolding lookup insert
  lookup-insert key other value [] = refl
  lookup-insert key other value ((first, old) ∷ rest) =
      let below = lookup-insert key other value rest in
      ground (arith, below, eq_iff first key, eq_iff first other, eq_iff key other)

  pub lookup-delete :
      (key other : String) (dict : Dict V)
      → lookup other (delete key dict) ≡ (if key == other then none else lookup other dict)
  unfolding lookup delete
  lookup-delete key other [] = ground arith
  lookup-delete key other ((first, value) ∷ rest) =
      let below = lookup-delete key other rest in
      ground (arith, below, eq_iff first key, eq_iff first other, eq_iff key other)

  pub lookup-empty : (key : String) → lookup key [] ≡ none
  unfolding lookup
  lookup-empty key = refl

pub ruleset dict_laws = (lookup-insert, lookup-delete, lookup-empty)

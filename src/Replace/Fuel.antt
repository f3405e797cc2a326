-- ===== src/Replace/Fuel.antt =====
-- The fuel that isSameType (generator/datareplacer/datareplacer.go) needs.
use Prim.Native.String.{String}
use stripe_mock_pi.Prelude.{
  ℕ, zero, suc, ◌+◌, ◌≤◌, ◌≡◌, Bool, true, Option, none, some, Dict, if_elim, lookup, arith, ◌==◌,
  ◌!=◌, if◌then◌else◌, inl, inr, if_cases, subst,
}
use stripe_mock_pi.Json.{Value, nil, bool, int, float64, str, arr, obj, done, item}
use stripe_mock_pi.Schema.{
  Schema, schema_of, Pointer, to, Schemas, no_schemas, schema, type_of, keywords, type_array,
  type_boolean, type_integer, type_number, type_object, type_string,
}
use stripe_mock_pi.Replace.{
  Outcome, returns, bind, Kind, kind_of, maybe_dereference, any_same_type, array_same_type,
  same_type_of, plain_same_type, of_kind, definition, or_panic, definition_from_json_pointer,
  schema_same_type, has_branches,
}
use stripe_mock_pi.Replace.Outcomes.{Ended, bind-Ended, returns-injective}

-- The fuel for a schema, for a rank of the references: that of its branches and its items, where a
-- reference needs its rank, and one more.
unfoldable mutual
  pub fuel_for : (String → ℕ) → Schema → ℕ
  fuel_for rank (schema_of additional branches items props expansions k) =
      suc (branches_fuel rank branches + pointer_fuel rank items)

  pub branches_fuel : (String → ℕ) → Schemas → ℕ
  branches_fuel rank no_schemas = 0
  branches_fuel rank (schema s rest) = target_fuel rank s + branches_fuel rank rest

  pub pointer_fuel : (String → ℕ) → Pointer → ℕ
  pointer_fuel rank Pointer.nil = 0
  pointer_fuel rank (to s) = target_fuel rank s

  pub target_fuel : (String → ℕ) → Schema → ℕ
  target_fuel rank (schema_of additional branches items props expansions k) =
      if k.ref != ""
      then rank k.ref
      else suc (branches_fuel rank branches + pointer_fuel rank items)

-- References that only lead down: the schema that one leads to needs no more fuel than its rank.
abbrev pub Ranked : Dict Schema → (String → ℕ) → Type 0
Ranked definitions rank =
    (s d : Schema)
    → ((keywords s).ref != "") ≡ true
    → maybe_dereference definitions s ≡ returns d
    → fuel_for rank d ≤ rank (keywords s).ref

definition-Ended :
    (definitions : Dict Schema) (name : Option String) → Ended (definition definitions name)
definition-Ended definitions none = tt
definition-Ended definitions (some name) = found (lookup name definitions)
  where
    found : (s : Option Schema) → Ended (or_panic s)
    found none = tt
    found (some s) = tt

maybe_dereference-Ended :
    (definitions : Dict Schema) (s : Schema) → Ended (maybe_dereference definitions s)
unfolding maybe_dereference
maybe_dereference-Ended definitions s =
    if_elim Ended ((keywords s).ref != "")
      (definition-Ended definitions (definition_from_json_pointer (keywords s).ref)) tt

module _ (definitions : Dict Schema) (rank : String → ℕ) (ranked : Ranked definitions rank) where
  fuel_for-dereferenced :
      (s d : Schema)
      → maybe_dereference definitions s ≡ returns d
      → fuel_for rank d ≤ target_fuel rank s
  unfolding maybe_dereference fuel_for target_fuel
  fuel_for-dereferenced (schema_of additional branches items props expansions k) d h =
      let s = schema_of additional branches items props expansions k in
      elim (if_cases (k.ref != "") h) [
        | inl p ↦ rw p.0 (ranked s d p.0 h)
        | inr p ↦ rw p.0 (
            subst (λ x. fuel_for rank x ≤ fuel_for rank s) (returns-injective s d p.1)
              (omega arith))
      ]

  module _ (fuel : ℕ) (same : Schema → Value → Outcome Bool)
      (enough : (s : Schema) (v : Value) → fuel_for rank s ≤ fuel → Ended (same s v)) where
    dereferenced_enough :
        (s : Schema) (v : Value)
        → target_fuel rank s ≤ fuel
        → (d : Schema) → maybe_dereference definitions s ≡ returns d
        → Ended (same d v)
    dereferenced_enough s v h d e = enough d v (ground (arith, fuel_for-dereferenced s d e))

    any_same_type-Ended :
        (branches : Schemas) (v : Value)
        → branches_fuel rank branches ≤ fuel
        → Ended (any_same_type definitions (λ s. same s v) branches)
    unfolding any_same_type branches_fuel
    any_same_type-Ended no_schemas v h = tt
    any_same_type-Ended (schema s rest) v h =
        let below = any_same_type-Ended rest v (ground arith) in
        bind-Ended (maybe_dereference definitions s)
          (λ d.
            bind (same d v) (λ fits.
              if fits then returns true else any_same_type definitions (λ s. same s v) rest))
          (maybe_dereference-Ended definitions s)
          (λ d e.
            bind-Ended (same d v)
              (λ fits.
                if fits then returns true else any_same_type definitions (λ s. same s v) rest)
              (dereferenced_enough s v (ground arith) d e) (λ fits e. if_elim Ended fits tt below))

    array_same_type-Ended :
        (items : Pointer) (v : Value)
        → pointer_fuel rank items ≤ fuel
        → Ended (array_same_type definitions same items v)
    unfolding pointer_fuel
    array_same_type-Ended items (arr done) h = tt
    array_same_type-Ended Pointer.nil (arr (item first rest)) h = tt
    array_same_type-Ended (to s) (arr (item first rest)) h =
        bind-Ended (maybe_dereference definitions s) (λ d. same d first)
          (maybe_dereference-Ended definitions s) (dereferenced_enough s first h)
    array_same_type-Ended items nil h = tt
    array_same_type-Ended items (bool b) h = tt
    array_same_type-Ended items (int i) h = tt
    array_same_type-Ended items (float64 bits) h = tt
    array_same_type-Ended items (str text) h = tt
    array_same_type-Ended items (obj m) h = tt

    plain_same_type-Ended : (s : Schema) (kind : Kind) → Ended (plain_same_type s kind)
    unfolding plain_same_type
    plain_same_type-Ended s kind = if_elim Ended (type_of s == type_boolean) tt (
        if_elim Ended (type_of s == type_integer) tt (
          if_elim Ended (type_of s == type_number) tt (
            if_elim Ended (type_of s == type_object) tt
              (if_elim Ended (type_of s == type_string) tt tt))))

    of_kind-Ended :
        (s : Schema) (v : Value) (kind : Option Kind)
        → fuel_for rank s ≤ suc fuel
        → Ended (of_kind definitions same s v kind)
    unfolding of_kind same_type_of fuel_for
    of_kind-Ended s v none h = tt
    of_kind-Ended (schema_of additional branches items props expansions k) v (some kind) h =
        let s = schema_of additional branches items props expansions k in
        if_elim Ended (has_branches branches) (any_same_type-Ended branches v (ground arith)) (
          if_elim Ended (k.type_name == type_array) (array_same_type-Ended items v (ground arith))
            (plain_same_type-Ended s kind))

  -- Where the references between definitions lead down in some ranking, the fuel that the ranking
  -- gives for a schema is enough, and so is more: isSameType ends in an answer or a panic.
  pub schema_same_type-Ended :
      (fuel : ℕ) (s : Schema) (v : Value)
      → fuel_for rank s ≤ fuel
      → Ended (schema_same_type fuel definitions s v)
  unfolding schema_same_type fuel_for
  schema_same_type-Ended zero (schema_of additional branches items props expansions k) v h =
      absurd (ground arith)
  schema_same_type-Ended (suc fuel) s v h =
      of_kind-Ended fuel (schema_same_type fuel definitions) (schema_same_type-Ended fuel) s v
        (kind_of v) h

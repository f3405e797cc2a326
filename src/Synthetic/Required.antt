-- ===== src/Synthetic/Required.antt =====
-- Which fields generateSyntheticFixture (server/generator.go) gives an object.
use Prim.Native.String.{String}
use stripe_mock_pi.Prelude.{
  ℕ, suc, ◌≡◌, refl, sym, ◌∙◌, ap, subst, true, false, not, ◌&&◌, ◌||◌, is_some, Option, some, [],
  Dict, arith, ◌==◌, eq_iff, Bool-cases, if_cases, inl, inr,
}
use stripe_mock_pi.Json.{Value, obj, Object, end, get, put}
use stripe_mock_pi.Json.Laws.{get-put}
use stripe_mock_pi.Schema.{
  Schema, Properties, no_properties, property, property_of, properties, type_of, type_object,
  keywords, any_of, no_schemas,
}
use stripe_mock_pi.Replace.{Outcome, returns, bind}
use stripe_mock_pi.Replace.Outcomes.{bind-returns, returns-injective}
use stripe_mock_pi.Expand.{ExpansionLevel}
use stripe_mock_pi.Synthetic.{
  is_set, is_required_property, expansion_at, synthetic_properties, synthetic_of_type,
  generate_synthetic_fixture, as_object,
}

abbrev Fields : Schema → Properties → Object → Object → Type 0
Fields s props m r =
    (key : String)
    → is_some (get r key)
      ≡ (is_some (get m key) || (is_set (property_of key props) && is_required_property s key))

-- A property that is left out, and one that is filled in.
skipped :
    (s : Schema) (k : String) (sub : Schema) (rest : Properties) (m r : Object)
    → not (is_required_property s k) ≡ true
    → Fields s rest m r
    → Fields s (property k sub rest) m r
unfolding property_of
skipped s k sub rest m r h below key = elim (Bool-cases (k == key)) [
  | inl e ↦
      let same = (eq_iff k key).0 e in
      let unwanted = subst (λ x. not (is_required_property s x) ≡ true) same h in
      rw e (ground (arith, below key, unwanted))
  | inr e ↦ rw e (below key)
]

kept :
    (s : Schema) (k : String) (sub : Schema) (rest : Properties) (m r : Object) (v : Value)
    → not (is_required_property s k) ≡ false
    → Fields s rest (put m k v) r
    → Fields s (property k sub rest) m r
unfolding property_of
kept s k sub rest m r v h below key = elim (Bool-cases (k == key)) [
  | inl e ↦
      let same = (eq_iff k key).0 e in
      let wanted = subst (λ x. not (is_required_property s x) ≡ false) same h in
      let present : get (put m k v) key ≡ some v = get-put m k key v ∙ rw e refl in
      rw e (ground (arith, below key, wanted, ap is_some present))
  | inr e ↦
      let absent : get (put m k v) key ≡ get m key = get-put m k key v ∙ rw e refl in
      rw e (
        below key
        ∙ ap (λ x. is_some x || (is_set (property_of key rest) && is_required_property s key))
            absent)
]

module _ (call : Schema → Option ExpansionLevel → Outcome Value) (s : Schema)
    (expansions : Option ExpansionLevel) where
  Fields-synthetic_properties :
      (props : Properties) (m r : Object)
      → synthetic_properties call s expansions props m ≡ returns r
      → Fields s props m r
  unfolding synthetic_properties property_of
  Fields-synthetic_properties no_properties m r h =
      subst (Fields s no_properties m) (returns-injective m r h) (λ key. ground arith)
  Fields-synthetic_properties (property k sub rest) m r h =
      elim (if_cases (not (is_required_property s k)) h) [
        | inl p ↦ skipped s k sub rest m r p.0 (Fields-synthetic_properties rest m r p.1)
        | inr p ↦
            let step =
              bind-returns (call sub (expansion_at expansions k))
                (λ v. synthetic_properties call s expansions rest (put m k v)) r p.1 in
            kept s k sub rest m r step.0 p.0
              (Fields-synthetic_properties rest (put m k step.0) r step.1.1)
      ]

-- Where a synthetic fixture is made, with enough fuel, for a schema of an object that has no
-- branches and no enumeration and is either expanded or not nullable, it is a map with exactly the
-- properties of the schema that the schema requires.
pub generate_synthetic_fixture-Fields :
    (fuel : ℕ) (definitions : Dict Schema) (s : Schema) (expansions : Option ExpansionLevel)
    (v : Value)
    → type_of s ≡ type_object
    → any_of s ≡ no_schemas
    → (keywords s).enum ≡ []
    → ((keywords s).nullable && not (is_some expansions)) ≡ false
    → generate_synthetic_fixture (suc fuel) definitions s expansions ≡ returns v
    → (r : Object) × (v ≡ obj r)
      × ((key : String)
          → is_some (get r key)
            ≡ (is_set (property_of key (properties s)) && is_required_property s key))
unfolding generate_synthetic_fixture synthetic_of_type get
generate_synthetic_fixture-Fields fuel definitions s expansions v t branches enum shown h =
    let call = generate_synthetic_fixture fuel definitions in
    let typed : bind (synthetic_properties call s expansions (properties s) end)
          (λ m. returns (as_object m))
        ≡ returns v =
      rw (shown, enum, branches, t) at h in
    let step =
      bind-returns (synthetic_properties call s expansions (properties s) end)
        (λ m. returns (as_object m)) v typed in
    (
      step.0,
      sym (returns-injective (as_object step.0) v step.1.1),
      Fields-synthetic_properties call s expansions (properties s) end step.0 step.1.0,
    )

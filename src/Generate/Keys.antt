-- ===== src/Generate/Keys.antt =====
-- Which fields a generated object has (generateInternal, server/generator.go).
use Prim.Native.String.{String}
use stripe_mock_pi.Prelude.{
  ◌≡◌, refl, sym, ◌∙◌, ap, subst, Bool, true, false, not, ◌&&◌, ◌||◌, is_some, Option, some, arith,
  ◌==◌, eq_iff, Bool-cases, if_cases, inl, inr,
}
use stripe_mock_pi.Json.{Value, nil, obj, Object, end, get, put}
use stripe_mock_pi.Json.Laws.{get-put}
use stripe_mock_pi.Schema.{
  Schema, Properties, no_properties, property, property_of, properties, type_of, type_object,
  keywords,
}
use stripe_mock_pi.Replace.{returns}
use stripe_mock_pi.Replace.Outcomes.{bind-returns, returns-injective}
use stripe_mock_pi.Expand.{ExpansionLevel}
use stripe_mock_pi.Synthetic.{is_set}
use stripe_mock_pi.Generate.{
  Generated, generated, expansion_not_supported, Call, on_generated, as_generated,
}
use stripe_mock_pi.Generate.Internal.{sub_expansions, generate_properties, generate_by_type}

-- A property that the example has or that is to be expanded.
abbrev is_wanted : Option ExpansionLevel → Object → String → Bool
is_wanted expansions example key =
    is_some (get example key) || is_some (sub_expansions expansions key)

abbrev Fields : Option ExpansionLevel → Object → Properties → Object → Object → Type 0
Fields expansions example props m r =
    (key : String)
    → is_some (get r key) ≡ (
        is_some (get m key) || (is_set (property_of key props) && is_wanted expansions example key))

abbrev value_of : Generated → Value
value_of (generated v) = v
value_of expansion_not_supported = nil

skipped :
    (expansions : Option ExpansionLevel) (example : Object) (k : String) (s : Schema)
    (rest : Properties) (m r : Object)
    → (not (is_some (get example k)) && not (is_some (sub_expansions expansions k))) ≡ true
    → Fields expansions example rest m r
    → Fields expansions example (property k s rest) m r
unfolding property_of
skipped expansions example k s rest m r h below key = elim (Bool-cases (k == key)) [
  | inl e ↦
      let same = (eq_iff k key).0 e in
      let unwanted =
        subst
          (λ x.
            (not (is_some (get example x)) && not (is_some (sub_expansions expansions x))) ≡ true)
          same h in
      rw e (ground (arith, below key, unwanted))
  | inr e ↦ rw e (below key)
]

kept :
    (expansions : Option ExpansionLevel) (example : Object) (k : String) (s : Schema)
    (rest : Properties) (m r : Object) (v : Value)
    → (not (is_some (get example k)) && not (is_some (sub_expansions expansions k))) ≡ false
    → Fields expansions example rest (put m k v) r
    → Fields expansions example (property k s rest) m r
unfolding property_of
kept expansions example k s rest m r v h below key = elim (Bool-cases (k == key)) [
  | inl e ↦
      let same = (eq_iff k key).0 e in
      let wanted =
        subst
          (λ x.
            (not (is_some (get example x)) && not (is_some (sub_expansions expansions x))) ≡ false)
          same h in
      let present : get (put m k v) key ≡ some v = get-put m k key v ∙ rw e refl in
      rw e (ground (arith, below key, wanted, ap is_some present))
  | inr e ↦ rw e (
      below key
      ∙ ap (λ x. is_some x || (is_set (property_of key rest) && is_wanted expansions example key))
          (get-put m k key v ∙ rw e refl))
]

Fields-generate_properties :
    (call : Call) (expansions : Option ExpansionLevel) (example : Object) (props : Properties)
    (m : Object) (v : Value)
    → generate_properties call expansions example props m ≡ returns (generated v)
    → (r : Object) × (v ≡ obj r) × Fields expansions example props m r
unfolding generate_properties property_of
Fields-generate_properties call expansions example no_properties m v h =
    (m, sym (ap value_of (returns-injective (as_generated m) (generated v) h)), λ key. ground arith)
Fields-generate_properties call expansions example (property k s rest) m v h =
    elim (if_cases (not (is_some (get example k)) && not (is_some (sub_expansions expansions k)))
      h) [
        | inl p ↦
            let below = Fields-generate_properties call expansions example rest m v p.1 in
            (below.0, below.1, skipped expansions example k s rest m below.0 p.0 below.2)
        | inr p ↦
            let step =
              bind-returns (call (sub_expansions expansions k) s (get example k))
                (λ made.
                  on_generated made
                    (λ w. generate_properties call expansions example rest (put m k w))
                    (returns expansion_not_supported))
                (generated v) p.1 in
            made (λ w e. Fields-generate_properties call expansions example rest (put m k w) v e)
              step.0 p.0 step.1.1
      ]
  where
    made :
        ((w : Value)
          → generate_properties call expansions example rest (put m k w) ≡ returns (generated v)
          → (r : Object) × (v ≡ obj r) × Fields expansions example rest (put m k w) r)
        → (g : Generated)
        → (not (is_some (get example k)) && not (is_some (sub_expansions expansions k))) ≡ false
        → on_generated g
            (λ w. generate_properties call expansions example rest (put m k w))
            (returns expansion_not_supported)
          ≡ returns (generated v)
        → (r : Object) × (v ≡ obj r) × Fields expansions example (property k s rest) m r
    made below (generated w) q e =
        let found = below w e in
        (found.0, found.1, kept expansions example k s rest m found.0 w q found.2)
    made below expansion_not_supported q e = ground (arith, e)

-- Where a value is generated for an object schema with properties from an example, whatever is
-- called for its properties, the example and the value are maps, and the value has exactly the
-- fields that the schema names and that the example has or the request expands.
pub generate_by_type-Fields :
    (call : Call) (expansions : Option ExpansionLevel) (s : Schema) (example : Object) (v : Value)
    → type_of s ≡ type_object
    → (keywords s).has_properties ≡ true
    → generate_by_type call expansions s (some (obj example)) ≡ returns (generated v)
    → (r : Object) × (v ≡ obj r)
      × ((key : String)
          → is_some (get r key)
            ≡ (is_set (property_of key (properties s)) && is_wanted expansions example key))
unfolding generate_by_type get
generate_by_type-Fields call expansions s example v t has h =
    Fields-generate_properties call expansions example (properties s) end v (rw (t, has) at h)

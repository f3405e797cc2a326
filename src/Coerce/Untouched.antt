-- ===== src/Coerce/Untouched.antt =====
-- What CoerceParams (param/coercer/coercer.go) leaves of the parameters' keys.
use Prim.Native.String.{String}
use stripe_mock_pi.Prelude.{
  ℕ, ◌≡◌, refl, sym, ◌∙◌, ap, false, is_some, Option, none, some, arith, ◌==◌, if◌then◌else◌,
  eq_iff, Bool-cases, inl, inr,
}
use stripe_mock_pi.Json.{Value, Object, get, put}
use stripe_mock_pi.Json.Laws.{get-put}
use stripe_mock_pi.Schema.{Schema, Properties, no_properties, property, property_of, properties}
use stripe_mock_pi.Synthetic.{is_set}
use stripe_mock_pi.Coerce.Loops.{Coerced, coerced_or_kept}
use stripe_mock_pi.Coerce.Schemas.{
  stored_at, coerced_at, coerce_sub_schema, coerce_properties, coerce_params,
}

-- Maps with the same keys, and the same values under keys that are not properties.
abbrev Untouched : Properties → Object → Object → Type 0
Untouched props m r =
    (key : String)
    → (is_some (get r key) ≡ is_some (get m key))
      × (is_set (property_of key props) ≡ false → get r key ≡ get m key)

Untouched-put :
    (k : String) (s : Schema) (rest : Properties) (m r : Object) (old v : Value)
    → get m k ≡ some old
    → Untouched rest (put m k v) r
    → Untouched (property k s rest) m r
unfolding property_of
Untouched-put k s rest m r old v e below key = elim (Bool-cases (k == key)) [
  | inl same ↦
      let written : get (put m k v) key ≡ some v = get-put m k key v ∙ rw same refl in
      let had : get m key ≡ some old = ap (get m) (sym ((eq_iff k key).0 same)) ∙ e in
      (
        (below key).0 ∙ (ap is_some written ∙ sym (ap is_some had)),
        rw same (λ absurd_. ground (arith, absurd_)),
      )
  | inr other ↦
      let same : get (put m k v) key ≡ get m key = get-put m k key v ∙ rw other refl in
      ((below key).0 ∙ ap is_some same, rw other (λ unset. (below key).1 unset ∙ same))
]

Untouched-skip :
    (k : String) (s : Schema) (rest : Properties) (m r : Object)
    → Untouched rest m r
    → Untouched (property k s rest) m r
unfolding property_of
Untouched-skip k s rest m r below key = elim (Bool-cases (k == key)) [
  | inl same ↦ ((below key).0, rw same (λ set. ground (arith, set)))
  | inr other ↦ ((below key).0, rw other (below key).1)
]

Untouched-refl : (props : Properties) (m : Object) → Untouched props m m
Untouched-refl props m key = (refl, λ unset. refl)

module _ (k : String) (s : Schema) (rest : Properties) (m : Object) (call : Value → Coerced)
    (next : Object → Object × Option ℕ)
    (below : (m' : Object) → Untouched rest m' (next m').0) where
  Untouched-stored_at :
      (old : Value) (c : Coerced) (error : Option ℕ)
      → get m k ≡ some old
      → Untouched (property k s rest) m (stored_at k m c error next).0
  Untouched-stored_at old c (some i) e =
      Untouched-put k s rest m (put m k c.kept) old c.kept e (Untouched-refl rest (put m k c.kept))
  Untouched-stored_at old c none e =
      let v = coerced_or_kept c.result c.kept in
      Untouched-put k s rest m (next (put m k v)).0 old v e (below (put m k v))

  Untouched-coerced_at :
      (o : Option Value)
      → get m k ≡ o
      → Untouched (property k s rest) m (coerced_at k m o call next).0
  Untouched-coerced_at none e = Untouched-skip k s rest m (next m).0 (below m)
  Untouched-coerced_at (some old) e = Untouched-stored_at old (call old) (call old).error e

module _ (parse_float : String → Option ℕ) where
  Untouched-coerce_properties :
      (props : Properties) (m : Object)
      → Untouched props m (coerce_properties parse_float props m).0
  unfolding coerce_sub_schema
  Untouched-coerce_properties no_properties m = Untouched-refl no_properties m
  Untouched-coerce_properties (property k s rest) m =
      Untouched-coerced_at k s rest m (coerce_sub_schema parse_float s)
        (coerce_properties parse_float rest) (Untouched-coerce_properties rest) (get m k) refl

-- However ParseFloat reads numbers, and whether the coercion succeeds or fails, CoerceParams adds no
-- key to the parameters and removes none, and leaves the value of every key that is no property of
-- the schema.
pub coerce_params-Untouched :
    (parse_float : String → Option ℕ) (s : Schema) (m : Object) (key : String)
    → (is_some (get (coerce_params parse_float s m).0 key) ≡ is_some (get m key))
      × (get (coerce_params parse_float s m).0 key ≡ (
          if is_set (property_of key (properties s))
          then get (coerce_params parse_float s m).0 key
          else get m key))
unfolding coerce_params
coerce_params-Untouched parse_float s m key =
    let kept = Untouched-coerce_properties parse_float (properties s) m key in
    (
      kept.0,
      elim (Bool-cases (is_set (property_of key (properties s)))) [
        | inl set ↦ rw set refl
        | inr unset ↦ rw unset (kept.1 unset)
      ],
    )

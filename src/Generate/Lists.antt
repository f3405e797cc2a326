-- ===== src/Generate/Lists.antt =====
-- What the generator (server/generator.go) puts into a list resource.
use Prim.Native.String.{String}
use stripe_mock_pi.Prelude.{
  ◌≡◌, refl, sym, ◌∙◌, ap, subst, Bool, true, false, Option, none, some, arith, ◌&&◌, ◌==◌,
  if◌then◌else◌, eq_iff, Bool-cases, if_cases, inl, inr,
}
use stripe_mock_pi.Prelude.Int.{pos}
use stripe_mock_pi.Json.{Value, nil, bool, int, str, arr, obj, done, item, Object, end, get}
use stripe_mock_pi.Json.Laws.{get-put}
use stripe_mock_pi.Schema.{
  Schema, Pointer, to, Properties, no_properties, property, property_of, properties, keywords,
  type_of, type_object,
}
use stripe_mock_pi.Replace.{Outcome, returns, bind}
use stripe_mock_pi.Replace.Outcomes.{bind-returns, returns-injective}
use stripe_mock_pi.Expand.{ExpansionLevel}
use stripe_mock_pi.Synthetic.{
  is_set, is_list_resource, expansion_at, has_items, enum_names, is_resource_of,
}
use stripe_mock_pi.Generate.{
  Generated, generated, expansion_not_supported, Generator, Call, put_some, fill, listed_value,
  on_generated, as_generated, items_schema, call_items, generate_listing,
}
use stripe_mock_pi.Generate.Internal.{generate_resource}

get-put_some :
    (m : Object) (k key : String) (o : Option Value)
    → (k == key) ≡ false
    → get (put_some m k o) key ≡ get m key
get-put_some m k key none e = refl
get-put_some m k key (some v) e = get-put m k key v ∙ rw e refl

-- Either branch of a conditional is the value.
either {ℓ} : {A : Type ℓ} (b : Bool) (x y : A) → x ≡ y → (if b then y else x) ≡ y
either true x y h = refl
either false x y h = h

-- A property whose value does not depend on its schema.
get-fill :
    (f : String → Schema → Outcome (Option Value)) (key : String) (v : Value)
    (fixed : (s : Schema) → f key s ≡ returns (some v)) (props : Properties) (m r : Object)
    → fill f props m ≡ returns r
    → get r key ≡ (if is_set (property_of key props) then some v else get m key)
unfolding fill property_of
get-fill f key v fixed no_properties m r h = ap (λ x. get x key) (sym (returns-injective m r h))
get-fill f key v fixed (property k s rest) m r h =
    let step = bind-returns (f k s) (λ o. fill f rest (put_some m k o)) r h in
    let below = get-fill f key v fixed rest (put_some m k step.0) r step.1.1 in
    elim (Bool-cases (k == key)) [
      | inl e ↦
          let same = (eq_iff k key).0 e in
          let o =
            returns-injective step.0 (some v)
              (sym step.1.0 ∙ subst (λ x. f x s ≡ returns (some v)) (sym same) (fixed s)) in
          rw e (
            below
            ∙ either (is_set (property_of key rest)) (get (put_some m k step.0) key) (some v)
                (ap (λ x. get (put_some m k x) key) o ∙ (get-put m k key v ∙ rw e refl)))
      | inr e ↦ rw e (
          below
          ∙ ap (λ x. if is_set (property_of key rest) then some v else x)
              (get-put_some m k key step.0 e))
    ]

-- The fields of a list resource whose only element is this one.
abbrev pub Listed : Schema → Value → Object → Type 0
Listed s element m =
    (get m "data" ≡ some (arr (item element done)))
    × (get m "object" ≡ some (str "list"))
    × (get m "has_more"
        ≡ (if is_set (property_of "has_more" (properties s)) then some (bool false) else none))
    × (get m "total_count"
        ≡ (if is_set (property_of "total_count" (properties s)) then some (int (pos 1)) else none))

is_set-has_items : (p : Pointer) → has_items p ≡ true → is_set p ≡ true
is_set-has_items Pointer.nil h = h
is_set-has_items (to s) h = refl

is_set-enum_names : (name : String) (p : Pointer) → enum_names name p ≡ true → is_set p ≡ true
is_set-enum_names name Pointer.nil h = h
is_set-enum_names name (to s) h = refl

list_properties :
    (s : Schema)
    → is_list_resource s ≡ true
    → (is_set (property_of "data" (properties s)) ≡ true)
      × (is_set (property_of "object" (properties s)) ≡ true)
unfolding is_list_resource is_resource_of
list_properties s h =
    let both =
      split_and (type_of s == type_object) ((keywords s).has_properties)
        (enum_names "list" (property_of "object" (properties s)))
        (has_items (property_of "data" (properties s))) h in
    (
      is_set-has_items (property_of "data" (properties s)) both.1,
      is_set-enum_names "list" (property_of "object" (properties s)) both.0,
    )
  where
    split_and : (a b c d : Bool) → (a && (b && (c && d))) ≡ true → (c ≡ true) × (d ≡ true)
    split_and a b c d h = ground arith

Listed-fill :
    (g : Generator) (s : Schema) (element : Value) (example : Option Value) (m : Object)
    → is_list_resource s ≡ true
    → fill (listed_value g "list" false element example) (properties s) end ≡ returns m
    → Listed s element m
unfolding listed_value get
Listed-fill g s element example m is h =
    let f = listed_value g "list" false element example in
    let named = list_properties s is in
    (
      get-fill f "data" (arr (item element done)) (λ s. refl) (properties s) end m h
          ∙ rw named.0 refl,
      get-fill f "object" (str "list") (λ s. refl) (properties s) end m h ∙ rw named.1 refl,
      get-fill f "has_more" (bool false) (λ s. refl) (properties s) end m h,
      get-fill f "total_count" (int (pos 1)) (λ s. refl) (properties s) end m h,
    )

abbrev value_of : Generated → Value
value_of (generated v) = v
value_of expansion_not_supported = nil

Listed-generated :
    (g : Generator) (s : Schema) (example : Option Value) (made : Generated) (v : Value)
    → is_list_resource s ≡ true
    → on_generated made
        (λ element.
          bind
            (fill (listed_value g "list" false element example) (properties s) end)
            (λ m. returns (as_generated m)))
        (returns expansion_not_supported)
      ≡ returns (generated v)
    → (element : Value) × (m : Object) × (made ≡ generated element)
      × (v ≡ obj m)
      × Listed s element m
Listed-generated g s example (generated element) v is h =
    let filled =
      bind-returns (fill (listed_value g "list" false element example) (properties s) end)
        (λ m. returns (as_generated m)) (generated v) h in
    (
      element,
      filled.0,
      refl,
      sym (ap value_of (returns-injective (as_generated filled.0) (generated v) filled.1.1)),
      Listed-fill g s element example filled.0 is filled.1.0,
    )
Listed-generated g s example expansion_not_supported v is h = ground (arith, h)

-- For a schema of a list resource, whatever is called for its elements: where a value is generated,
-- it is a map that holds, of the properties that the schema names, under `data` exactly the one
-- element that was generated for the schema of the items, under `object` the text list, under
-- `has_more` false and under `total_count` one.
pub generate_resource-Listed :
    (g : Generator) (call : Call) (expansions : Option ExpansionLevel) (s : Schema)
    (example : Option Value) (v : Value)
    → is_list_resource s ≡ true
    → generate_resource g call expansions s example ≡ returns (generated v)
    → (element : Value) × (m : Object) × (call_items call
          (expansion_at expansions "data")
          (items_schema (property_of "data" (properties s)))
        ≡ returns (generated element))
      × (v ≡ obj m)
      × Listed s element m
unfolding generate_resource generate_listing
generate_resource-Listed g call expansions s example v is h =
    elim (if_cases (is_list_resource s) h) [
      | inl p ↦
          let elements =
            call_items call (expansion_at expansions "data")
              (items_schema (property_of "data" (properties s))) in
          let found =
            bind-returns elements
              (λ made.
                on_generated made
                  (λ element.
                    bind (fill (listed_value g "list" false element example) (properties s) end)
                      (λ m. returns (as_generated m)))
                  (returns expansion_not_supported))
              (generated v) p.1 in
          let listed = Listed-generated g s example found.0 v is found.1.1 in
          (listed.0, listed.1, found.1.0 ∙ ap returns listed.2, listed.3, listed.4)
      | inr p ↦ ground (arith, is, p.0)
    ]

-- ===== src/Schema/Query.antt =====
-- What BuildQuerySchema (spec/query.go) lets a query hold.
use Prim.Native.String.{String}
use mathlib.Core.List.{append_assoc, append-nil}
use stripe_mock_pi.Prelude.{
  ◌≡◌, refl, Bool, true, false, List, [], ◌∷◌, ◌++◌, arith, ◌==◌, if◌then◌else◌, ◌∙◌, sym,
  Bool-cases, inl, inr, eq_iff,
}
use stripe_mock_pi.Schema.{
  Schema, Pointer, nil, to, Properties, no_properties, property, property_of, set_property,
  Parameter, parameter_query, schema_or_object, add_query_parameters, Operation, build_query_schema,
  properties, keywords,
}

-- The query parameters of an operation, in order.
abbrev query_parameters : List Parameter → List Parameter
query_parameters [] = []
query_parameters (p ∷ rest) =
    if p.location == parameter_query then p ∷ query_parameters rest else query_parameters rest

-- The schema of the last parameter of this name, or the given pointer.
abbrev last_named : String → Pointer → List Parameter → Pointer
last_named key otherwise [] = otherwise
last_named key otherwise (p ∷ rest) =
    last_named key (if p.name == key then to (schema_or_object p.schema_pointer) else otherwise)
      rest

abbrev required_names : List Parameter → List String
required_names [] = []
required_names (p ∷ rest) =
    if p.is_required then p.name ∷ required_names rest else required_names rest

property_of-set_property :
    (key other : String) (s : Schema) (props : Properties)
    → property_of other (set_property key s props)
      ≡ (if key == other then to s else property_of other props)
unfolding property_of set_property
property_of-set_property key other s no_properties = refl
property_of-set_property key other s (property first old rest) = ground (
  arith,
  eq_iff first key,
  eq_iff first other,
  eq_iff key other,
  property_of-set_property key other s rest,
)

-- The property that the loop's result has at a name.
property_of-add :
    (key : String) (ps : List Parameter) (props : Properties) (names : List String)
    → property_of key (properties (add_query_parameters ps props names))
      ≡ last_named key (property_of key props) (query_parameters ps)
unfolding add_query_parameters
property_of-add key [] props names = refl
property_of-add key (p ∷ rest) props names =
    let at_name = property_of-set_property p.name key (schema_or_object p.schema_pointer) props in
    elim (Bool-cases (p.location == parameter_query)) [
      | inl e ↦ rw e (
          property_of-add key rest (set_property p.name (schema_or_object p.schema_pointer) props)
            (if p.is_required then names ++ (p.name ∷ []) else names)
          ∙ rw at_name)
      | inr e ↦ rw e (property_of-add key rest props names)
    ]

required_step :
    (needed : Bool) (name : String) (names others : List String)
    → (if needed then names ++ (name ∷ []) else names) ++ others
      ≡ names ++ (if needed then name ∷ others else others)
required_step true name names others = append_assoc names (name ∷ []) others
required_step false name names others = refl

required-add :
    (ps : List Parameter) (props : Properties) (names : List String)
    → (keywords (add_query_parameters ps props names)).required
      ≡ names ++ required_names (query_parameters ps)
unfolding add_query_parameters
required-add [] props names = sym (append-nil names)
required-add (p ∷ rest) props names = elim (Bool-cases (p.location == parameter_query)) [
  | inl e ↦ rw e (
      required-add rest (set_property p.name (schema_or_object p.schema_pointer) props)
        (if p.is_required then names ++ (p.name ∷ []) else names)
      ∙ required_step p.is_required p.name names (required_names (query_parameters rest)))
  | inr e ↦ rw e (required-add rest props names)
]

-- For every operation, the schema that BuildQuerySchema gives has, under each name, the schema of
-- the operation's last query parameter of that name, an object's where the parameter has none, and
-- no property where no query parameter has the name; it requires the names of the required query
-- parameters, in their order.
pub build_query_schema_lem :
    (operation : Operation) (key : String)
    → (property_of key (properties (build_query_schema operation))
        ≡ last_named key nil (query_parameters operation.parameters))
      × ((keywords (build_query_schema operation)).required
          ≡ required_names (query_parameters operation.parameters))
unfolding build_query_schema property_of
build_query_schema_lem operation key = (
  property_of-add key operation.parameters no_properties [],
  required-add operation.parameters no_properties [],
)

-- ===== src/Synthetic.antt =====
-- The kinds of resources that the generator tells apart, and generateSyntheticFixture
-- (server/generator.go). It follows references from schema to schema, so that it has fuel, one unit
-- for each call.
pub mod Required
use Prim.Native.String.{String}
use stripe_mock_pi.Prelude.{
  ℕ, zero, suc, Bool, true, false, ◌||◌, ◌&&◌, not, is_some, Option, none, some, List, [], ◌∷◌,
  Dict, ◌==◌, ◌!=◌, if◌then◌else◌,
}
use stripe_mock_pi.Prelude.Int.{pos}
use stripe_mock_pi.Json.{Value, nil, bool, int, float64, str, arr, obj, done, Object, end, put}
use stripe_mock_pi.Schema
use stripe_mock_pi.Schema.{
  Schema, Pointer, to, Schemas, no_schemas, schema, Properties, no_properties, property, keywords,
  any_of, items_of, properties, property_of, type_of, type_array, type_boolean, type_integer,
  type_number, type_object, type_string,
}
use stripe_mock_pi.Replace.{
  Outcome, returns, panics, no_fuel, bind, maybe_dereference, has_branches,
}
use stripe_mock_pi.Expand.{ExpansionLevel, level, find_expansion}

abbrev pub is_set : Pointer → Bool
is_set Pointer.nil = false
is_set (to s) = true

-- isDeletedResource
unfoldable pub is_deleted_resource : Schema → Bool
unfolding property_of
is_deleted_resource s = is_set (property_of "deleted" (properties s))

abbrev names_object : String → List Value → Bool
names_object name (str first ∷ rest) = first == name
names_object name values = false

abbrev pub enum_names : String → Pointer → Bool
enum_names name Pointer.nil = false
enum_names name (to s) = names_object name (keywords s).enum

abbrev pub has_items : Pointer → Bool
has_items Pointer.nil = false
has_items (to s) = is_set (items_of s)

-- The test that isListResource and isSearchResultResource share, for the name of the object.
unfoldable pub is_resource_of : String → Schema → Bool
unfolding property_of
is_resource_of name s =
    type_of s == type_object
    && ((keywords s).has_properties
        && (enum_names name (property_of "object" (properties s))
            && has_items (property_of "data" (properties s))))

-- isListResource
unfoldable pub is_list_resource : Schema → Bool
unfolding is_resource_of
is_list_resource s = is_resource_of "list" s

-- isSearchResultResource
unfoldable pub is_search_result_resource : Schema → Bool
unfolding is_resource_of
is_search_result_resource s = is_resource_of "search_result" s

-- isBinaryResource
unfoldable pub is_binary_resource : Schema → Bool
is_binary_resource s = (keywords s).format == "binary" && type_of s == type_string

abbrev pub among : String → List String → Bool
among name [] = false
among name (first ∷ rest) = name == first || among name rest

-- isRequiredProperty
unfoldable pub is_required_property : Schema → String → Bool
is_required_property s name = among name (keywords s).required

abbrev branch_for : Bool → Schema → Outcome Pointer → Outcome Pointer
branch_for here d later = if here then returns (to d) else later

abbrev same : Bool → Bool → Bool
same true b = b
same false b = not b

-- findAnyOfBranch
unfoldable pub find_any_of_branch : Dict Schema → Schemas → (deleted : Bool) → Outcome Pointer
unfolding maybe_dereference is_deleted_resource
find_any_of_branch definitions no_schemas deleted = returns Pointer.nil
find_any_of_branch definitions (schema s rest) deleted =
    bind (maybe_dereference definitions s) (λ d.
      branch_for (same deleted (is_deleted_resource d)) d
        (find_any_of_branch definitions rest deleted))

-- The first branch that is no reference.
abbrev first_plain : Schemas → Pointer
first_plain no_schemas = Pointer.nil
first_plain (schema s rest) = if (keywords s).ref == "" then to s else first_plain rest

-- `expansions.expansions[key]`, where there are expansions.
unfoldable pub expansion_at : Option ExpansionLevel → String → Option ExpansionLevel
unfolding find_expansion
expansion_at none key = none
expansion_at (some (level wildcard expansions)) key = find_expansion expansions key

-- The loop over the properties of an object, for the recursive call.
unfoldable pub synthetic_properties :
    (call : Schema → Option ExpansionLevel → Outcome Value)
    → Schema
    → Option ExpansionLevel
    → Properties
    → Object
    → Outcome Object
unfolding is_required_property expansion_at
synthetic_properties call s expansions no_properties fixture = returns fixture
synthetic_properties call s expansions (property key sub rest) fixture =
    if not (is_required_property s key)
    then synthetic_properties call s expansions rest fixture
    else bind (call sub (expansion_at expansions key))
        (λ v. synthetic_properties call s expansions rest (put fixture key v))

abbrev pub as_object : Object → Value
as_object m = obj m

-- The `switch` on the type.
unfoldable pub synthetic_of_type :
    (call : Schema → Option ExpansionLevel → Outcome Value)
    → Schema
    → Option ExpansionLevel
    → Outcome Value
unfolding synthetic_properties
synthetic_of_type call s expansions =
    if type_of s == type_array
    then returns (arr done)
    else (if type_of s == type_boolean
        then returns (bool true)
        else (if type_of s == type_integer
            then returns (int (pos 0))
            else (if type_of s == type_number
                then returns (float64 0)
                else (if type_of s == type_object
                    then bind (synthetic_properties call s expansions (properties s) end)
                        (λ m. returns (as_object m))
                    else (if type_of s == type_string then returns (str "") else panics)))))

-- The branches of a schema: the first that is no reference, else the first one.
unfoldable pub synthetic_branch :
    Dict Schema
    → (call : Schema → Option ExpansionLevel → Outcome Value) → Option ExpansionLevel
    → Schemas
    → Outcome Value
unfolding maybe_dereference
synthetic_branch definitions call expansions no_schemas = panics
synthetic_branch definitions call expansions (schema s rest) = branch (first_plain (schema s rest))
  where
    branch : Pointer → Outcome Value
    branch (to plain) = call plain expansions
    branch Pointer.nil = bind (maybe_dereference definitions s) (λ d. call d expansions)

abbrev enum_or : List Value → Outcome Value → Outcome Value
enum_or [] otherwise = otherwise
enum_or (v ∷ vs) otherwise = returns v

-- generateSyntheticFixture
unfoldable pub generate_synthetic_fixture :
    ℕ → Dict Schema → Schema → Option ExpansionLevel → Outcome Value
unfolding synthetic_of_type synthetic_branch
generate_synthetic_fixture zero definitions s expansions = no_fuel
generate_synthetic_fixture (suc fuel) definitions s expansions =
    let call = generate_synthetic_fixture fuel definitions in
    if (keywords s).nullable && not (is_some expansions)
    then returns nil
    else enum_or (keywords s).enum (
        if has_branches (any_of s)
        then synthetic_branch definitions call expansions (any_of s)
        else synthetic_of_type call s expansions)

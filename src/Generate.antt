-- ===== src/Generate.antt =====
-- DataGenerator (server/generator.go): generateInternal, the list and search resources and Generate.
-- The request's method and path stay the same at every level, and the context, which only messages
-- show, is left out. generateInternal follows references from schema to schema, so that it has fuel,
-- one unit for each call.
pub mod Internal
pub mod Request
pub mod Lists
pub mod Keys
pub mod Response
use Prim.Native.String.{String}
use stripe_mock_pi.Prelude.{
  ℕ, zero, suc, ◌+◌, ◌/◌, Bool, true, false, ◌||◌, ◌&&◌, not, is_some, ltb, nat_eq, length, Option,
  none, some, List, [], ◌∷◌, Dict, lookup, ◌==◌, ◌!=◌, if◌then◌else◌,
}
use stripe_mock_pi.Prelude.Int.{pos}
use stripe_mock_pi.Text.{strip_prefix, replace_first, text_le}
use stripe_mock_pi.Json.{
  Value, nil, bool, int, float64, str, arr, obj, Items, done, item, Object, end, get, put,
}
use stripe_mock_pi.Schema
use stripe_mock_pi.Schema.{
  Schema, Pointer, to, Schemas, no_schemas, schema, Properties, no_properties, property, Resources,
  no_resources, one_of, keywords, any_of, items_of, properties, property_of, expansion_resources,
  type_of, type_array, type_boolean, type_integer, type_number, type_object, type_string,
}
use stripe_mock_pi.Replace.{
  Outcome, returns, panics, no_fuel, bind, maybe_dereference, has_branches,
}
use stripe_mock_pi.Expand.{
  ExpansionLevel, level, leaf, Expansions, no_expansions, expansion, find_expansion,
}
use stripe_mock_pi.Synthetic.{
  is_list_resource, is_search_result_resource, is_binary_resource, is_resource_of,
  find_any_of_branch, expansion_at, generate_synthetic_fixture,
}

-- What is generated, or errExpansionNotSupported.
pub data Generated : Type 0 where
  generated : Value → Generated
  expansion_not_supported : Generated

-- What stays the same at every level: DataGenerator, with the fuel of a synthetic fixture, and the
-- request's method and path.
pub record Generator : Type 0 where
  pub definitions : Dict Schema
  pub fixtures : Dict Value
  pub fixture_fuel : ℕ
  pub request_method : String
  pub request_path : String

-- The arguments that change with the level: expansions, schema and example.
abbrev pub Call : Type 0
Call = Option ExpansionLevel → Schema → Option Value → Outcome Generated

abbrev name_at : ℕ → List String → String
name_at i [] = ""
name_at zero (name ∷ rest) = name
name_at (suc i) (name ∷ rest) = name_at i rest

-- `sort.SearchStrings(names, key)`, the binary search between two indexes, of which each round
-- leaves at most half.
unfoldable pub search_strings : (rounds : ℕ) → (key : String) → List String → ℕ → ℕ → ℕ
unfolding text_le
search_strings zero key names i j = i
search_strings (suc rounds) key names i j =
    let middle = (i + j) / 2 in
    let upper = search_strings rounds key names (middle + 1) j in
    let lower = search_strings rounds key names i middle in
    if ltb i j then (if not (text_le key (name_at middle names)) then upper else lower) else i

-- The test on an expansion's key, which refuses it where the search ends behind the last name.
unfoldable pub is_refused : List String → String → Bool
unfolding search_strings
is_refused names key =
    nat_eq (search_strings (length names + 1) key names 0 (length names)) (length names)

abbrev any_refused : List String → Expansions → Bool
any_refused names no_expansions = false
any_refused names (expansion key sub rest) = is_refused names key || any_refused names rest

-- Whether an expansion is asked for that the schema does not list.
unfoldable pub refuses_expansions : Option ExpansionLevel → Option (List String) → Bool
unfolding is_refused
refuses_expansions (some (level wildcard expansions)) (some names) = any_refused names expansions
refuses_expansions expansions names = false

abbrev is_null : Option Value → Bool
is_null (some nil) = true
is_null v = false

abbrev missing_fixture : Option Value → Outcome (Option Value)
missing_fixture none = panics
missing_fixture (some v) = returns (some v)

-- The example at hand, or the fixture of the resource where there is none.
unfoldable pub example_or_fixture : Dict Value → String → Option Value → Outcome (Option Value)
example_or_fixture fixtures resource_id example =
    if (not (is_some example) || is_null example) && resource_id != ""
    then missing_fixture (lookup resource_id fixtures)
    else returns example

abbrev with_id : Option String → String → String
with_id none s = s
with_id (some t) s = t

abbrev url_of : Option Value → Outcome String
url_of (some (str s)) = returns s
url_of v = panics

abbrev url_of_example : Value → Outcome String
url_of_example (obj m) = url_of (get m "url")
url_of_example v = panics

-- generateURLForListableResource
unfoldable pub generate_url_for_listable_resource :
    Generator → Schema → (example : Option Value) → Outcome String
unfolding strip_prefix replace_first
generate_url_for_listable_resource g s example =
    by_pattern (strip_prefix "^" (keywords s).pattern_text) example
  where
    by_pattern : Option String → Option Value → Outcome String
    by_pattern (some pattern) example =
        returns (with_id (replace_first "[^/]+" "id_123" pattern) pattern)
    by_pattern none (some v) = url_of_example v
    by_pattern none none = returns g.request_path

abbrev as_text : String → Option Value
as_text s = some (str s)

-- The value of a property of a list or search resource; none where it is left out.
unfoldable pub listed_value :
    Generator
    → (object_name : String) → (searched : Bool) → Value
    → Option Value
    → String
    → Schema
    → Outcome (Option Value)
unfolding generate_url_for_listable_resource
listed_value g object_name searched item_data example key sub =
    if key == "data"
    then returns (some (arr (item item_data done)))
    else (if key == "has_more"
        then returns (some (bool false))
        else (if searched && key == "next_page"
            then returns none
            else (if key == "object"
                then returns (as_text object_name)
                else (if key == "total_count"
                    then returns (some (int (pos 1)))
                    else (if key == "url"
                        then bind (generate_url_for_listable_resource g sub example)
                            (λ url. returns (as_text url))
                        else returns (some nil))))))

abbrev pub put_some : Object → String → Option Value → Object
put_some m key none = m
put_some m key (some v) = put m key v

-- A loop over properties that fills a map, for what each of them gives.
unfoldable pub fill :
    (String → Schema → Outcome (Option Value)) → Properties → Object → Outcome Object
fill f no_properties m = returns m
fill f (property key sub rest) m = bind (f key sub) (λ v. fill f rest (put_some m key v))

abbrev pub as_generated : Object → Generated
as_generated m = generated (obj m)

abbrev pub on_generated {ℓ} : {A : Type ℓ} → Generated → (Value → Outcome A) → Outcome A → Outcome A
on_generated (generated v) next refused = next v
on_generated expansion_not_supported next refused = refused

abbrev pub items_schema : Pointer → Pointer
items_schema Pointer.nil = Pointer.nil
items_schema (to s) = items_of s

abbrev pub call_items : Call → Option ExpansionLevel → Pointer → Outcome Generated
call_items call expansions Pointer.nil = panics
call_items call expansions (to s) = call expansions s none

-- generateListResource, and generateSearchResultResource where `searched`.
unfoldable pub generate_listing :
    Generator
    → Call
    → (object_name : String) → (searched : Bool) → Option ExpansionLevel
    → Schema
    → Option Value
    → Outcome Generated
unfolding listed_value fill expansion_at property_of
generate_listing g call object_name searched expansions s example =
    bind
      (call_items call (expansion_at expansions "data")
        (items_schema (property_of "data" (properties s))))
      (λ data_item.
        on_generated data_item
          (λ v.
            bind (fill (listed_value g object_name searched v example) (properties s) end)
              (λ m. returns (as_generated m)))
          (returns expansion_not_supported))

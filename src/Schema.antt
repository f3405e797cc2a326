-- ===== src/Schema.antt =====
-- The part of an OpenAPI specification that the server reads (spec/spec.go): schemas, operations and
-- their parameters, and BuildQuerySchema (spec/query.go). A pointer is nil or a schema; the pointers
-- that slices and maps hold are not nil.
pub mod Query
pub mod Translated
pub mod Validate
use Prim.Native.String.{String}
use stripe_mock_pi.Prelude.{
  Bool, true, false, Option, none, List, [], ◌∷◌, ◌++◌, Dict, ◌==◌, ◌!=◌, if◌then◌else◌,
}
use stripe_mock_pi.Prelude.Int.{ℤ, pos}
use stripe_mock_pi.Json.{Value}

-- The fields of Schema that hold no schema, and whether `Properties` is not nil. An `Enum` without
-- values is nil.
pub record Keywords : Type 0 where
  pub additional_properties_allowed : Bool
  pub enum : List Value
  pub format : String
  pub max_length : ℤ
  pub nullable : Bool
  pub pattern_text : String
  pub has_properties : Bool
  pub required : List String
  pub type_name : String
  pub ref : String
  pub x_expandable_fields : Option (List String)
  pub x_resource_id : String

mutual
  -- Schema: AdditionalProperties, AnyOf, Items, Properties, XExpansionResources and the rest.
  pub data Schema : Type 0 where
    schema_of : Pointer → Schemas → Pointer → Properties → Resources → Keywords → Schema

  -- `*Schema`
  pub data Pointer : Type 0 where
    nil : Pointer
    to : Schema → Pointer

  -- `[]*Schema`
  pub data Schemas : Type 0 where
    no_schemas : Schemas
    schema : Schema → Schemas → Schemas

  -- `map[string]*Schema`
  pub data Properties : Type 0 where
    no_properties : Properties
    property : String → Schema → Properties → Properties

  -- `*ExpansionResources`
  pub data Resources : Type 0 where
    no_resources : Resources
    one_of : Schemas → Resources

abbrev pub keywords : Schema → Keywords
keywords (schema_of additional branches items props expansions k) = k

abbrev pub any_of : Schema → Schemas
any_of (schema_of additional branches items props expansions k) = branches

abbrev pub items_of : Schema → Pointer
items_of (schema_of additional branches items props expansions k) = items

abbrev pub properties : Schema → Properties
properties (schema_of additional branches items props expansions k) = props

abbrev pub expansion_resources : Schema → Resources
expansion_resources (schema_of additional branches items props expansions k) = expansions

abbrev pub type_of : Schema → String
type_of s = (keywords s).type_name

-- `properties[key]`
unfoldable pub property_of : String → Properties → Pointer
property_of key no_properties = nil
property_of key (property first s rest) = if first == key then to s else property_of key rest

-- `properties[key] = s`
unfoldable pub set_property : String → Schema → Properties → Properties
set_property key s no_properties = property key s no_properties
set_property key s (property first old rest) =
    if first == key then property key s rest else property first old (set_property key s rest)

-- TypeArray, TypeBoolean, TypeInteger, TypeNumber, TypeObject, TypeString
abbrev pub type_array : String
type_array = "array"

abbrev pub type_boolean : String
type_boolean = "boolean"

abbrev pub type_integer : String
type_integer = "integer"

abbrev pub type_number : String
type_number = "number"

abbrev pub type_object : String
type_object = "object"

abbrev pub type_string : String
type_string = "string"

-- ParameterQuery
abbrev pub parameter_query : String
parameter_query = "query"

pub record Parameter : Type 0 where
  pub location : String
  pub name : String
  pub is_required : Bool
  pub schema_pointer : Pointer

-- MediaType, RequestBody and Response, of which only the schemas under each media type are read.
abbrev pub Content : Type 0
Content = Dict Pointer

pub record Operation : Type 0 where
  pub parameters : List Parameter
  pub request_body : Option Content
  pub responses : Dict Content

-- The zero value of Schema, with a type and a map of properties.
abbrev pub blank_keywords : String → Keywords
blank_keywords name = record {
  additional_properties_allowed = false;
  enum = [];
  format = "";
  max_length = pos 0;
  nullable = false;
  pattern_text = "";
  has_properties = true;
  required = [];
  type_name = name;
  ref = "";
  x_expandable_fields = none;
  x_resource_id = "";
}

abbrev pub blank_schema : String → Schema
blank_schema name = schema_of nil no_schemas nil no_properties no_resources (blank_keywords name)

-- `paramSchema`
abbrev pub schema_or_object : Pointer → Schema
schema_or_object nil =
    schema_of nil no_schemas nil no_properties no_resources
      (record (blank_keywords type_object) { has_properties = false })
schema_or_object (to s) = s

abbrev query_schema : Properties → List String → Schema
query_schema props names =
    schema_of nil no_schemas nil props no_resources
      (record (blank_keywords type_object) { required = names })

-- The loop of BuildQuerySchema, over the schema's properties and required names so far.
unfoldable pub add_query_parameters : List Parameter → Properties → List String → Schema
unfolding set_property
add_query_parameters [] props names = query_schema props names
add_query_parameters (p ∷ rest) props names =
    if p.location != parameter_query
    then add_query_parameters rest props names
    else add_query_parameters rest (set_property p.name (schema_or_object p.schema_pointer) props)
        (if p.is_required then names ++ (p.name ∷ []) else names)

-- BuildQuerySchema
unfoldable pub build_query_schema : Operation → Schema
unfolding add_query_parameters
build_query_schema operation = add_query_parameters operation.parameters no_properties []

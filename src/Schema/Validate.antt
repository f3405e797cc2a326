-- ===== src/Schema/Validate.antt =====
-- Which of the schemas before and behind getJSONSchemaForOpenAPI3Schema (spec/validate.go) let null
-- pass.
use Prim.Native.String.{String}
use stripe_mock_pi.Prelude.{
  ◌≡◌, refl, Bool, true, false, not, ◌&&◌, ◌||◌, List, [], ◌∷◌, arith, ◌==◌, ◌!=◌, if◌then◌else◌,
  ◌∙◌,
}
use stripe_mock_pi.Json.{Value, nil, str, arr, obj, Items, done, item, Object, end, entry}
use stripe_mock_pi.Schema
use stripe_mock_pi.Schema.{
  Schema, schema_of, Pointer, to, Schemas, no_schemas, schema, Properties, no_properties, property,
  Keywords,
}
use stripe_mock_pi.Schema.Translated.{
  values, set_if, has_any, is_nonempty, json_schema, additional_entry, items_entry, json_branches,
}

abbrev is_nil : Value → Bool
is_nil nil = true
is_nil v = false

abbrev is_null_name : Value → Bool
is_null_name (str s) = s == "null"
is_null_name v = false

abbrev some_item : (Value → Bool) → Items → Bool
some_item p done = false
some_item p (item v rest) = p v || some_item p rest

-- JSON Schema's rules for `type` and `enum`, for the value null.
abbrev type_lets_null : Value → Bool
type_lets_null (arr names) = some_item is_null_name names
type_lets_null v = is_null_name v

abbrev enum_lets_null : Value → Bool
enum_lets_null (arr vs) = some_item is_nil vs
enum_lets_null v = false

-- What a keyword says of null, given what its value says where it is `anyOf`.
abbrev keyword_lets_null : String → Value → Bool → Bool
keyword_lets_null key v branches =
    if key == "type"
    then type_lets_null v
    else (if key == "enum"
        then enum_lets_null v
        else (if key == "const" then is_nil v else (if key == "anyOf" then branches else true)))

-- Whether a JSON schema lets null pass. A reference is left out: it is looked at where it leads.
unfoldable mutual
  pub lets_null : Object → Bool
  lets_null end = true
  lets_null (entry key v rest) = keyword_lets_null key v (branches_let_null v) && lets_null rest

  pub branches_let_null : Value → Bool
  branches_let_null (arr vs) = some_branch_lets_null vs
  branches_let_null v = false

  pub some_branch_lets_null : Items → Bool
  some_branch_lets_null done = false
  some_branch_lets_null (item v rest) = branch_lets_null v || some_branch_lets_null rest

  pub branch_lets_null : Value → Bool
  branch_lets_null (obj m) = lets_null m
  branch_lets_null v = false

abbrev some_value : (Value → Bool) → List Value → Bool
some_value p [] = false
some_value p (v ∷ vs) = p v || some_value p vs

nullable_or :
    (nullable any_type null_type enum_fits branchless some_branch some_marked here below : Bool)
    → (here && ((not nullable || enum_fits) && below)) ≡ true
    → (below ≡ true → some_branch ≡ some_marked)
    → ((any_type || nullable || null_type)
        && (enum_fits && (branchless || (nullable || some_branch))))
      ≡ (nullable || ((any_type || null_type) && (enum_fits && (branchless || some_marked))))
nullable_or nullable any_type null_type enum_fits branchless some_branch some_marked here below h
      same =
    let e = same (ground arith) in ground arith

-- What the translation makes of a schema for null, keyword by keyword.
unfoldable mutual
  pub openapi_lets_null : Schema → Bool
  openapi_lets_null (schema_of additional branches items props expansions k) =
      (k.type_name == "" || k.nullable || k.type_name == "null")
      && ((not (is_nonempty k.enum) || some_value is_nil k.enum)
          && (not (has_any branches) || (k.nullable || some_openapi_lets_null branches)))

  pub some_openapi_lets_null : Schemas → Bool
  some_openapi_lets_null no_schemas = false
  some_openapi_lets_null (schema s rest) = openapi_lets_null s || some_openapi_lets_null rest

-- Whether an OpenAPI schema marks null as a value: by `nullable`, or else where its type, its
-- enumeration and one of its branches, as far as it has them, take null.
unfoldable mutual
  pub marks_null : Schema → Bool
  marks_null (schema_of additional branches items props expansions k) =
      k.nullable
      || ((k.type_name == "" || k.type_name == "null")
          && ((not (is_nonempty k.enum) || some_value is_nil k.enum)
              && (not (has_any branches) || some_marks_null branches)))

  pub some_marks_null : Schemas → Bool
  some_marks_null no_schemas = false
  some_marks_null (schema s rest) = marks_null s || some_marks_null rest

-- Schemas without a reference, in their branches too, where an enumeration beside `nullable` holds
-- null.
unfoldable mutual
  pub spelled_out : Schema → Bool
  spelled_out (schema_of additional branches items props expansions k) =
      k.ref == ""
      && ((not k.nullable || (not (is_nonempty k.enum) || some_value is_nil k.enum))
          && all_spelled_out branches)

  pub all_spelled_out : Schemas → Bool
  all_spelled_out no_schemas = true
  all_spelled_out (schema s rest) = spelled_out s && all_spelled_out rest

mutual
  unfolding openapi_lets_null marks_null spelled_out some_openapi_lets_null some_marks_null
      all_spelled_out

  marks_null-openapi : (s : Schema) → spelled_out s ≡ true → openapi_lets_null s ≡ marks_null s
  marks_null-openapi (schema_of additional branches items props expansions k) h =
      nullable_or k.nullable (k.type_name == "") (k.type_name == "null")
        (not (is_nonempty k.enum) || some_value is_nil k.enum) (not (has_any branches))
        (some_openapi_lets_null branches) (some_marks_null branches) (k.ref == "")
        (all_spelled_out branches) h (marks_null-branches branches)

  marks_null-branches :
      (ss : Schemas) → all_spelled_out ss ≡ true → some_openapi_lets_null ss ≡ some_marks_null ss
  marks_null-branches no_schemas h = refl
  marks_null-branches (schema s rest) h =
      let here = marks_null-openapi s (ground arith) in
      let later = marks_null-branches rest (ground arith) in rw here (rw later)

lets_null-set_if :
    (test : Bool) (key : String) (v : Value) (rest : Object)
    → lets_null (set_if test key v rest)
      ≡ ((not test || keyword_lets_null key v (branches_let_null v)) && lets_null rest)
unfolding lets_null set_if
lets_null-set_if true key v rest = refl
lets_null-set_if false key v rest = refl

some_item-values : (vs : List Value) → some_item is_nil (values vs) ≡ some_value is_nil vs
some_item-values [] = refl
some_item-values (v ∷ vs) = rw (some_item-values vs)

or_true : (b : Bool) → (b || true) ≡ true
or_true true = refl
or_true false = refl

type_test :
    (nullable : Bool) (name : String) (others : Bool)
    → (others
        && ((not (name != "")
              || type_lets_null
                  (if nullable then arr (item (str name) (item (str "null") done)) else str name))
            && true))
      ≡ (others && (name == "" || nullable || name == "null"))
type_test true name others = ground arith
type_test false name others = ground arith

lets_null-additional_entry :
    (allowed : Bool) (additional : Pointer) (jss : Object)
    → lets_null (additional_entry allowed additional jss) ≡ lets_null jss
unfolding json_schema lets_null
lets_null-additional_entry false additional jss = refl
lets_null-additional_entry true Pointer.nil jss = refl
lets_null-additional_entry true (to s) jss = refl

lets_null-items_entry :
    (items : Pointer) (jss : Object) → lets_null (items_entry items jss) ≡ lets_null jss
unfolding json_schema lets_null
lets_null-items_entry Pointer.nil jss = refl
lets_null-items_entry (to s) jss = refl

reorder : (a b c : Bool) → (a && (b && c)) ≡ (c && (b && a))
reorder true true c = ground arith
reorder true false c = ground arith
reorder false b c = ground arith

lets_null-schema_of :
    (additional : Pointer) (branches : Schemas) (items : Pointer) (props : Properties)
    (expansions : Schema.Resources) (k : Keywords)
    → some_branch_lets_null (json_branches k.nullable branches)
      ≡ (k.nullable || some_openapi_lets_null branches)
    → lets_null (json_schema (schema_of additional branches items props expansions k))
      ≡ openapi_lets_null (schema_of additional branches items props expansions k)
unfolding json_schema lets_null openapi_lets_null branches_let_null
lets_null-schema_of additional branches items props expansions k parts =
    let others = not (is_nonempty k.enum) || some_value is_nil k.enum in
    let typed = k.type_name == "" || k.nullable || k.type_name == "null" in
    let joined : lets_null (json_schema (schema_of additional branches items props expansions k))
        ≡ ((not (has_any branches) || (k.nullable || some_openapi_lets_null branches))
            && (others && typed)) =
      simp (
        lets_null-additional_entry,
        lets_null-set_if,
        lets_null-items_entry,
        parts,
        or_true,
        some_item-values,
        type_test k.nullable k.type_name others,
      ) in
    joined
    ∙ reorder (not (has_any branches) || (k.nullable || some_openapi_lets_null branches)) others
        typed

mutual
  unfolding json_schema lets_null openapi_lets_null branches_let_null some_branch_lets_null
      branch_lets_null some_openapi_lets_null json_branches

  lets_null-schema : (s : Schema) → lets_null (json_schema s) ≡ openapi_lets_null s
  lets_null-schema (schema_of additional branches items props expansions k) =
      lets_null-schema_of additional branches items props expansions k
        (lets_null-branches k.nullable branches)

  lets_null-branches :
      (nullable : Bool) (ss : Schemas)
      → some_branch_lets_null (json_branches nullable ss) ≡ (nullable || some_openapi_lets_null ss)
  lets_null-branches true no_schemas = refl
  lets_null-branches false no_schemas = refl
  lets_null-branches nullable (schema s rest) =
      rw (lets_null-schema s) (rw (lets_null-branches nullable rest) (ground arith))

-- For a schema without references in it or its branches, where an enumeration beside `nullable`
-- holds null: the JSON schema that getJSONSchemaForOpenAPI3Schema makes of it lets null pass exactly
-- where the OpenAPI schema marks null as a value, by `nullable`, or else where its type, its
-- enumeration and one of its branches, as far as it has them, take null.
pub lets_null-json_schema :
    (s : Schema) → spelled_out s ≡ true → lets_null (json_schema s) ≡ marks_null s
lets_null-json_schema s h = lets_null-schema s ∙ marks_null-openapi s h

-- ===== src/Coerce/Schemas.antt =====
-- CoerceParams, coerceSubSchema and coerceNonObjectSchema (param/coercer/coercer.go).
use Prim.Native.String.{String}
use stripe_mock_pi.Prelude.{
  ℕ, Bool, true, false, not, ◌&&◌, is_some, Option, none, some, List, [], ◌==◌, if◌then◌else◌,
}
use stripe_mock_pi.Json.{Value, arr, obj, Items, Object, get, put}
use stripe_mock_pi.Schema.{
  Schema, schema_of, Pointer, to, Schemas, no_schemas, schema, Properties, no_properties, property,
  Keywords, properties, type_array,
}
use stripe_mock_pi.Coerce.{
  is_schema_primitive_type, coerce_primitive_type, Slicing, not_indexed, too_large, slice,
  parse_integer_indexed_map,
}
use stripe_mock_pi.Coerce.Loops.{
  Coerced, unchanged, Looped, coerced_or_kept, coerce_entries, coerce_items, shared_with,
}

abbrev has_any_properties : Properties → Bool
has_any_properties no_properties = false
has_any_properties (property key s rest) = true

abbrev is_nonempty : List Value → Bool
is_nonempty [] = false
is_nonempty vs = true

abbrev as_array : Items → Value
as_array vs = arr vs

-- The value of a map whose properties were coerced.
abbrev coerced_map : Object × Option ℕ → Coerced
coerced_map (m, error) = record { kept = obj m; result = some (obj m); error = error }

-- What the loop over a map's entries gives, and where it does not return, what is tried next.
abbrev after_entries : Looped Object → (Value → Coerced) → Coerced
after_entries l next = by_error l.error
  where
    by_error : Option ℕ → Coerced
    by_error (some i) = record { kept = obj l.elements; result = none; error = some i }
    by_error none =
        if l.all_ok
        then record { kept = obj l.elements; result = some (obj l.elements); error = none }
        else next (obj l.elements)

-- What the loop over a slice gives; `shown` is what its elements make of the value it came from.
abbrev after_items : (Looped Items → Value) → Looped Items → Coerced
after_items shown l = record {
  kept = shown l;
  result = if l.all_ok && not (is_some l.error) then some (arr l.elements) else none;
  error = l.error;
}

-- A branch that succeeds ends the loop over `schema.AnyOf`; the error of one that does not is
-- dropped.
abbrev or_next : Coerced → (Value → Coerced) → Coerced
or_next c next = by_result c.result
  where
    by_result : Option Value → Coerced
    by_result none = next c.kept
    by_result (some v) = c

-- A slice that a map with indexes as keys stands for.
abbrev of_slicing : Object → (Items → Coerced) → Slicing → Coerced
of_slicing m coerce not_indexed = unchanged (obj m)
of_slicing m coerce (too_large i) = record { kept = obj m; result = none; error = some i }
of_slicing m coerce (slice vs) = coerce vs

-- The loop over the elements, where the schema has a schema of items.
abbrev coerce_slice : Option (Value → Coerced) → (Looped Items → Value) → Value → Items → Coerced
unfolding coerce_items
coerce_slice none shown v vs = record { kept = v; result = some (as_array vs); error = none }
coerce_slice (some call) shown v vs = after_items shown (coerce_items call vs)

abbrev shown_slice : Looped Items → Value
shown_slice l = arr l.elements

abbrev shown_map : Object → Looped Items → Value
unfolding shared_with
shown_map m l = obj (shared_with l.originals m)

-- The case of an array.
abbrev coerce_array : Option (Value → Coerced) → Value → Coerced
unfolding parse_integer_indexed_map coerce_slice shown_map
coerce_array call (arr vs) = coerce_slice call shown_slice (arr vs) vs
coerce_array call (obj m) =
    of_slicing m (coerce_slice call (shown_map m) (obj m)) (parse_integer_indexed_map m)
coerce_array call v = unchanged v

abbrev coerce_map : Option (Value → Coerced) → Value → (Value → Coerced) → Coerced
unfolding coerce_entries
coerce_map (some call) (obj m) next = after_entries (coerce_entries call m) next
coerce_map call v next = next v

-- What CoerceParams does with a key's coerced value.
abbrev pub stored_at :
    String
    → Object
    → Coerced
    → (error : Option ℕ) → (Object → Object × Option ℕ)
    → Object × Option ℕ
stored_at key m c (some i) next = (put m key c.kept, some i)
stored_at key m c none next = next (put m key (coerced_or_kept c.result c.kept))

abbrev pub coerced_at :
    String
    → Object
    → Option Value
    → (Value → Coerced)
    → (Object → Object × Option ℕ)
    → Object × Option ℕ
coerced_at key m none call next = next m
coerced_at key m (some v) call next = stored_at key m (call v) (call v).error next

abbrev coerce_object : (Object → Object × Option ℕ) → Value → Coerced
coerce_object call (obj m) = coerced_map (call m)
coerce_object call v = unchanged v

module _ (parse_float : String → Option ℕ) where
  abbrev coerce_primitive : Keywords → Value → Coerced
  unfolding coerce_primitive_type
  coerce_primitive k v =
      if is_nonempty k.enum && is_some (coerce_primitive_type parse_float v "number")
      then unchanged v
      else record {
        kept = v;
        result = coerce_primitive_type parse_float v k.type_name;
        error = none;
      }

  unfoldable mutual
    unfolding is_schema_primitive_type coerce_primitive coerce_array coerce_map

    -- coerceSubSchema, and coerceNonObjectSchema where there are no properties.
    pub coerce_sub_schema : Schema → Value → Coerced
    coerce_sub_schema (schema_of additional branches items props expansions k) v =
        if has_any_properties props
        then coerce_object (coerce_properties props) v
        else (if is_schema_primitive_type k.type_name
            then coerce_primitive k v
            else coerce_map (coerce_pointer additional) v (λ w. coerce_branches branches w (λ u.
              if k.type_name == type_array
              then coerce_array (coerce_pointer items) u
              else unchanged u)))

    pub coerce_pointer : Pointer → Option (Value → Coerced)
    coerce_pointer Pointer.nil = none
    coerce_pointer (to s) = some (coerce_sub_schema s)

    pub coerce_branches : Schemas → Value → (Value → Coerced) → Coerced
    coerce_branches no_schemas v next = next v
    coerce_branches (schema s rest) v next =
        or_next (coerce_sub_schema s v) (λ w. coerce_branches rest w next)

    -- The loop of CoerceParams.
    pub coerce_properties : Properties → Object → Object × Option ℕ
    coerce_properties no_properties m = (m, none)
    coerce_properties (property key s rest) m =
        coerced_at key m (get m key) (coerce_sub_schema s) (coerce_properties rest)

  -- CoerceParams: the data, and the index that is too large where it fails.
  unfoldable pub coerce_params : Schema → Object → Object × Option ℕ
  unfolding coerce_sub_schema
  coerce_params s m = coerce_properties (properties s) m

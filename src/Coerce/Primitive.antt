-- ===== src/Coerce/Primitive.antt =====
-- isSchemaPrimitiveType and coercePrimitiveType (param/coercer/coercer.go) side by side.
use Prim.Native.String.{String}
use stripe_mock_pi.Prelude.{◌≡◌, ℕ, Option, some, arith, is_some}
use stripe_mock_pi.Json.{str}
use stripe_mock_pi.Coerce.{is_schema_primitive_type, coerce_primitive_type}

-- The two ladders name the same types: those that isSchemaPrimitiveType accepts are exactly those
-- to which coercePrimitiveType coerces the text `0`, where that is read as a float.
pub coerce_zero-primitive :
    (parse_float : String → Option ℕ) (b : ℕ) (primitive_type : String)
    → parse_float "0" ≡ some b
    → is_some (coerce_primitive_type parse_float (str "0") primitive_type)
      ≡ is_schema_primitive_type primitive_type
unfolding is_schema_primitive_type coerce_primitive_type
coerce_zero-primitive parse_float b primitive_type h = rw h (ground arith)

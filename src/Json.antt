-- ===== src/Json.antt =====
-- The dynamic values that the server stores and exchanges: Go's `interface{}` holding decoded JSON
-- or coerced parameters, `map[string]interface{}` (server/paymentintents.go, server/stateful.go).
-- A `float64` is its 64-bit pattern.
pub mod Laws
pub mod Copy
use Prim.Native.String.{String}
use stripe_mock_pi.Prelude.{ℕ, Bool, true, false, Option, none, some, ◌==◌, if◌then◌else◌}
use stripe_mock_pi.Prelude.Int.{ℤ}

mutual
  pub data Value : Type 0 where
    nil : Value
    bool : Bool → Value
    int : ℤ → Value
    float64 : ℕ → Value
    str : String → Value
    arr : Items → Value
    obj : Object → Value

  pub data Items : Type 0 where
    done : Items
    item : Value → Items → Items

  pub data Object : Type 0 where
    end : Object
    entry : String → Value → Object → Object

-- `v, ok := m[key]`
unfoldable pub get : Object → String → Option Value
get end k = none
get (entry j v m) k = if j == k then some v else get m k

abbrev pub or_nil : Option Value → Value
or_nil none = nil
or_nil (some v) = v

-- `m[key]`, which is nil at a missing key
abbrev pub at : Object → String → Value
at m k = or_nil (get m k)

-- `m[key] = v`
unfoldable pub put : Object → String → Value → Object
put end k v = entry k v end
put (entry j w m) k v = if j == k then entry k v m else entry j w (put m k v)

abbrev pub string_of : Value → String
string_of (str s) = s
string_of _ = ""

-- getString
unfoldable pub get_string : Object → String → String
get_string m k = string_of (at m k)

-- The type switch of boolParam.
abbrev bool_of : Value → Bool
bool_of (bool b) = b
bool_of (str s) = s == "true"
bool_of _ = false

-- boolParam
unfoldable pub bool_param : Object → String → Bool
bool_param params k = bool_of (at params k)

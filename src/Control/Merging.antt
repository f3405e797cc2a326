-- ===== src/Control/Merging.antt =====
-- mergeMap (server/stateful.go), key by key.
use Prim.Native.String.{String}
use stripe_mock_pi.Prelude.{Bool, true, Option, none, some, ◌&&◌, not, is_some}
use stripe_mock_pi.Json.{Value, Object, end, entry, get, or_nil}
use stripe_mock_pi.Control.{merge_value}

-- An object that holds each key once, as a decoded JSON object does.
abbrev pub distinct : Object → Bool
distinct end = true
distinct (entry k v m) = not (is_some (get m k)) && distinct m

abbrev pub merged_with : (new old : Option Value) → Option Value
merged_with none old = old
merged_with (some v) old = some (merge_value v (or_nil old))

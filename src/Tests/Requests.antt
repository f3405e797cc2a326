-- ===== src/Tests/Requests.antt =====
-- The theorems on what a request and the command line are read as.
use Prim.Native.String.{String}
use stripe_mock_pi.Prelude.{
  ◌≤◌, ◌+◌, ◌≡◌, refl, true, false, List, [], ◌∷◌, some, none, ◌==◌, ◌&&◌, ◌||◌, if◌then◌else◌, ◌≢◌,
  ◌↔◌, eq_iff, arith,
}
use stripe_mock_pi.Prelude.Int.{ℤ, pos, negsuc}
use stripe_mock_pi.Text.{◌<>◌}
use stripe_mock_pi.Json.{str, nil, Object, Items, item, done}
use stripe_mock_pi.Server.{object}
use stripe_mock_pi.Coerce.{
  parse_integer_indexed_map, slice, max_slice_size, coerce_primitive_type, is_schema_primitive_type,
}
use stripe_mock_pi.Coerce.Indexed.{count, nth, value_at, parse_integer_indexed_map-slice}
use stripe_mock_pi.Form.{Values, parse_form_string}
use stripe_mock_pi.Form.Order
use stripe_mock_pi.Form.Order.{parse_form_string-write}
use stripe_mock_pi.Expand.{
  parse_with_fuel, parse_expansion_level, level, expansion, no_expansions, leaf,
}
use stripe_mock_pi.Expand.Enough.{level_by, parse_expansion_level-unfolds}
use stripe_mock_pi.Bytes.{base64_decode}
use stripe_mock_pi.Session.{validate_auth}
use stripe_mock_pi.Params.{
  key_array, key_map, key_raw, parse_key, assembled, panics, assemble_params,
}
use stripe_mock_pi.Params.Keys.{write, parse_key-write}
use stripe_mock_pi.Params.Chains.{assemble_params-no_panic}
use stripe_mock_pi.Params.Arrays.{pairs_of, holding, assemble_params-array}
use stripe_mock_pi.Options.{
  Options, check_conflicting_options, unset, disabled, get_http_listener,
  get_non_secure_https_listener,
}
use stripe_mock_pi.Options.Conflicts.{allowed, check-allowed}

decode_key : base64_decode "c2tfdGVzdF8xMjM6" ≡ some "sk_test_123:"
unfolding base64_decode
decode_key = refl

decode_padded : base64_decode "c2tfdGVzdF86" ≡ some "sk_test_:"
unfolding base64_decode
decode_padded = refl

decode_one : base64_decode "YQ==" ≡ some "a"
unfolding base64_decode
decode_one = refl

decode_bad : base64_decode "YQ=" ≡ none
unfolding base64_decode
decode_bad = refl

-- The empty secret of a key in the Basic form is accepted, and refused in the Bearer form.
basic_empty_secret :
    (validate_auth "Basic c2tfdGVzdF86" ≡ true) × (validate_auth "Bearer sk_test_" ≡ false)
unfolding validate_auth stripe_mock_pi.Text.split base64_decode
basic_empty_secret = (refl, refl)

abbrev bearer : String → String
bearer name = if name == "Authorization" then "Bearer sk_test_123" else ""

abbrev test_key : String
test_key = "sk_test_123"

key_is_given : test_key ≢ ""
key_is_given = ground (arith, eq_iff test_key "")

parse_key-write_example :
    parse_key ("items" <> write (key_array ∷ key_map "price" ∷ []))
    ≡ key_raw "items" ∷ key_array ∷ key_map "price" ∷ []
unfolding stripe_mock_pi.Text.Utf8.is_valid_from
parse_key-write_example =
    parse_key-write "items" (key_array ∷ key_map "price" ∷ []) refl refl refl refl refl

-- A byte that is none of UTF-8 becomes U+FFFD.
stray_byte-replaced : parse_key "ÿ[]" ≡ key_raw "ï¿½" ∷ key_array ∷ []
unfolding stripe_mock_pi.Text.Utf8.valid_from stripe_mock_pi.Params.in_raw
stray_byte-replaced = refl

abbrev pairs : List (String × String)
pairs = ("items[][price]", "p1") ∷ ("items[][quantity]", "2") ∷ ("items[][price]", "p2") ∷ []

assemble_params-no_panic_example : assemble_params pairs ≢ panics
assemble_params-no_panic_example = assemble_params-no_panic pairs

assemble_params-array_example :
    assemble_params (pairs_of ("expand" <> "[]") ("customer" ∷ "invoice" ∷ []))
    ≡ assembled (holding "expand" ("customer" ∷ "invoice" ∷ []))
unfolding stripe_mock_pi.Text.Utf8.is_valid_from
assemble_params-array_example =
    assemble_params-array "expand" refl refl refl "customer" ("invoice" ∷ [])

abbrev no_port : ℤ
no_port = negsuc 0

-- `-https -port 1234`
abbrev https_and_port : Options
https_and_port = record {
  http = false;
  http_port_default = pos 12111;
  http_addr = "";
  http_port = no_port;
  http_unix_socket = "";
  https = true;
  https_port_default = pos 12112;
  https_addr = "";
  https_port = no_port;
  https_unix_socket = "";
  port = pos 1234;
  unix_socket = "";
}

check-allowed_example :
    (check_conflicting_options https_and_port ≡ none) ↔ (allowed https_and_port ≡ true)
check-allowed_example = check-allowed https_and_port refl

-- Neither listener takes the port.
https_and_port-silent :
    (get_http_listener unset https_and_port ≡ disabled)
    × (get_non_secure_https_listener unset https_and_port ≡ disabled)
unfolding get_http_listener get_non_secure_https_listener
https_and_port-silent = (refl, refl)

-- `-port 1234 -https-addr :12112`, which the message of the check for `-https-addr` forbids.
https_addr_and_port-passes :
    check_conflicting_options (record https_and_port { https = false; https_addr = ":12112" })
    ≡ none
unfolding check_conflicting_options
https_addr_and_port-passes = refl

-- A map that numbers its entries in another order.
abbrev numbered : Object
numbered = object (("1", str "b") ∷ ("0", str "a") ∷ [])

abbrev numbered_slice : Items
numbered_slice = item (str "a") (item (str "b") done)

numbered_is_slice : parse_integer_indexed_map numbered ≡ slice numbered_slice
unfolding parse_integer_indexed_map stripe_mock_pi.Coerce.digits_onto stripe_mock_pi.Coerce.set_at
numbered_is_slice = refl

parse_integer_indexed_map-slice_example :
    (count numbered_slice ≤ max_slice_size + 1) × (nth 1 numbered_slice ≡ value_at 1 numbered nil)
parse_integer_indexed_map-slice_example =
    parse_integer_indexed_map-slice numbered 1 numbered_slice numbered_is_slice

abbrev two_pairs : Values
two_pairs = ("limit", "3") ∷ ("customer", "cus_1") ∷ []

parse_form_string-write_example : parse_form_string (Order.write two_pairs) ≡ some two_pairs
parse_form_string-write_example = parse_form_string-write two_pairs refl

percent_is_decoded : parse_form_string "?a%5B%5D=b+c&d" ≡ some (("a[]", "b c") ∷ ("d", "") ∷ [])
unfolding parse_form_string stripe_mock_pi.Text.trim_prefix
percent_is_decoded = refl

bad_percent_is_refused : parse_form_string "a=%5" ≡ none
unfolding parse_form_string stripe_mock_pi.Text.trim_prefix
bad_percent_is_refused = refl

abbrev raw_expansions : List String
raw_expansions = "data.customer.default_source" ∷ "*" ∷ "data.charge" ∷ "charge" ∷ []

parse_expansion_level-unfolds_example :
    parse_with_fuel raw_expansions ≡ level_by parse_with_fuel raw_expansions
parse_expansion_level-unfolds_example = parse_expansion_level-unfolds raw_expansions

-- A level below a group.
expansions_are_grouped :
    parse_with_fuel ("charge.customer" ∷ "*" ∷ [])
    ≡ level true
        (expansion "charge" (level false (expansion "customer" leaf no_expansions)) no_expansions)
unfolding parse_expansion_level stripe_mock_pi.Text.split stripe_mock_pi.Prelude.insert
    stripe_mock_pi.Expand.put_expansion stripe_mock_pi.Prelude.lookup stripe_mock_pi.Text.join
expansions_are_grouped = refl

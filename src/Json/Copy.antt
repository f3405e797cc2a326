-- ===== src/Json/Copy.antt =====
-- deepCopyMap (server/stateful.go): marshal to JSON and decode again. Numbers come back as
-- `float64`; a float that JSON cannot hold makes it return the map itself.
use Prim.Native.String.{String}
use mathlib.Core.Option
use stripe_mock_pi.Prelude.{
  ◌≡◌, refl, Bool, true, false, ◌&&◌, ◌||◌, ◌==◌, ◌!=◌, eq_iff, ◌∙◌, sym, subst, Option, none, some,
  arith, if◌then◌else◌, Bool-cases, inl, inr,
}
use stripe_mock_pi.Text.{text_le}
use stripe_mock_pi.Text.Utf8.{to_valid, valid_from, is_valid, unmarked, to_valid-eq, to_valid-valid}
use stripe_mock_pi.Float
use stripe_mock_pi.Json.{
  Value, nil, int, float64, str, arr, obj, Items, done, item, Object, end, entry, get, get_string,
  string_of, or_nil,
}

-- Whether `json.Marshal` succeeds.
unfoldable mutual
  pub encodable : Value → Bool
  encodable (float64 b) = Float.is_finite b
  encodable (arr vs) = encodable_items vs
  encodable (obj m) = encodable_object m
  encodable _ = true

  pub encodable_items : Items → Bool
  encodable_items done = true
  encodable_items (item v vs) = encodable v && encodable_items vs

  pub encodable_object : Object → Bool
  encodable_object end = true
  encodable_object (entry k v m) = encodable v && encodable_object m

-- Whether an entry further on, which is written behind this one since its key is larger, is decoded
-- under the same key.
abbrev beaten : (key : String) → Object → Bool
beaten k end = false
beaten k (entry j v m) = to_valid j == to_valid k && (j != k && text_le k j) || beaten k m

abbrev without : (key : String) → Object → Object
without k end = end
without k (entry j v m) = let rest = without k m in if j == k then rest else entry j v rest

-- What decoding an encodable value's JSON gives. Texts and keys become valid UTF-8, and of the
-- entries whose keys become the same, the one that is written last stays.
unfoldable mutual
  pub copy : Value → Value
  copy (int n) = float64 (Float.of_int n)
  copy (str s) = str (to_valid s)
  copy (arr vs) = arr (copy_items vs)
  copy (obj m) = obj (copy_object m)
  copy v = v

  pub copy_items : Items → Items
  copy_items done = done
  copy_items (item v vs) = item (copy v) (copy_items vs)

  pub copy_object : Object → Object
  copy_object end = end
  copy_object (entry k v m) =
      let rest = copy_object m in
      if beaten k m then rest else entry (to_valid k) (copy v) (without (to_valid k) rest)

unfoldable pub deep_copy : Object → Object
deep_copy m = if encodable_object m then copy_object m else m

-- A valid key without the first byte of U+FFFD, which no other key becomes.
abbrev PlainKey : String → Type 0
PlainKey k = (is_valid k ≡ true) × (unmarked k ≡ true)

get-without : (m : Object) (k j : String) → (k == j) ≡ false → get (without k m) j ≡ get m j
unfolding get
get-without end k j h = refl
get-without (entry i v m) k j h = ground (arith, get-without m k j h, eq_iff i k, eq_iff i j)

unbeaten : (k : String) (m : Object) → PlainKey k → beaten k m ≡ false
unbeaten k end h = refl
unbeaten k (entry j v m) h =
    rw (to_valid-valid k h.0)
      (rw (to_valid-eq j k h.0 h.1) (ground (arith, unbeaten k m h, to_valid-valid k h.0)))

pub get-copy_object :
    (m : Object) (k : String) → PlainKey k → get (copy_object m) k ≡ Option.map copy (get m k)
unfolding copy get
get-copy_object end k h = refl
get-copy_object (entry j v m) k h = elim (Bool-cases (j == k)) [
  | inl e ↦
      let plain = subst PlainKey (sym ((eq_iff j k).0 e)) h in
      rw (unbeaten j m plain) (rw (to_valid-eq j k h.0 h.1) (rw e refl))
  | inr e ↦ elim (Bool-cases (beaten j m)) [
    | inl b ↦ rw b (rw e (get-copy_object m k h))
    | inr b ↦ rw b (
        rw (to_valid-eq j k h.0 h.1) (
          rw e (
            get-without (copy_object m) (to_valid j) k (to_valid-eq j k h.0 h.1 ∙ e)
            ∙ get-copy_object m k h)))
  ]
]

string_of-copy : (v : Value) → string_of (copy v) ≡ to_valid (string_of v)
unfolding copy valid_from
string_of-copy nil = refl
string_of-copy _ = refl

string_of-map-copy :
    (o : Option Value) → string_of (or_nil (Option.map copy o)) ≡ to_valid (string_of (or_nil o))
unfolding valid_from
string_of-map-copy none = refl
string_of-map-copy (some v) = string_of-copy v

get_string-copy_object :
    (m : Object) (k : String)
    → PlainKey k
    → get_string (copy_object m) k ≡ to_valid (get_string m k)
unfolding get_string
get_string-copy_object m k h = rw (get-copy_object m k h) (string_of-map-copy (get m k))

-- A copy has the valid texts of the original.
pub get_string-deep_copy :
    (m : Object) (k : String)
    → PlainKey k
    → is_valid (get_string m k) ≡ true
    → get_string (deep_copy m) k ≡ get_string m k
unfolding deep_copy
get_string-deep_copy m k h valid = elim (Bool-cases (encodable_object m)) [
  | inl fine ↦ rw fine (get_string-copy_object m k h ∙ to_valid-valid (get_string m k) valid)
  | inr bad ↦ rw bad
]

-- ===== src/Coerce/Loops.antt =====
-- The loops over maps and slices of the coercion (param/coercer/coercer.go). A map or slice that is
-- coerced is changed in place: `kept` is what the caller's value has become, beside what is returned.
use Prim.Native.String.{String}
use stripe_mock_pi.Prelude.{
  ℕ, Bool, true, false, ◌&&◌, ◌||◌, is_some, Option, none, some, nat_eq, if◌then◌else◌,
}
use stripe_mock_pi.Json.{Value, nil, Items, done, item, Object, end, entry}
use stripe_mock_pi.Coerce.{index_of}

-- The value after the call, what is returned where the coercion succeeds, and the index that is too
-- large where it fails with an error.
pub record Coerced : Type 0 where
  pub kept : Value
  pub result : Option Value
  pub error : Option ℕ

abbrev pub unchanged : Value → Coerced
unchanged v = record { kept = v; result = none; error = none }

-- A loop over the elements of a map or slice: the elements after it, whether each was coerced or is
-- nil, and the error that ended it.
pub record Looped (A : Type 0) : Type 0 where
  pub elements : A
  pub originals : A
  pub all_ok : Bool
  pub error : Option ℕ

abbrev pub is_nil : Value → Bool
is_nil nil = true
is_nil v = false

abbrev pub coerced_or_kept : Option Value → Value → Value
coerced_or_kept none kept = kept
coerced_or_kept (some v) kept = v

-- The rounds behind one that ended without an error.
abbrev pub next_entry : String → Value → Coerced → Object → Looped Object → Looped Object
next_entry key v c rest later = by_error c.error
  where
    by_error : Option ℕ → Looped Object
    by_error (some i) = record {
      elements = entry key c.kept rest;
      originals = entry key c.kept rest;
      all_ok = false;
      error = some i;
    }
    by_error none = record {
      elements = entry key (coerced_or_kept c.result c.kept) later.elements;
      originals = entry key c.kept later.originals;
      all_ok = (is_some c.result || is_nil v) && later.all_ok;
      error = later.error;
    }

abbrev pub next_item : Value → Coerced → Items → Looped Items → Looped Items
next_item v c rest later = by_error c.error
  where
    by_error : Option ℕ → Looped Items
    by_error (some i) = record {
      elements = item c.kept rest;
      originals = item c.kept rest;
      all_ok = false;
      error = some i;
    }
    by_error none = record {
      elements = item (coerced_or_kept c.result c.kept) later.elements;
      originals = item c.kept later.originals;
      all_ok = (is_some c.result || is_nil v) && later.all_ok;
      error = later.error;
    }

-- The loops over a map and over a slice, for the coercion of an element.
unfoldable pub coerce_entries : (Value → Coerced) → Object → Looped Object
coerce_entries call end = record { elements = end; originals = end; all_ok = true; error = none }
coerce_entries call (entry key v rest) = next_entry key v (call v) rest (coerce_entries call rest)

unfoldable pub coerce_items : (Value → Coerced) → Items → Looped Items
coerce_items call done = record { elements = done; originals = done; all_ok = true; error = none }
coerce_items call (item v rest) = next_item v (call v) rest (coerce_items call rest)

-- `vs[i]`, for an index within the slice
abbrev pub item_at : ℕ → Items → Value → Value
item_at i done default = default
item_at Prim.Native.Nat.zero (item v rest) default = v
item_at (Prim.Native.Nat.suc i) (item v rest) default = item_at i rest default

abbrev pub same_index : Option ℕ → Option ℕ → Bool
same_index (some i) (some j) = nat_eq i j
same_index i j = false

abbrev pub index_later : Option ℕ → Object → Bool
index_later i end = false
index_later i (entry key v rest) = same_index i (index_of key) || index_later i rest

abbrev pub or_first : Option ℕ → ℕ
or_first none = 0
or_first (some i) = i

-- The map that a slice was made of: an element that the slice took shows what became of it.
unfoldable pub shared_with : Items → Object → Object
shared_with vs end = end
shared_with vs (entry key v rest) =
    let later = shared_with vs rest in
    if index_later (index_of key) rest
    then entry key v later
    else entry key (item_at (or_first (index_of key)) vs v) later

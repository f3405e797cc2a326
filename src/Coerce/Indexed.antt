-- ===== src/Coerce/Indexed.antt =====
-- The slice that parseIntegerIndexedMap (param/coercer/coercer.go) makes of a map.
use Prim.Native.String.{String}
use stripe_mock_pi.Prelude.{
  ℕ, zero, suc, ◌+◌, ◌≤◌, ◌<◌, ◌≡◌, refl, Bool, true, false, Option, none, some, ◌∙◌, ap, arith,
  ltb, nat_eq, if◌then◌else◌, subst, sym,
}
use stripe_mock_pi.Json.{Value, nil, Items, done, item, Object, end, entry}
use stripe_mock_pi.Coerce.{
  index_of, or_zero, larger, biggest_index, make_slice, set_at, fill_slice, Slicing, too_large,
  slice, sliced, parse_integer_indexed_map, max_slice_size,
}

abbrev pub count : Items → ℕ
count done = 0
count (item value rest) = suc (count rest)

-- `slice[i]`, nil past the end
abbrev pub nth : ℕ → Items → Value
nth i done = nil
nth zero (item value rest) = value
nth (suc i) (item value rest) = nth i rest

-- The value of the last entry whose key stands for the index.
abbrev pub value_at : ℕ → Object → (otherwise : Value) → Value
value_at i end otherwise = otherwise
value_at i (entry key value rest) otherwise =
    value_at i rest (if nat_eq (or_zero (index_of key)) i then value else otherwise)

count-set_at : (i : ℕ) (value : Value) (xs : Items) → count (set_at i value xs) ≡ count xs
unfolding set_at
count-set_at i value done = refl
count-set_at zero value (item old rest) = refl
count-set_at (suc i) value (item old rest) = ap suc (count-set_at i value rest)

count-fill_slice : (m : Object) (xs : Items) → count (fill_slice m xs) ≡ count xs
unfolding fill_slice
count-fill_slice end xs = refl
count-fill_slice (entry key value rest) xs =
    count-fill_slice rest _ ∙ count-set_at (or_zero (index_of key)) value xs

count-make_slice : (n : ℕ) → count (make_slice n) ≡ n
unfolding make_slice
count-make_slice zero = refl
count-make_slice (suc n) = ap suc (count-make_slice n)

nth-make_slice : (i n : ℕ) → nth i (make_slice n) ≡ nil
unfolding make_slice
nth-make_slice i zero = refl
nth-make_slice zero (suc n) = refl
nth-make_slice (suc i) (suc n) = nth-make_slice i n

nth-set_at :
    (j i : ℕ) (value : Value) (xs : Items)
    → j < count xs
    → nth i (set_at j value xs) ≡ (if nat_eq j i then value else nth i xs)
unfolding set_at
nth-set_at j i value done h = absurd (omega arith)
nth-set_at zero zero value (item old rest) h = refl
nth-set_at zero (suc i) value (item old rest) h = ground arith
nth-set_at (suc j) zero value (item old rest) h = ground arith
nth-set_at (suc j) (suc i) value (item old rest) h = ground (arith, nth-set_at j i value rest)

-- Every index of the map is below the bound.
Within : ℕ → Object → Type 0
Within bound end = Unit
Within bound (entry key value rest) = (or_zero (index_of key) < bound) × Within bound rest

nth-fill_slice :
    (m : Object) (i : ℕ) (xs : Items)
    → Within (count xs) m
    → nth i (fill_slice m xs) ≡ value_at i m (nth i xs)
unfolding fill_slice Within
nth-fill_slice end i xs h = refl
nth-fill_slice (entry key value rest) i xs h =
    nth-fill_slice rest i (set_at (or_zero (index_of key)) value xs)
      (subst (λ n. Within n rest) (sym (count-set_at (or_zero (index_of key)) value xs)) h.1)
    ∙ ap (λ v. value_at i rest v) (nth-set_at (or_zero (index_of key)) i value xs h.0)

-- The biggest index is at least each of them.
record Covers (least biggest : ℕ) (m : Object) : Type 0 where
  at_least : least ≤ biggest
  within : Within (biggest + 1) m

larger-left : (a b : ℕ) → a ≤ larger a b
larger-left a b = ground arith

larger-right : (a b : ℕ) → b ≤ larger a b
larger-right a b = ground arith

module _ (least : ℕ) (key : String) (value : Value) (rest : Object) where
  biggest_index-none : index_of key ≡ none → biggest_index least (entry key value rest) ≡ none
  unfolding biggest_index
  biggest_index-none e = rw (e, biggest_index)

  biggest_index-some :
      (i : ℕ)
      → index_of key ≡ some i
      → biggest_index least (entry key value rest) ≡ biggest_index (larger i least) rest
  unfolding biggest_index
  biggest_index-some i e = rw (e, biggest_index)

  Covers-entry :
      {biggest : ℕ} (o : Option ℕ)
      → index_of key ≡ o
      → biggest_index least (entry key value rest) ≡ some biggest
      → ((l : ℕ) → biggest_index l rest ≡ some biggest → Covers l biggest rest)
      → Covers least biggest (entry key value rest)
  unfolding Within
  Covers-entry none e h below = absurd (cc (biggest_index-none e))
  Covers-entry {biggest} (some i) e h below =
      let c = below (larger i least) (sym (biggest_index-some i e) ∙ h) in
      let l = larger-left i least in
      let r = larger-right i least in
      record {
        at_least = omega (arith, c.at_least);
        within =
            (subst (λ o. or_zero o < biggest + 1) (sym e) (omega (arith, c.at_least)), c.within);
      }

biggest_index-Covers :
    (least : ℕ) (m : Object) {biggest : ℕ}
    → biggest_index least m ≡ some biggest
    → Covers least biggest m
unfolding biggest_index Within
biggest_index-Covers least end h = record { at_least = ground arith; within = tt }
biggest_index-Covers least (entry key value rest) h =
    Covers-entry least key value rest (index_of key) refl h (λ l e. biggest_index-Covers l rest e)

items_of : Slicing → Items
items_of (slice xs) = xs
items_of _ = done

if-slice :
    (b : Bool) (index : ℕ) (ys : Items) {xs : Items}
    → (if b then too_large index else slice ys) ≡ slice xs
    → (b ≡ false) × (ys ≡ xs)
unfolding items_of
if-slice true index ys h = cc
if-slice false index ys h = (refl, ap items_of h)

Sliced : ℕ → Object → Items → Type 0
Sliced i m xs = (count xs ≤ max_slice_size + 1) × (nth i xs ≡ value_at i m nil)

sliced-Sliced :
    (m : Object) (i : ℕ) (o : Option ℕ) (xs : Items)
    → biggest_index 0 m ≡ o
    → sliced m o ≡ slice xs
    → Sliced i m xs
unfolding Sliced
sliced-Sliced m i none xs e h = cc
sliced-Sliced m i (some biggest) xs e h =
    let (fits, is) = if-slice (ltb max_slice_size biggest) biggest _ h in
    let c = biggest_index-Covers 0 m e in
    let made = count-make_slice (biggest + 1) in
    let within = subst (λ n. Within n m) (sym made) c.within in
    let counted = count-fill_slice m (make_slice (biggest + 1)) ∙ made in
    (
      subst (λ n. n ≤ max_slice_size + 1) (sym counted ∙ ap count is) (ground arith),
      ap (λ l. nth i l) (sym is)
          ∙ nth-fill_slice m i (make_slice (biggest + 1)) within
          ∙ ap (λ v. value_at i m v) (nth-make_slice i (biggest + 1)),
    )

-- A map that is read as a slice gives one of at most 1001 elements. At each index the slice holds
-- the value of the last entry whose key stands for that index, and nil where no key does.
pub parse_integer_indexed_map-slice :
    (m : Object) (i : ℕ) (xs : Items)
    → parse_integer_indexed_map m ≡ slice xs
    → (count xs ≤ max_slice_size + 1) × (nth i xs ≡ value_at i m nil)
unfolding parse_integer_indexed_map Sliced
parse_integer_indexed_map-slice m i xs h = sliced-Sliced m i (biggest_index 0 m) xs refl h

-- ===== src/Expand.antt =====
-- extractExpansions and parseExpansionLevel (server/server.go).
pub mod Enough
use Prim.Native.String.{String}
use stripe_mock_pi.Prelude.{
  ℕ, zero, suc, Bool, true, false, List, [], ◌∷◌, ◌++◌, Option, none, some, ◌==◌, Dict, lookup,
  insert, if◌then◌else◌,
}
use stripe_mock_pi.Text.{split, join, sort}
use stripe_mock_pi.Json.{Value, str, arr, Items, done, item, Object, get}

mutual
  -- ExpansionLevel
  pub data ExpansionLevel : Type 0 where
    level : (wildcard : Bool) → Expansions → ExpansionLevel

  pub data Expansions : Type 0 where
    no_expansions : Expansions
    expansion : String → ExpansionLevel → Expansions → Expansions

abbrev pub leaf : ExpansionLevel
leaf = level false no_expansions

unfoldable pub find_expansion : Expansions → String → Option ExpansionLevel
find_expansion no_expansions k = none
find_expansion (expansion j sub more) k = if j == k then some sub else find_expansion more k

unfoldable pub put_expansion : Expansions → String → ExpansionLevel → Expansions
put_expansion no_expansions k sub = expansion k sub no_expansions
put_expansion (expansion j old more) k sub =
    if j == k then expansion k sub more else expansion j old (put_expansion more k sub)

-- The variables of the loop over the raw expansions.
pub record Parsed : Type 0 where
  pub wildcard : Bool
  pub expansions : Expansions
  pub groups : Dict (List String)

abbrev pub or_none : Option (List String) → List String
or_none none = []
or_none (some l) = l

-- One round of the loop, on the parts of an expansion.
abbrev pub parse_parts : List String → Parsed → Parsed
parse_parts [] p = p
parse_parts (part ∷ []) p =
    if part == "*"
    then record p { wildcard = true }
    else record p { expansions = put_expansion p.expansions part leaf }
parse_parts (part ∷ next ∷ rest) p = record p {
  groups = insert part (or_none (lookup part p.groups) ++ (join "." (next ∷ rest) ∷ [])) p.groups;
}

unfoldable pub parse_all : List String → Parsed → Parsed
parse_all [] p = p
parse_all (raw ∷ raws) p = parse_all raws (parse_parts (split b'.' raw) p)

abbrev pub start : Parsed
start = record { wildcard = false; expansions = no_expansions; groups = [] }

-- The loop over the groups, with the parser for the level below.
unfoldable pub add_groups :
    (List String → ExpansionLevel) → Dict (List String) → Expansions → Expansions
add_groups parse [] e = e
add_groups parse ((k, subs) ∷ groups) e = add_groups parse groups (put_expansion e k (parse subs))

-- parseExpansionLevel. Each level takes one part off every expansion, so that more fuel than an
-- expansion has dots is enough.
unfoldable pub parse_expansion_level : ℕ → List String → ExpansionLevel
unfolding parse_all add_groups sort
parse_expansion_level zero raw = leaf
parse_expansion_level (suc fuel) raw =
    let p = parse_all (sort raw) start in
    level p.wildcard (add_groups (parse_expansion_level fuel) p.groups p.expansions)

-- The strings of `expand[]`; an element that is no string makes the type assertion panic.
unfoldable pub strings : Items → Option (List String)
strings done = some []
strings (item (str s) vs) = elim (strings vs) [ none ↦ none | some l ↦ some (s ∷ l) ]
strings (item _ vs) = none

-- extractExpansions: no expansions, a level of them, or a panic.
pub data Extracted : Type 0 where
  absent : Extracted
  expansions_of : ExpansionLevel → Extracted
  panic : Extracted

-- How deep the expansions of a text can go: its length.
abbrev pub fuel_for : List String → ℕ
fuel_for [] = 1
fuel_for (s ∷ l) = Prim.Native.Nat.◌+◌ (Prim.Native.String.count s) (fuel_for l)

-- parseExpansionLevel with the fuel that is given to it.
abbrev pub parse_with_fuel : List String → ExpansionLevel
parse_with_fuel raw = parse_expansion_level (fuel_for raw) raw

abbrev parsed : Option (List String) → Extracted
parsed none = panic
parsed (some raw) = expansions_of (parse_with_fuel raw)

abbrev extracted_from : Option Value → Extracted
extracted_from none = absent
extracted_from (some (str s)) = parsed (some (s ∷ []))
extracted_from (some (arr vs)) = parsed (strings vs)
extracted_from (some _) = absent

unfoldable pub extract_expansions : Object → Extracted
unfolding strings parse_expansion_level
extract_expansions params = extracted_from (get params "expand")

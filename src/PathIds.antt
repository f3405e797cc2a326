-- ===== src/PathIds.antt =====
-- The replacement of a fixture's ids by those of the request's path: maybeGeneratePrimaryID,
-- recordAndReplaceIDs and distributeReplacedIDs (server/generator.go). The maps are visited in the
-- order of their entries.
pub mod Absent
pub mod Kept
pub mod Primary
use Prim.Native.String.{String}
use stripe_mock_pi.Prelude.{
  ℕ, zero, suc, Bool, true, false, Option, none, some, List, [], ◌∷◌, ◌++◌, is_some, ◌==◌,
  if◌then◌else◌,
}
use stripe_mock_pi.Text.{◌<>◌, replace_first, before_last}
use stripe_mock_pi.Json.{
  Value, nil, bool, int, float64, str, arr, obj, Items, done, item, Object, end, entry, get, put,
}
use stripe_mock_pi.Server.{PathParams, SecondaryId}
use stripe_mock_pi.Ids.{Entropy, random_id}

abbrev prefix_of : String → Option String → String
prefix_of id none = id
prefix_of id (some front) = front

abbrev no_path_params : PathParams
no_path_params = record { primary_id = none; secondary_ids = []; replaced_primary_id = none }

abbrev or_new : Option PathParams → PathParams
or_new none = no_path_params
or_new (some p) = p

-- The id that is generated for the `id` of the data, if that is a text. 95 is the underscore.
unfoldable pub generate_primary_id :
    Option PathParams → Option Value → Entropy → Option PathParams × Entropy
unfolding before_last random_id
generate_primary_id p (some (str id)) e =
    let (new_id, e') = random_id (prefix_of id (before_last 95 id)) e in
    (some (record (or_new p) { primary_id = some new_id }), e')
generate_primary_id p v e = (p, e)

abbrev has_primary_id : Option PathParams → Bool
has_primary_id none = false
has_primary_id (some p) = is_some p.primary_id

-- maybeGeneratePrimaryID; none where the data is no map, at which it panics.
unfoldable pub maybe_generate_primary_id :
    Option PathParams → Value → Entropy → Option (Option PathParams × Entropy)
unfolding generate_primary_id
maybe_generate_primary_id p (obj m) e =
    some (if has_primary_id p then (p, e) else generate_primary_id p (get m "id") e)
maybe_generate_primary_id p v e = if has_primary_id p then some (p, e) else none

-- appendReplacedID
abbrev pub append_replaced_id : SecondaryId → String → SecondaryId
append_replaced_id s old =
    if old == "" then s else record s { replaced_ids = s.replaced_ids ++ (old ∷ []) }

abbrev pub push {ℓ} : {A B : Type ℓ} → A → Option (List A × B) → Option (List A × B)
push s none = none
push s (some (rest, b)) = some (s ∷ rest, b)

-- The loop over the secondary ids for the first of this name, which takes note of the old id.
unfoldable pub replace_named :
    (name old : String) → List SecondaryId → Option (List SecondaryId × String)
replace_named name old [] = none
replace_named name old (s ∷ rest) =
    let later = push s (replace_named name old rest) in
    if name == s.name then some (append_replaced_id s old ∷ rest, s.id) else later

-- `dataMap[key] = secondaryID.ID`, where one was found.
abbrev pub write_found :
    PathParams → Object → String → Option (List SecondaryId × String) → PathParams × Object
write_found p m key none = (p, m)
write_found p m key (some (ids, new)) = (record p { secondary_ids = ids }, put m key (str new))

abbrev pub by_name : PathParams → Object → (key old : String) → Option String → PathParams × Object
unfolding replace_named
by_name p m key old none = (p, m)
by_name p m key old (some name) = write_found p m key (replace_named name old p.secondary_ids)

abbrev pub text_value : Option Value → Option String
text_value (some (str s)) = some s
text_value v = none

abbrev pub write_primary : PathParams → Object → String → Option String → PathParams × Object
write_primary p m old none = (p, m)
write_primary p m old (some new) =
    (record p { replaced_primary_id = some old }, put m "id" (str new))

-- The branch for an `id` that is a text: the primary id at the top, and below it the secondary id
-- that is named by the object's `object` and then the one named by the parent's key.
abbrev pub replace_id : PathParams → Object → String → Option String → ℕ → PathParams × Object
replace_id p m old parent zero = write_primary p m old p.primary_id
replace_id p m old parent (suc level) =
    let (p', m') = by_name p m "id" old (text_value (get m "object")) in
    by_name p' m' "id" old parent

-- The step for a field that holds a text.
unfoldable pub replace_text :
    PathParams → Object → (key old : String) → Option String → ℕ → PathParams × Object
unfolding by_name
replace_text p m key old parent level =
    if key == "id" then replace_id p m old parent level else by_name p m key old (some key)

abbrev pub of_map : PathParams × Object → PathParams × Value
of_map (p, m) = (p, obj m)

abbrev pub of_items : PathParams × Items → PathParams × Value
of_items (p, vs) = (p, arr vs)

abbrev pub push_item : Value → PathParams × Items → PathParams × Items
push_item v (p, vs) = (p, item v vs)

-- The step for a field: a text is looked at here, and of any other value `below` is what the
-- recursive call makes.
unfoldable pub record_field :
    Value
    → (below : PathParams × Value) → PathParams
    → Object
    → (key : String) → Option String
    → ℕ
    → PathParams × Object
unfolding replace_text
record_field (str old) below p m key parent level = replace_text p m key old parent level
record_field v below p m key parent level = (below.0, put m key below.1)

unfoldable mutual
  unfolding record_field

  -- recordAndReplaceIDsInternal. What the data become is returned; that a map in them may be shared
  -- with the fixtures does not show.
  pub record_and_replace :
      Value → PathParams → (parent : Option String) → (level : ℕ) → PathParams × Value
  record_and_replace (arr vs) p parent level = of_items (record_items vs p (suc level))
  record_and_replace (obj m) p parent level = of_map (record_entries m p m parent level)
  record_and_replace v p parent level = (p, v)

  pub record_items : Items → PathParams → (level : ℕ) → PathParams × Items
  record_items done p level = (p, done)
  record_items (item v vs) p level =
      let (p', v') = record_and_replace v p none level in push_item v' (record_items vs p' level)

  -- The loop over the entries of a map, which changes the map.
  pub record_entries :
      Object → PathParams → Object → (parent : Option String) → (level : ℕ) → PathParams × Object
  record_entries end p m parent level = (p, m)
  record_entries (entry key v rest) p m parent level =
      let below = record_and_replace v p (some key) (suc level) in
      let (p', m') = record_field v below p m key parent level in
      record_entries rest p' m' parent level

-- recordAndReplaceIDs
unfoldable pub record_and_replace_ids : PathParams → Value → PathParams × Value
unfolding record_and_replace
record_and_replace_ids p v = record_and_replace v p none 0

abbrev pub or_else {ℓ} : {A : Type ℓ} → Option A → Option A → Option A
or_else none later = later
or_else (some a) later = some a

unfoldable pub among_replaced : (String → Option String) → List String → Option String
among_replaced f [] = none
among_replaced f (old ∷ olds) = or_else (f old) (among_replaced f olds)

-- The loops over the secondary ids and what each has replaced, for what is done with one.
unfoldable pub first_replaced :
    (SecondaryId → String → Option String) → List SecondaryId → Option String
unfolding among_replaced
first_replaced f [] = none
first_replaced f (s ∷ rest) = or_else (among_replaced (f s) s.replaced_ids) (first_replaced f rest)

abbrev pub for_primary : PathParams → (String → String → Option String) → Option String
for_primary p f = both p.replaced_primary_id p.primary_id
  where
    both : Option String → Option String → Option String
    both (some old) (some new) = f old new
    both old new = none

abbrev pub if_equal : String → String → String → Option String
if_equal s old new = if s == old then some new else none

-- distributeReplacedIDsInValue, on a text
unfoldable pub distribute_in_value : PathParams → String → Option String
unfolding first_replaced
distribute_in_value p s =
    or_else (for_primary p (if_equal s))
      (first_replaced (λ id old. if_equal s old id.id) p.secondary_ids)

abbrev pub in_url : String → String → String → Option String
in_url s old new = replace_first ("/" <> (old <> "/")) ("/" <> (new <> "/")) s

-- distributeReplacedIDsInURL, on a text
unfoldable pub distribute_in_url : PathParams → String → Option String
unfolding first_replaced replace_first
distribute_in_url p s =
    or_else (for_primary p (in_url s))
      (first_replaced (λ id old. in_url s old id.id) p.secondary_ids)

abbrev pub or_kept : String → Option String → Value
or_kept s none = str s
or_kept s (some new) = str new

-- The step for a field that holds a text.
unfoldable pub distribute_text : PathParams → (key : String) → String → Value
unfolding distribute_in_value distribute_in_url
distribute_text p key s =
    or_kept s
      (or_else (distribute_in_value p s) (if key == "url" then distribute_in_url p s else none))

unfoldable mutual
  unfolding distribute_text

  -- distributeReplacedIDs: a text that is not the value of a field is left as it is.
  pub distribute_replaced_ids : PathParams → Value → Value
  distribute_replaced_ids p (arr vs) = arr (distribute_items p vs)
  distribute_replaced_ids p (obj m) = obj (distribute_entries p m)
  distribute_replaced_ids p v = v

  pub distribute_items : PathParams → Items → Items
  distribute_items p done = done
  distribute_items p (item v vs) = item (distribute_replaced_ids p v) (distribute_items p vs)

  pub distribute_entries : PathParams → Object → Object
  distribute_entries p end = end
  distribute_entries p (entry key (str s) rest) =
      entry key (distribute_text p key s) (distribute_entries p rest)
  distribute_entries p (entry key v rest) =
      entry key (distribute_replaced_ids p v) (distribute_entries p rest)

abbrev distributed : PathParams × Value → Value
unfolding distribute_replaced_ids
distributed (p, v) = distribute_replaced_ids p v

-- The two passes of Generate over the data, where there are path parameters.
unfoldable pub replace_ids : Option PathParams → Value → Value
unfolding distribute_replaced_ids record_and_replace_ids
replace_ids none v = v
replace_ids (some p) v = distributed (record_and_replace_ids p v)

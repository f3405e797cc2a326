-- ===== src/PathIds/Kept.antt =====
-- What the recording of ids (server/generator.go) below the top of a response keeps of the path's
-- parameters.
use Prim.Native.String.{String}
use stripe_mock_pi.Prelude.{
  ℕ, suc, ◌≡◌, refl, ◌∙◌, ap, false, Option, none, some, List, [], ◌∷◌, ◌==◌, if_elim,
}
use stripe_mock_pi.Json.{
  Value, nil, bool, int, float64, str, arr, obj, Items, done, item, Object, end, entry, get,
}
use stripe_mock_pi.Json.Laws.{get-put}
use stripe_mock_pi.Server.{PathParams, SecondaryId}
use stripe_mock_pi.PathIds.{
  push, replace_named, write_found, by_name, text_value, replace_text, record_field,
  record_and_replace, record_items, record_entries,
}

abbrev pub ids_of : List SecondaryId → List String
ids_of [] = []
ids_of (s ∷ rest) = s.id ∷ ids_of rest

-- What recording leaves of the path's parameters, the notes on replaced ids aside.
abbrev pub Kept : PathParams → PathParams → Type 0
Kept p p' =
    (p'.primary_id ≡ p.primary_id)
    × (p'.replaced_primary_id ≡ p.replaced_primary_id)
    × (ids_of p'.secondary_ids ≡ ids_of p.secondary_ids)

pub Kept-trans : (p q r : PathParams) → Kept p q → Kept q r → Kept p r
Kept-trans p q r h k = (k.0 ∙ h.0, k.1 ∙ h.1, k.2 ∙ h.2)

SameIds : List SecondaryId → Option (List SecondaryId × String) → Type 0
SameIds ids none = Unit
SameIds ids (some (ids', new)) = ids_of ids' ≡ ids_of ids

SameIds-replace_named :
    (name old : String) (ids : List SecondaryId) → SameIds ids (replace_named name old ids)
unfolding SameIds replace_named
SameIds-replace_named name old [] = tt
SameIds-replace_named name old (s ∷ rest) =
    if_elim (SameIds (s ∷ rest)) (name == s.name)
      (if_elim (λ x. ids_of (x ∷ rest) ≡ ids_of (s ∷ rest)) (old == "") refl refl)
      (later (replace_named name old rest) (SameIds-replace_named name old rest))
  where
    later :
        (o : Option (List SecondaryId × String)) → SameIds rest o → SameIds (s ∷ rest) (push s o)
    later none h = tt
    later (some (ids, new)) h = ap (λ l. s.id ∷ l) h

Kept-write_found :
    (p : PathParams) (m : Object) (key : String) (o : Option (List SecondaryId × String))
    → SameIds p.secondary_ids o
    → Kept p (write_found p m key o).0
unfolding SameIds
Kept-write_found p m key none h = (refl, refl, refl)
Kept-write_found p m key (some (ids, new)) h = (refl, refl, h)

pub Kept-by_name :
    (p : PathParams) (m : Object) (key old : String) (name : Option String)
    → Kept p (by_name p m key old name).0
unfolding replace_named
Kept-by_name p m key old none = (refl, refl, refl)
Kept-by_name p m key old (some name) =
    Kept-write_found p m key (replace_named name old p.secondary_ids)
      (SameIds-replace_named name old p.secondary_ids)

Kept-replace_text :
    (p : PathParams) (m : Object) (key old : String) (parent : Option String) (level : ℕ)
    → Kept p (replace_text p m key old parent (suc level)).0
unfolding replace_text
Kept-replace_text p m key old parent level =
    let named = by_name p m "id" old (text_value (get m "object")) in
    if_elim (λ (r : PathParams × Object). Kept p r.0) (key == "id")
      (Kept-trans p named.0 (by_name named.0 named.1 "id" old parent).0
        (Kept-by_name p m "id" old (text_value (get m "object")))
        (Kept-by_name named.0 named.1 "id" old parent))
      (Kept-by_name p m key old (some key))

Kept-record_field :
    (v : Value) (below : PathParams × Value) (p : PathParams) (m : Object) (key : String)
    (parent : Option String) (level : ℕ)
    → Kept p below.0
    → Kept p (record_field v below p m key parent (suc level)).0
unfolding record_field
Kept-record_field (str old) below p m key parent level h =
    Kept-replace_text p m key old parent level
Kept-record_field nil below p m key parent level h = h
Kept-record_field (bool b) below p m key parent level h = h
Kept-record_field (int i) below p m key parent level h = h
Kept-record_field (float64 bits) below p m key parent level h = h
Kept-record_field (arr vs) below p m key parent level h = h
Kept-record_field (obj n) below p m key parent level h = h

get-write_found :
    (p : PathParams) (m : Object) (key : String) (o : Option (List SecondaryId × String))
    → (key == "id") ≡ false
    → get (write_found p m key o).1 "id" ≡ get m "id"
get-write_found p m key none e = refl
get-write_found p m key (some (ids, new)) e = get-put m key "id" (str new) ∙ rw e refl

pub get-by_name :
    (p : PathParams) (m : Object) (key old : String) (name : Option String)
    → (key == "id") ≡ false
    → get (by_name p m key old name).1 "id" ≡ get m "id"
unfolding replace_named
get-by_name p m key old none e = refl
get-by_name p m key old (some name) e =
    get-write_found p m key (replace_named name old p.secondary_ids) e

mutual
  unfolding record_and_replace

  pub Kept-value :
      (v : Value) (p : PathParams) (parent : Option String) (level : ℕ)
      → Kept p (record_and_replace v p parent (suc level)).0
  Kept-value nil p parent level = (refl, refl, refl)
  Kept-value (bool b) p parent level = (refl, refl, refl)
  Kept-value (int i) p parent level = (refl, refl, refl)
  Kept-value (float64 bits) p parent level = (refl, refl, refl)
  Kept-value (str s) p parent level = (refl, refl, refl)
  Kept-value (arr vs) p parent level = Kept-items vs p (suc level)
  Kept-value (obj m) p parent level = Kept-entries m p m parent level

  Kept-items : (vs : Items) (p : PathParams) (level : ℕ) → Kept p (record_items vs p (suc level)).0
  Kept-items done p level = (refl, refl, refl)
  Kept-items (item v vs) p level =
      let first = record_and_replace v p none (suc level) in
      Kept-trans p first.0 (record_items vs first.0 (suc level)).0 (Kept-value v p none level)
        (Kept-items vs first.0 level)

  Kept-entries :
      (entries : Object) (p : PathParams) (m : Object) (parent : Option String) (level : ℕ)
      → Kept p (record_entries entries p m parent (suc level)).0
  Kept-entries end p m parent level = (refl, refl, refl)
  Kept-entries (entry key v rest) p m parent level =
      let below = record_and_replace v p (some key) (suc (suc level)) in
      let first = record_field v below p m key parent (suc level) in
      Kept-trans p first.0 (record_entries rest first.0 first.1 parent (suc level)).0
        (Kept-record_field v below p m key parent level (Kept-value v p (some key) (suc level)))
        (Kept-entries rest first.0 first.1 parent level)

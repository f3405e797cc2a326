-- ===== src/PathIds/Primary.antt =====
-- What recordAndReplaceIDs (server/generator.go) makes of the id at the top of a response and of the
-- path's parameters.
use Prim.Native.String.{String}
use stripe_mock_pi.Prelude.{
  ◌≡◌, refl, sym, ◌∙◌, ap, subst, true, false, none, some, List, [], ◌∷◌, All, arith, ◌==◌, eq_iff,
  if_cases, inl, inr,
}
use stripe_mock_pi.Text.Split.{without}
use stripe_mock_pi.Json.{
  Value, nil, bool, int, float64, str, arr, obj, Object, end, entry, get, put, or_nil,
}
use stripe_mock_pi.Json.Laws.{get-put, Distinct}
use stripe_mock_pi.Server.{PathParams, SecondaryId}
use stripe_mock_pi.PathIds.{
  replace_text, record_field, record_and_replace, record_entries, record_and_replace_ids,
  replace_ids,
}
use stripe_mock_pi.PathIds.Absent.{Absent, distribute_replaced_ids-Absent}
use stripe_mock_pi.PathIds.Kept.{ids_of, Kept, Kept-trans, Kept-by_name, get-by_name, Kept-value}

-- A field that is not the id, at the top.
record_field-other :
    (v : Value) (below : PathParams × Value) (p : PathParams) (m : Object) (key : String)
    → (key == "id") ≡ false
    → Kept p below.0
    → Kept p (record_field v below p m key none 0).0
      × (get (record_field v below p m key none 0).1 "id" ≡ get m "id")
unfolding record_field replace_text
record_field-other (str old) below p m key e h =
    rw e (Kept-by_name p m key old (some key), get-by_name p m key old (some key) e)
record_field-other nil below p m key e h = (h, get-put m key "id" below.1 ∙ rw e refl)
record_field-other (bool b) below p m key e h = (h, get-put m key "id" below.1 ∙ rw e refl)
record_field-other (int i) below p m key e h = (h, get-put m key "id" below.1 ∙ rw e refl)
record_field-other (float64 bits) below p m key e h = (h, get-put m key "id" below.1 ∙ rw e refl)
record_field-other (arr vs) below p m key e h = (h, get-put m key "id" below.1 ∙ rw e refl)
record_field-other (obj n) below p m key e h = (h, get-put m key "id" below.1 ∙ rw e refl)

-- Entries without an id.
record_entries-none :
    (entries : Object) (p : PathParams) (m : Object)
    → get entries "id" ≡ none
    → Kept p (record_entries entries p m none 0).0
      × (get (record_entries entries p m none 0).1 "id" ≡ get m "id")
unfolding record_and_replace get
record_entries-none end p m h = ((refl, refl, refl), refl)
record_entries-none (entry key v rest) p m h = elim (if_cases (key == "id") h) [
  | inl e ↦ ground (arith, e.1)
  | inr e ↦
      let below = record_and_replace v p (some key) 1 in
      let first = record_field v below p m key none 0 in
      let here = record_field-other v below p m key e.0 (Kept-value v p (some key) 0) in
      let later = record_entries-none rest first.0 first.1 e.1 in
      (
        Kept-trans p first.0 (record_entries rest first.0 first.1 none 0).0 here.0 later.0,
        later.1 ∙ here.1,
      )
]

-- What the entries of a map with an id make of the path's parameters and of the id.
abbrev Primary : String → String → PathParams → PathParams × Object → Type 0
Primary old new p r =
    (r.0.primary_id ≡ some new)
    × (r.0.replaced_primary_id ≡ some old)
    × (ids_of r.0.secondary_ids ≡ ids_of p.secondary_ids)
    × (get r.1 "id" ≡ some (str new))

abbrev with_primary : PathParams → Object → (old new : String) → PathParams × Object
with_primary p m old new = (record p { replaced_primary_id = some old }, put m "id" (str new))

record_field-id :
    (below : PathParams × Value) (p : PathParams) (m : Object) (key old new : String)
    → (key == "id") ≡ true
    → p.primary_id ≡ some new
    → record_field (str old) below p m key none 0 ≡ with_primary p m old new
unfolding record_field replace_text
record_field-id below p m key old new e q = rw e (rw q refl)

Primary-record_entries :
    (entries : Object) (p : PathParams) (m : Object) (old new : String)
    → Distinct entries
    → p.primary_id ≡ some new
    → get entries "id" ≡ some (str old)
    → Primary old new p (record_entries entries p m none 0)
unfolding record_and_replace get
Primary-record_entries end p m old new d q h = ground (arith, h)
Primary-record_entries (entry key v rest) p m old new d q h = elim (if_cases (key == "id") h) [
  | inl e ↦
      let below = record_and_replace v p (some key) 1 in
      let written = with_primary p m old new in
      let field =
        ap (λ x. record_field x below p m key none 0) (ap or_nil e.1)
        ∙ record_field-id below p m key old new e.0 q in
      let absent = ap (get rest) (sym ((eq_iff key "id").0 e.0)) ∙ d.0 in
      let later = record_entries-none rest written.0 written.1 absent in
      subst (λ r. Primary old new p (record_entries rest r.0 r.1 none 0)) (sym field)
        (later.0.0 ∙ q, later.0.1, later.0.2, later.1 ∙ get-put m "id" "id" (str new))
  | inr e ↦
      let below = record_and_replace v p (some key) 1 in
      let first = record_field v below p m key none 0 in
      let here = record_field-other v below p m key e.0 (Kept-value v p (some key) 0) in
      let later = Primary-record_entries rest first.0 first.1 old new d.1 (here.0.0 ∙ q) e.1 in
      (later.0, later.1, later.2 ∙ here.0.2, later.3)
]

-- For data that is a map with each key once and a text under `id`, recording notes that text as the
-- one that the path's primary id replaces, writes the primary id under `id`, and changes neither the
-- primary id nor the ids of the other parts of the path, however deep the data nests.
pub record_and_replace_ids-Primary :
    (p : PathParams) (m : Object) (old new : String)
    → Distinct m
    → p.primary_id ≡ some new
    → get m "id" ≡ some (str old)
    → (r : PathParams × Object) × (record_and_replace_ids p (obj m) ≡ (r.0, obj r.1))
      × Primary old new p r
unfolding record_and_replace_ids record_and_replace
record_and_replace_ids-Primary p m old new d q h =
    (record_entries m p m none 0, refl, Primary-record_entries m p m old new d q h)

All-ids :
    (old : String) (ss ts : List SecondaryId)
    → ids_of ts ≡ ids_of ss
    → All (λ s. (s.id == old) ≡ false) ss
    → All (λ s. (s.id == old) ≡ false) ts
All-ids old ss ts e h = of_ids ts (subst (All (λ id. (id == old) ≡ false)) (sym e) (to_ids ss h))
  where
    to_ids :
        (ids : List SecondaryId)
        → All (λ s. (s.id == old) ≡ false) ids
        → All (λ id. (id == old) ≡ false) (ids_of ids)
    to_ids [] k = tt
    to_ids (s ∷ rest) k = (k.0, to_ids rest k.1)

    of_ids :
        (ids : List SecondaryId)
        → All (λ id. (id == old) ≡ false) (ids_of ids)
        → All (λ s. (s.id == old) ≡ false) ids
    of_ids [] k = tt
    of_ids (s ∷ rest) k = (k.0, of_ids rest k.1)

-- For data that is a map with each key once whose `id` is a text without a slash, and a path whose
-- primary id and other ids differ from that text, the two passes of Generate leave no field, at any
-- depth, that holds the fixture's id.
pub replace_ids-Absent :
    (p : PathParams) (m : Object) (old new : String)
    → Distinct m
    → p.primary_id ≡ some new
    → get m "id" ≡ some (str old)
    → (new == old) ≡ false
    → All (λ s. (s.id == old) ≡ false) p.secondary_ids
    → without 47 old ≡ true
    → Absent old (replace_ids (some p) (obj m))
unfolding replace_ids record_and_replace_ids record_and_replace
replace_ids-Absent p m old new d q h fresh others plain =
    let r = record_entries m p m none 0 in
    let recorded = Primary-record_entries m p m old new d q h in
    distribute_replaced_ids-Absent r.0 old new recorded.1 recorded.0 fresh
      (All-ids old p.secondary_ids r.0.secondary_ids recorded.2 others) plain (obj r.1)

-- ===== src/PathIds/Absent.antt =====
-- Which texts distributeReplacedIDs (server/generator.go) leaves in the fields of a response.
use Prim.Native.Char.{code}
use Prim.Native.String.{String, [], ◌∷◌}
use text.Mathlib.TextLemmas.{cons-append}
use stripe_mock_pi.Prelude.{
  ◌≡◌, refl, sym, ◌∙◌, ap, true, false, Option, none, some, List, arith, All, nat_eq, ◌==◌,
  if◌then◌else◌, if_elim, eq_iff, Bool-cases, inl, inr,
}
use stripe_mock_pi.Text.{◌<>◌, replace_first, strip_prefix, by_prefix, and_more}
use stripe_mock_pi.Text.Split.{without}
use stripe_mock_pi.Json.{
  Value, nil, bool, int, float64, str, arr, obj, Items, done, item, Object, end, entry,
}
use stripe_mock_pi.Server.{PathParams, SecondaryId}
use stripe_mock_pi.PathIds.{
  or_else, among_replaced, first_replaced, if_equal, distribute_in_value, in_url, distribute_in_url,
  or_kept, distribute_text, distribute_replaced_ids, distribute_items, distribute_entries,
}

-- That no field, at any depth, holds this text.
mutual
  pub Absent : String → Value → Type 0
  Absent old (arr vs) = AbsentItems old vs
  Absent old (obj m) = AbsentEntries old m
  Absent old v = Unit

  pub AbsentItems : String → Items → Type 0
  AbsentItems old done = Unit
  AbsentItems old (item v vs) = Absent old v × AbsentItems old vs

  pub AbsentEntries : String → Object → Type 0
  AbsentEntries old end = Unit
  AbsentEntries old (entry key (str s) rest) = ((s == old) ≡ false) × AbsentEntries old rest
  AbsentEntries old (entry key v rest) = Absent old v × AbsentEntries old rest

abbrev IfSome : (String → Type 0) → Option String → Type 0
IfSome P none = Unit
IfSome P (some s) = P s

IfSome-or_else :
    (P : String → Type 0) (first later : Option String)
    → IfSome P first
    → IfSome P later
    → IfSome P (or_else first later)
IfSome-or_else P none later p q = q
IfSome-or_else P (some s) later p q = p

IfSome-among_replaced :
    (P : String → Type 0) (f : String → Option String) (olds : List String)
    → ((old : String) → IfSome P (f old))
    → IfSome P (among_replaced f olds)
unfolding among_replaced
IfSome-among_replaced P f List.[] h = tt
IfSome-among_replaced P f (List.◌∷◌ old olds) h =
    IfSome-or_else P (f old) (among_replaced f olds) (h old) (IfSome-among_replaced P f olds h)

IfSome-first_replaced :
    (P : String → Type 0) (f : SecondaryId → String → Option String) (ids : List SecondaryId)
    → All (λ s. (old : String) → IfSome P (f s old)) ids
    → IfSome P (first_replaced f ids)
unfolding first_replaced
IfSome-first_replaced P f List.[] h = tt
IfSome-first_replaced P f (List.◌∷◌ s rest) h =
    IfSome-or_else P (among_replaced (f s) s.replaced_ids) (first_replaced f rest)
      (IfSome-among_replaced P (f s) s.replaced_ids h.0) (IfSome-first_replaced P f rest h.1)

-- A text with a slash.
abbrev Slashed : String → Type 0
Slashed s = without 47 s ≡ false

Slashed-append : (s t : String) → Slashed s → Slashed (s <> t)
Slashed-append [] t h = ground arith
Slashed-append (c ∷ s) t h = rw cons-append (elim (Bool-cases (nat_eq (code c) 47)) [
  | inl e ↦ rw e refl
  | inr e ↦ rw e (Slashed-append s t (ground arith))
])

Slashed-replace_first :
    (search by s : String) → Slashed by → IfSome Slashed (replace_first search by s)
unfolding replace_first
Slashed-replace_first search by [] h = tt
Slashed-replace_first search by (c ∷ s) h =
    here (strip_prefix search (c ∷ s)) (Slashed-replace_first search by s h)
  where
    more : (o : Option String) → IfSome Slashed o → IfSome Slashed (and_more c o)
    more none p = tt
    more (some t) p = ground arith

    here :
        (o : Option String)
        → IfSome Slashed (replace_first search by s)
        → IfSome Slashed (by_prefix by o (and_more c (replace_first search by s)))
    here none p = more (replace_first search by s) p
    here (some rest) p = Slashed-append by rest h

module _ (p : PathParams) (old new : String) (replaced : p.replaced_primary_id ≡ some old)
    (primary : p.primary_id ≡ some new) (fresh : (new == old) ≡ false)
    (others : All (λ s. (s.id == old) ≡ false) p.secondary_ids)
    (plain : without 47 old ≡ true) where
  abbrev Other : String → Type 0
  Other s = (s == old) ≡ false

  Other-Slashed : (s : String) → Slashed s → Other s
  Other-Slashed s h = elim (Bool-cases (s == old)) [
    | inl e ↦ ground (arith, ap (without 47) ((eq_iff s old).0 e))
    | inr e ↦ e
  ]

  Other-url : (o : Option String) → IfSome Slashed o → IfSome Other o
  Other-url none h = tt
  Other-url (some s) h = Other-Slashed s h

  IfSome-if_equal : (s old' id : String) → Other id → IfSome Other (if_equal s old' id)
  IfSome-if_equal s old' id h = if_elim (IfSome Other) (s == old') h tt

  distribute_in_value-IfSome : (s : String) → IfSome Other (distribute_in_value p s)
  unfolding distribute_in_value
  distribute_in_value-IfSome s =
      rw (replaced, primary)
        (IfSome-or_else Other (if_equal s old new)
          (first_replaced (λ id old'. if_equal s old' id.id) p.secondary_ids)
          (IfSome-if_equal s old new fresh)
          (IfSome-first_replaced Other (λ id old'. if_equal s old' id.id) p.secondary_ids
            (each p.secondary_ids others)))
    where
      each :
          (ids : List SecondaryId)
          → All (λ id. (id.id == old) ≡ false) ids
          → All (λ id. (old' : String) → IfSome Other (if_equal s old' id.id)) ids
      each List.[] h = tt
      each (List.◌∷◌ id rest) h = (λ old'. IfSome-if_equal s old' id.id h.0, each rest h.1)

  distribute_in_url-IfSome : (s : String) → IfSome Other (distribute_in_url p s)
  unfolding distribute_in_url
  distribute_in_url-IfSome s =
      rw (replaced, primary)
        (IfSome-or_else Other (in_url s old new)
          (first_replaced (λ id old'. in_url s old' id.id) p.secondary_ids) (written old new)
          (IfSome-first_replaced Other (λ id old'. in_url s old' id.id) p.secondary_ids
            (each p.secondary_ids)))
    where
      written : (old' id : String) → IfSome Other (in_url s old' id)
      written old' id = Other-url (in_url s old' id) (
          Slashed-replace_first ("/" <> (old' <> "/")) ("/" <> (id <> "/")) s (rw cons-append refl))

      each :
          (ids : List SecondaryId)
          → All (λ id. (old' : String) → IfSome Other (in_url s old' id.id)) ids
      each List.[] = tt
      each (List.◌∷◌ id rest) = (λ old'. written old' id.id, each rest)

  AbsentEntries-kept :
      (key s : String) (o : Option String) (rest : Object)
      → IfSome Other o
      → (o ≡ none → Other s)
      → AbsentEntries old rest
      → AbsentEntries old (entry key (or_kept s o) rest)
  unfolding Absent
  AbsentEntries-kept key s none rest h kept below = (kept refl, below)
  AbsentEntries-kept key s (some t) rest h kept below = (h, below)

  distribute_in_value-old : (s : String) → (s == old) ≡ true → distribute_in_value p s ≡ some new
  unfolding distribute_in_value
  distribute_in_value-old s e = rw (replaced, primary) (rw e refl)

  AbsentEntries-text :
      (key s : String) (rest : Object)
      → AbsentEntries old rest
      → AbsentEntries old (entry key (distribute_text p key s) rest)
  unfolding distribute_text
  AbsentEntries-text key s rest below =
      let later = if key == "url" then distribute_in_url p s else none in
      AbsentEntries-kept key s (or_else (distribute_in_value p s) later) rest
        (IfSome-or_else Other (distribute_in_value p s) later (distribute_in_value-IfSome s)
          (if_elim (IfSome Other) (key == "url") (distribute_in_url-IfSome s) tt))
        (kept later) below
    where
      kept : (later : Option String) → or_else (distribute_in_value p s) later ≡ none → Other s
      kept later h = elim (Bool-cases (s == old)) [
        | inl e ↦ ground (arith, ap (λ o. or_else o later) (sym (distribute_in_value-old s e)) ∙ h)
        | inr e ↦ e
      ]

  mutual
    unfolding Absent distribute_replaced_ids

    Absent-value : (v : Value) → Absent old (distribute_replaced_ids p v)
    Absent-value nil = tt
    Absent-value (bool b) = tt
    Absent-value (int i) = tt
    Absent-value (float64 bits) = tt
    Absent-value (str s) = tt
    Absent-value (arr vs) = Absent-items vs
    Absent-value (obj m) = Absent-entries m

    Absent-items : (vs : Items) → AbsentItems old (distribute_items p vs)
    Absent-items done = tt
    Absent-items (item v vs) = (Absent-value v, Absent-items vs)

    Absent-entries : (m : Object) → AbsentEntries old (distribute_entries p m)
    Absent-entries end = tt
    Absent-entries (entry key nil rest) = (tt, Absent-entries rest)
    Absent-entries (entry key (bool b) rest) = (tt, Absent-entries rest)
    Absent-entries (entry key (int i) rest) = (tt, Absent-entries rest)
    Absent-entries (entry key (float64 bits) rest) = (tt, Absent-entries rest)
    Absent-entries (entry key (str s) rest) =
        AbsentEntries-text key s (distribute_entries p rest) (Absent-entries rest)
    Absent-entries (entry key (arr vs) rest) = (Absent-items vs, Absent-entries rest)
    Absent-entries (entry key (obj m) rest) = (Absent-entries m, Absent-entries rest)

  -- Where the primary id has replaced an id that has no slash, and neither it nor an id of another
  -- part of the path is that id, distributing the ids leaves no field of the data, at any depth,
  -- that holds the replaced id.
  pub distribute_replaced_ids-Absent : (v : Value) → Absent old (distribute_replaced_ids p v)
  distribute_replaced_ids-Absent v = Absent-value v

-- ===== src/Replace/Fits.antt =====
-- The values that the schemas of DataReplacer's isSameType (generator/datareplacer/datareplacer.go)
-- describe, as a relation.
use Prim.Native.String.{String}
use stripe_mock_pi.Prelude.{
  ℕ, zero, suc, ◌≡◌, refl, ◌∙◌, ap, Bool, true, false, ◌||◌, Option, none, some, Dict, arith, ◌==◌,
  if◌then◌else◌, eq_iff, ◌⊎◌, inl, inr, if_cases,
}
use stripe_mock_pi.Prelude.Int.{ℤ}
use stripe_mock_pi.Json.{Value, nil, bool, int, float64, str, arr, obj, Items, done, item}
use stripe_mock_pi.Schema.{
  Schema, Pointer, to, Schemas, no_schemas, schema, any_of, items_of, type_of, type_array,
  type_boolean, type_integer, type_number, type_object, type_string,
}
use stripe_mock_pi.Replace.{
  Outcome, returns, bind, Kind, kind_of, maybe_dereference, any_same_type, array_same_type,
  same_type_of, plain_same_type, has_branches, is_bool_kind, is_string_kind, is_integer_kind,
  is_float_kind, of_kind, schema_same_type,
}
use stripe_mock_pi.Replace.Outcomes.{bind-returns, returns-injective}

-- A schema of a slice.
abbrev BranchOf : Schema → Schemas → Type 0
BranchOf s no_schemas = ⊥
BranchOf s (schema first rest) = (first ≡ s) ⊎ BranchOf s rest

-- That a value is one that a schema describes, as far as a form can tell: of an array, the first
-- element.
pub data Fits (definitions : Dict Schema) : Schema → Value → Type 0 where
  branch :
      {s : Schema} {v : Value} (b d : Schema)
      → BranchOf b (any_of s)
      → maybe_dereference definitions b ≡ returns d
      → Fits definitions d v
      → Fits definitions s v
  empty_array : {s : Schema} → type_of s ≡ type_array → Fits definitions s (arr done)
  free_array :
      {s : Schema} (vs : Items)
      → type_of s ≡ type_array
      → items_of s ≡ Pointer.nil
      → Fits definitions s (arr vs)
  array :
      {s : Schema} (first : Value) (rest : Items) (i d : Schema)
      → type_of s ≡ type_array
      → items_of s ≡ to i
      → maybe_dereference definitions i ≡ returns d
      → Fits definitions d first
      → Fits definitions s (arr (item first rest))
  boolean : {s : Schema} (b : Bool) → type_of s ≡ type_boolean → Fits definitions s (bool b)
  integer : {s : Schema} (i : ℤ) → type_of s ≡ type_integer → Fits definitions s (int i)
  whole_number : {s : Schema} (i : ℤ) → type_of s ≡ type_number → Fits definitions s (int i)
  number : {s : Schema} (bits : ℕ) → type_of s ≡ type_number → Fits definitions s (float64 bits)
  string : {s : Schema} (t : String) → type_of s ≡ type_string → Fits definitions s (str t)

abbrev kind_test : (Kind → Bool) → Option Kind → Bool
kind_test test none = false
kind_test test (some kind) = test kind

abbrev is_number_kind : Kind → Bool
unfolding is_integer_kind
is_number_kind kind = is_integer_kind kind || is_float_kind kind

refused : returns false ≡ returns true → ⊥
refused h = ground arith

module _ (definitions : Dict Schema) where
  Fits-any :
      (same : Schema → Outcome Bool) (branches : Schemas)
      → any_same_type definitions same branches ≡ returns true
      → (b : Schema) × (d : Schema) × BranchOf b branches
        × (maybe_dereference definitions b ≡ returns d)
        × (same d ≡ returns true)
  unfolding any_same_type
  Fits-any same no_schemas h = ground arith
  Fits-any same (schema first rest) h =
      let found =
        bind-returns (maybe_dereference definitions first)
          (λ s.
            bind (same s)
              (λ fits. if fits then returns true else any_same_type definitions same rest))
          true h in
      let tested =
        bind-returns (same found.0)
          (λ fits. if fits then returns true else any_same_type definitions same rest) true
          found.1.1 in
      elim (if_cases tested.0 tested.1.1) [
        | inl p ↦ (first, found.0, inl refl, found.1.0, tested.1.0 ∙ ap returns p.0)
        | inr p ↦
            let below = Fits-any same rest p.1 in (below.0, below.1, inr below.2, below.3, below.4)
      ]

  Fits-boolean :
      (s : Schema) (v : Value)
      → kind_test is_bool_kind (kind_of v) ≡ true
      → type_of s ≡ type_boolean
      → Fits definitions s v
  unfolding is_integer_kind
  Fits-boolean s nil h t = ground arith
  Fits-boolean s (bool b) h t = boolean b t
  Fits-boolean s (int i) h t = ground arith
  Fits-boolean s (float64 bits) h t = ground arith
  Fits-boolean s (str text) h t = ground arith
  Fits-boolean s (arr vs) h t = ground arith
  Fits-boolean s (obj m) h t = ground arith

  Fits-integer :
      (s : Schema) (v : Value)
      → kind_test is_integer_kind (kind_of v) ≡ true
      → type_of s ≡ type_integer
      → Fits definitions s v
  unfolding is_integer_kind
  Fits-integer s nil h t = ground arith
  Fits-integer s (bool b) h t = ground arith
  Fits-integer s (int i) h t = integer i t
  Fits-integer s (float64 bits) h t = ground arith
  Fits-integer s (str text) h t = ground arith
  Fits-integer s (arr vs) h t = ground arith
  Fits-integer s (obj m) h t = ground arith

  Fits-number :
      (s : Schema) (v : Value)
      → kind_test is_number_kind (kind_of v) ≡ true
      → type_of s ≡ type_number
      → Fits definitions s v
  unfolding is_integer_kind
  Fits-number s nil h t = ground arith
  Fits-number s (bool b) h t = ground arith
  Fits-number s (int i) h t = whole_number i t
  Fits-number s (float64 bits) h t = number bits t
  Fits-number s (str text) h t = ground arith
  Fits-number s (arr vs) h t = ground arith
  Fits-number s (obj m) h t = ground arith

  Fits-string :
      (s : Schema) (v : Value)
      → kind_test is_string_kind (kind_of v) ≡ true
      → type_of s ≡ type_string
      → Fits definitions s v
  unfolding is_integer_kind
  Fits-string s nil h t = ground arith
  Fits-string s (bool b) h t = ground arith
  Fits-string s (int i) h t = ground arith
  Fits-string s (float64 bits) h t = ground arith
  Fits-string s (str text) h t = string text t
  Fits-string s (arr vs) h t = ground arith
  Fits-string s (obj m) h t = ground arith

  tested :
      (test : Kind → Bool) {kind : Kind} (v : Value)
      → kind_of v ≡ some kind
      → returns (test kind) ≡ returns true
      → kind_test test (kind_of v) ≡ true
  tested test {kind = kind} v k h = ap (kind_test test) k ∙ returns-injective (test kind) true h

  named : (s : Schema) (name : String) → (type_of s == name) ≡ true → type_of s ≡ name
  named s name h = (eq_iff (type_of s) name).0 h

  module _ (same : Schema → Value → Outcome Bool)
      (sound : (s : Schema) (v : Value) → same s v ≡ returns true → Fits definitions s v) where
    Fits-array :
        (s : Schema) (pointer : Pointer) (v : Value)
        → type_of s ≡ type_array
        → items_of s ≡ pointer
        → array_same_type definitions same pointer v ≡ returns true
        → Fits definitions s v
    Fits-array s pointer (arr done) t e h = empty_array t
    Fits-array s Pointer.nil (arr (item first rest)) t e h = free_array (item first rest) t e
    Fits-array s (to i) (arr (item first rest)) t e h =
        let found = bind-returns (maybe_dereference definitions i) (λ d. same d first) true h in
        array first rest i found.0 t e found.1.0 (sound found.0 first found.1.1)
    Fits-array s pointer nil t e h = ground arith
    Fits-array s pointer (bool b) t e h = ground arith
    Fits-array s pointer (int i) t e h = ground arith
    Fits-array s pointer (float64 bits) t e h = ground arith
    Fits-array s pointer (str text) t e h = ground arith
    Fits-array s pointer (obj m) t e h = ground arith

    Fits-plain :
        (s : Schema) (kind : Kind) (v : Value)
        → kind_of v ≡ some kind
        → plain_same_type s kind ≡ returns true
        → Fits definitions s v
    unfolding plain_same_type
    Fits-plain s kind v k h = elim (if_cases (type_of s == type_boolean) h) [
      | inl p ↦ Fits-boolean s v (tested is_bool_kind v k p.1) (named s type_boolean p.0)
      | inr p ↦ elim (if_cases (type_of s == type_integer) p.1) [
        | inl q ↦ Fits-integer s v (tested is_integer_kind v k q.1) (named s type_integer q.0)
        | inr q ↦ elim (if_cases (type_of s == type_number) q.1) [
          | inl r ↦ Fits-number s v (tested is_number_kind v k r.1) (named s type_number r.0)
          | inr r ↦ elim (if_cases (type_of s == type_object) r.1) [
            | inl o ↦ ground (arith, o.1)
            | inr o ↦ elim (if_cases (type_of s == type_string) o.1) [
              | inl t ↦ Fits-string s v (tested is_string_kind v k t.1) (named s type_string t.0)
              | inr t ↦ ground (arith, t.1)
            ]
          ]
        ]
      ]
    ]

    Fits-typed :
        (s : Schema) (kind : Kind) (v : Value)
        → kind_of v ≡ some kind
        → same_type_of definitions same s kind v ≡ returns true
        → Fits definitions s v
    unfolding same_type_of
    Fits-typed s kind v k h = elim (if_cases (has_branches (any_of s)) h) [
      | inl p ↦
          let found = Fits-any (λ b. same b v) (any_of s) p.1 in
          branch found.0 found.1 found.2 found.3 (sound found.1 v found.4)
      | inr p ↦ elim (if_cases (type_of s == type_array) p.1) [
        | inl q ↦ Fits-array s (items_of s) v ((eq_iff (type_of s) type_array).0 q.0) refl q.1
        | inr q ↦ Fits-plain s kind v k q.1
      ]
    ]

    Fits-kind :
        (s : Schema) (v : Value) (kind : Option Kind)
        → kind_of v ≡ kind
        → of_kind definitions same s v kind ≡ returns true
        → Fits definitions s v
    unfolding of_kind
    Fits-kind s v none k h = absurd (refused h)
    Fits-kind s v (some kind) k h = Fits-typed s kind v k h

  -- Whatever the fuel and the definitions, a value that isSameType takes for one of a schema's type
  -- is one that the schema describes: by a branch, through the references between schemas, by the
  -- first element of an array, or by its own kind; so that nil and maps are never taken.
  pub schema_same_type-Fits :
      (fuel : ℕ) (s : Schema) (v : Value)
      → schema_same_type fuel definitions s v ≡ returns true
      → Fits definitions s v
  unfolding schema_same_type
  schema_same_type-Fits zero s v h = ground arith
  schema_same_type-Fits (suc fuel) s v h =
      Fits-kind (schema_same_type fuel definitions) (schema_same_type-Fits fuel) s v (kind_of v)
        refl h

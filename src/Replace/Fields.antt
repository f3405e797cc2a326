-- ===== src/Replace/Fields.antt =====
-- What ReplaceData (generator/datareplacer/datareplacer.go) leaves under each key of a response.
use Prim.Native.String.{String}
use stripe_mock_pi.Prelude.{
  ℕ, ◌≡◌, refl, sym, ◌∙◌, ap, false, Option, none, some, Dict, ◌==◌, eq_refl, eq_iff, subst,
  Bool-cases, inl, inr,
}
use stripe_mock_pi.Json.{Value, Object, end, entry, get}
use stripe_mock_pi.Json.Laws.{get-put, Distinct}
use stripe_mock_pi.Schema.{Schema, Pointer}
use stripe_mock_pi.Replace.{
  Outcome, returns, bind, key_schema, step_at, written, replace_data_internal, replace_value,
}
use stripe_mock_pi.Replace.Outcomes.{bind-returns, returns-injective}

abbrev or_old : Value → Option Value → Option Value
or_old old none = some old
or_old old (some new) = some new

-- What a field of the response becomes, by the request's value and the response's own.
abbrev field :
    ℕ → Dict Schema → Pointer → String → Option Value → Option Value → Outcome (Option Value)
field fuel definitions s k none old = returns old
field fuel definitions s k (some v) none = returns none
field fuel definitions s k (some v) (some old) = bind (key_schema definitions s k) (λ schema_at.
    bind (replace_value fuel definitions v old schema_at) (λ new. returns (or_old old new)))

module _ (fuel : ℕ) (definitions : Dict Schema) (s : Pointer) where
  get-written :
      (response : Object) (j k : String) (new : Option Value)
      → (j == k) ≡ false
      → get (written response j new) k ≡ get response k
  get-written response j k none h = refl
  get-written response j k (some v) h = get-put response j k v ∙ rw h

  get-written-same :
      (response : Object) (j : String) (old : Value) (new : Option Value)
      → get response j ≡ some old
      → get (written response j new) j ≡ or_old old new
  get-written-same response j old none h = h
  get-written-same response j old (some v) h = get-put response j j v ∙ rw eq_refl

  get-step_at :
      (response next : Object) (j : String) (v : Value) (old : Option Value)
      → get response j ≡ old
      → step_at definitions s (replace_value fuel definitions v) j response old ≡ returns next
      → (field fuel definitions s j (some v) old ≡ returns (get next j))
        × ((k : String) → (j == k) ≡ false → get next k ≡ get response k)
  get-step_at response next j v none e h =
      let same = returns-injective response next h in
      (ap returns (sym e ∙ ap (λ r. get r j) same), λ k other. ap (λ r. get r k) (sym same))
  get-step_at response next j v (some old) e h =
      let at_key =
        bind-returns (key_schema definitions s j)
          (λ schema_at.
            bind (replace_value fuel definitions v old schema_at)
              (λ new. returns (written response j new)))
          next h in
      let at_value =
        bind-returns (replace_value fuel definitions v old at_key.0)
          (λ new. returns (written response j new)) next at_key.1.1 in
      let same = returns-injective (written response j at_value.0) next at_value.1.1 in
      (
        rw at_key.1.0 (
            rw at_value.1.0 (
              ap returns
                (sym (get-written-same response j old at_value.0 e) ∙ ap (λ r. get r j) same))),
        λ k other. ap (λ r. get r k) (sym same) ∙ get-written response j k at_value.0 other,
      )

  get-replace :
      (request response result : Object)
      → Distinct request
      → replace_data_internal fuel definitions request response s ≡ returns result
      → (k : String)
      → field fuel definitions s k (get request k) (get response k) ≡ returns (get result k)
  unfolding replace_data_internal get
  get-replace end response result d h k =
      ap (λ r. returns (get r k)) (returns-injective response result h)
  get-replace (entry j v rest) response result d h k =
      let step =
        step_at definitions s (replace_value fuel definitions v) j response (get response j) in
      let both =
        bind-returns step (λ next. replace_data_internal fuel definitions rest next s) result h in
      let first = get-step_at response both.0 j v (get response j) refl both.1.0 in
      let absent = get-replace rest both.0 result d.1 both.1.1 j in
      let kept : returns (get both.0 j) ≡ returns (get result j) =
        sym (ap (λ v. field fuel definitions s j v (get both.0 j)) d.0) ∙ absent in
      let below = get-replace rest both.0 result d.1 both.1.1 k in
      elim (Bool-cases (j == k)) [
        | inl e ↦ rw e (
            subst
              (λ x. field fuel definitions s x (some v) (get response x) ≡ returns (get result x))
              ((eq_iff j k).0 e) (first.0 ∙ kept))
        | inr e ↦ rw e (rw (sym (first.1 k e)) below)
      ]

-- Whatever the order in which the entries of a request are visited, each once: where
-- replaceDataInternal returns, a field of the response holds what the request's value of that name
-- makes of it by the schema of the field, and a field that the request or the response lacks is
-- left as it was, so that no field is added or removed.
pub get-replace_data_internal :
    (fuel : ℕ) (definitions : Dict Schema) (s : Pointer) (request response result : Object)
    → Distinct request
    → replace_data_internal fuel definitions request response s ≡ returns result
    → (k : String)
    → field fuel definitions s k (get request k) (get response k) ≡ returns (get result k)
get-replace_data_internal = get-replace

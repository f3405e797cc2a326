-- ===== src/Params/Chains.antt =====
-- The panics of maybeCollapseArrays (param/nestedtypeassembler/nestedtypeassembler.go) and the
-- structures that AssembleParams merges.
use Prim.Native.String.{String}
use stripe_mock_pi.Prelude.{
  ◌≡◌, refl, ◌≢◌, List, [], ◌∷◌, Option, none, some, ◌==◌, ap, subst, ◌∙◌, if_elim, Bool-cases, inl,
  inr,
}
use stripe_mock_pi.Json.{
  Value, nil, bool, int, float64, str, arr, obj, Items, done, item, Object, end, entry, get, put,
  or_nil,
}
use stripe_mock_pi.Params.{
  KeyPart, key_array, key_map, key_raw, build_param_structure, in_array, in_object, built, append,
  merge_at, merge_maps_recursive, collapse_or_append, collapsible, Assembled, assembled,
  invalid_key, panics, Pair, skipped, wrong, structure, pair_params, assemble_pair, assemble,
  assemble_params, parse_key,
}
use stripe_mock_pi.Params.Filled.{
  FilledValue, FilledItems, Filled, SlimValue, SlimItems, Slim, Slim-FilledValue, Slim-Filled,
  FilledOption, FilledOption-get, Filled-put, FilledValue-append, last-Ends,
}

-- A merge that has a filled result.
record Gives (o : Option Object) : Type 0 where
  result : Object
  is : o ≡ some result
  result_filled : Filled result

record GivesValue (o : Option Value) : Type 0 where
  result : Value
  is : o ≡ some result
  result_filled : FilledValue result

given : (v : Value) → FilledValue v → GivesValue (some v)
given v f = record { result = v; is = refl; result_filled = f }

mutual
  unfolding merge_maps_recursive merge_at collapse_or_append SlimValue FilledValue SlimItems
      FilledItems Slim Filled

  merge_maps-Gives : (m₁ m₂ : Object) → Filled m₁ → Slim m₂ → Gives (merge_maps_recursive m₁ m₂)
  merge_maps-Gives m₁ end f s = record { result = m₁; is = refl; result_filled = f }
  merge_maps-Gives m₁ (entry k v₂ m₂) f s =
      let g = merge_at-Gives (get m₁ k) v₂ (FilledOption-get m₁ k f) s.0 in
      let rest =
        merge_maps-Gives (put m₁ k g.result) m₂ (Filled-put m₁ k g.result f g.result_filled) s.1 in
      record {
        result = rest.result;
        is = rw (g.is, merge_maps_recursive) rest.is;
        result_filled = rest.result_filled;
      }

  merge_at-Gives :
      (o : Option Value) (v₂ : Value) → FilledOption o → SlimValue v₂ → GivesValue (merge_at o v₂)
  merge_at-Gives none v₂ f s = given v₂ (Slim-FilledValue v₂ s)
  merge_at-Gives (some (obj m₁)) (obj m₂) f s =
      let g = merge_maps-Gives m₁ m₂ f s in
      record { result = obj g.result; is = rw (g.is, merge_at); result_filled = g.result_filled }
  merge_at-Gives (some (arr done)) (arr ys) f s = absurd f.0
  merge_at-Gives (some (arr (item x xs))) (arr ys) f s =
      let e = last-Ends x xs f.1 in
      let g = collapse-Gives e.front e.final (item x xs) ys e.front_filled e.final_filled f.1 s in
      record {
        result = g.result;
        is = ap (λ o. collapse_or_append o (item x xs) ys) e.is ∙ g.is;
        result_filled = g.result_filled;
      }
  merge_at-Gives (some (obj m)) nil f s = given _ (Slim-FilledValue nil s)
  merge_at-Gives (some (obj m)) (bool b) f s = given _ (Slim-FilledValue (bool b) s)
  merge_at-Gives (some (obj m)) (int n) f s = given _ (Slim-FilledValue (int n) s)
  merge_at-Gives (some (obj m)) (float64 n) f s = given _ (Slim-FilledValue (float64 n) s)
  merge_at-Gives (some (obj m)) (str t) f s = given _ (Slim-FilledValue (str t) s)
  merge_at-Gives (some (obj m)) (arr ys) f s = given _ (Slim-FilledValue (arr ys) s)
  merge_at-Gives (some (arr xs)) nil f s = given _ (Slim-FilledValue nil s)
  merge_at-Gives (some (arr xs)) (bool b) f s = given _ (Slim-FilledValue (bool b) s)
  merge_at-Gives (some (arr xs)) (int n) f s = given _ (Slim-FilledValue (int n) s)
  merge_at-Gives (some (arr xs)) (float64 n) f s = given _ (Slim-FilledValue (float64 n) s)
  merge_at-Gives (some (arr xs)) (str t) f s = given _ (Slim-FilledValue (str t) s)
  merge_at-Gives (some (arr xs)) (obj m) f s = given _ (Slim-FilledValue (obj m) s)
  merge_at-Gives (some nil) v₂ f s = given _ (Slim-FilledValue v₂ s)
  merge_at-Gives (some (bool b)) v₂ f s = given _ (Slim-FilledValue v₂ s)
  merge_at-Gives (some (int n)) v₂ f s = given _ (Slim-FilledValue v₂ s)
  merge_at-Gives (some (float64 n)) v₂ f s = given _ (Slim-FilledValue v₂ s)
  merge_at-Gives (some (str t)) v₂ f s = given _ (Slim-FilledValue v₂ s)

  collapse-Gives :
      (front : Items) (final : Value) (xs ys : Items)
      → FilledItems front
      → FilledValue final
      → FilledItems xs
      → SlimValue (arr ys)
      → GivesValue (collapse_or_append (some (front, final)) xs ys)
  collapse-Gives front final xs done p q f s = absurd s.0
  collapse-Gives front final xs (item y (item z zs)) p q f s = absurd s.0
  collapse-Gives front (obj m₁) xs (item (obj m₂) done) p q f s =
      elim (Bool-cases (collapsible m₁ m₂)) [
        | inl merges ↦
            let g = merge_maps-Gives m₁ m₂ q s.1.0 in
            record {
              result = arr (append front (item (obj g.result) done));
              is = rw (merges, collapse_or_append) (rw g.is);
              result_filled = FilledValue-append front (obj g.result) p g.result_filled;
            }
        | inr new ↦ record {
          result = arr (append xs (item (obj m₂) done));
          is = rw (new, collapse_or_append);
          result_filled = FilledValue-append xs (obj m₂) f (Slim-Filled m₂ s.1.0);
        }
      ]
  collapse-Gives front (obj m₁) xs (item nil done) p q f s =
      given _ (FilledValue-append xs nil f (Slim-FilledValue nil s.1.0))
  collapse-Gives front (obj m₁) xs (item (bool b) done) p q f s =
      given _ (FilledValue-append xs (bool b) f (Slim-FilledValue (bool b) s.1.0))
  collapse-Gives front (obj m₁) xs (item (int n) done) p q f s =
      given _ (FilledValue-append xs (int n) f (Slim-FilledValue (int n) s.1.0))
  collapse-Gives front (obj m₁) xs (item (float64 n) done) p q f s =
      given _ (FilledValue-append xs (float64 n) f (Slim-FilledValue (float64 n) s.1.0))
  collapse-Gives front (obj m₁) xs (item (str t) done) p q f s =
      given _ (FilledValue-append xs (str t) f (Slim-FilledValue (str t) s.1.0))
  collapse-Gives front (obj m₁) xs (item (arr ys) done) p q f s =
      given _ (FilledValue-append xs (arr ys) f (Slim-FilledValue (arr ys) s.1.0))
  collapse-Gives front nil xs (item y done) p q f s =
      given _ (FilledValue-append xs y f (Slim-FilledValue y s.1.0))
  collapse-Gives front (bool b) xs (item y done) p q f s =
      given _ (FilledValue-append xs y f (Slim-FilledValue y s.1.0))
  collapse-Gives front (int n) xs (item y done) p q f s =
      given _ (FilledValue-append xs y f (Slim-FilledValue y s.1.0))
  collapse-Gives front (float64 n) xs (item y done) p q f s =
      given _ (FilledValue-append xs y f (Slim-FilledValue y s.1.0))
  collapse-Gives front (str t) xs (item y done) p q f s =
      given _ (FilledValue-append xs y f (Slim-FilledValue y s.1.0))
  collapse-Gives front (arr zs) xs (item y done) p q f s =
      given _ (FilledValue-append xs y f (Slim-FilledValue y s.1.0))

SlimValue-get : (m : Object) (k : String) → Slim m → SlimValue (or_nil (get m k))
unfolding get Slim SlimValue
SlimValue-get end k h = tt
SlimValue-get (entry j v m) k h =
    if_elim (λ o. SlimValue (or_nil o)) (j == k) h.0 (SlimValue-get m k h.1)

abbrev SlimOption : Option Object → Type 0
SlimOption none = Unit
SlimOption (some m) = Slim m

in_array-Slim : (key : String) (o : Option Object) → SlimOption o → SlimOption (in_array key o)
unfolding Slim SlimValue SlimItems
in_array-Slim key none s = tt
in_array-Slim key (some sub) s = ((tt, (SlimValue-get sub "dummy" s, tt)), tt)

in_object-Slim : (key : String) (o : Option Object) → SlimOption o → SlimOption (in_object key o)
unfolding Slim SlimValue
in_object-Slim key none s = tt
in_object-Slim key (some sub) s = (s, tt)

build-Slim :
    (key : String) (parts : List KeyPart) (value : String)
    → SlimOption (build_param_structure key parts value)
unfolding build_param_structure Slim SlimValue
build-Slim key [] value = (tt, tt)
build-Slim key (key_array ∷ parts) value = in_array-Slim key _ (build-Slim "dummy" parts value)
build-Slim key (key_map content ∷ parts) value =
    in_object-Slim key _ (build-Slim content parts value)
build-Slim key (key_raw content ∷ parts) value = tt

-- The outcome of assembling: parameters that are filled, or an error, and no panic.
abbrev Sound : Assembled → Type 0
Sound (assembled m) = Filled m
Sound (invalid_key message) = Unit
Sound panics = ⊥

abbrev SlimPair : Pair → Type 0
SlimPair (structure m) = Slim m
SlimPair _ = Unit

pair_params-Slim :
    (key value : String) (parts : List KeyPart) → SlimPair (pair_params key value parts)
pair_params-Slim key value [] = tt
pair_params-Slim key value (key_array ∷ parts) = tt
pair_params-Slim key value (key_map content ∷ parts) = tt
pair_params-Slim key value (key_raw name ∷ parts) =
    of_built (build_param_structure name parts value) (build-Slim name parts value)
  where
    of_built : (o : Option Object) → SlimOption o → SlimPair (built o)
    of_built none s = tt
    of_built (some m) s = s

assemble_pair-Sound :
    (params : Object) (pair : Pair)
    → Filled params
    → SlimPair pair
    → Sound (assemble_pair params pair)
unfolding assemble_pair
assemble_pair-Sound params skipped f s = f
assemble_pair-Sound params (wrong message) f s = tt
assemble_pair-Sound params (structure m) f s =
    let g = merge_maps-Gives params m f s in rw g.is g.result_filled

assemble-next :
    (params : Object) (key value : String) (pairs : List (String × String)) (r : Assembled)
    → assemble_pair params (pair_params key value (parse_key key)) ≡ r
    → Sound r
    → ((m : Object) → Filled m → Sound (assemble m pairs))
    → Sound (assemble params ((key, value) ∷ pairs))
unfolding assemble
assemble-next params key value pairs (assembled m) e filled rest = rw (e, assemble) (rest m filled)
assemble-next params key value pairs (invalid_key message) e filled rest = rw (e, assemble) tt
assemble-next params key value pairs panics e filled rest = absurd filled

assemble-Sound :
    (params : Object) (pairs : List (String × String))
    → Filled params
    → Sound (assemble params pairs)
unfolding assemble
assemble-Sound params [] f = f
assemble-Sound params ((key, value) ∷ pairs) f =
    assemble-next params key value pairs _ refl
      (assemble_pair-Sound params _ f (pair_params-Slim key value (parse_key key)))
      (λ m filled. assemble-Sound m pairs filled)

-- Whatever the pairs of keys and values, assembling them ends in parameters or an error: none of
-- the panics in collapsing arrays is reached.
pub assemble_params-no_panic : (pairs : List (String × String)) → assemble_params pairs ≢ panics
unfolding Filled
assemble_params-no_panic pairs h = subst Sound h (assemble-Sound end pairs tt)

-- ===== src/Params/Arrays.antt =====
-- AssembleParams on the values of one array key (param/nestedtypeassembler/nestedtypeassembler.go).
use Prim.Native.String.{String}
use stripe_mock_pi.Prelude.{◌≡◌, refl, sym, true, List, [], ◌∷◌, ◌++◌, some, ap, ◌∙◌, eq_refl}
use stripe_mock_pi.Text.{◌<>◌}
use stripe_mock_pi.Text.Utf8.{is_valid}
use stripe_mock_pi.Json.{Value, str, arr, Items, done, item, Object, end, entry, get, put}
use stripe_mock_pi.Params.{
  key_array, key_raw, build_param_structure, append, last, merge_at, merge_maps_recursive,
  collapse_or_append, assembled, pair_params, assemble_pair, assemble, assemble_params, parse_key,
  structure, opens,
}
use stripe_mock_pi.Params.Keys.{free_of, parse_key-write, non_empty}

abbrev pub texts : List String → Items
texts [] = done
texts (s ∷ ss) = item (str s) (texts ss)

-- One pair for each value, all of them under the same key.
abbrev pub pairs_of : String → List String → List (String × String)
pairs_of key [] = []
pairs_of key (s ∷ ss) = (key, s) ∷ pairs_of key ss

append-texts :
    (xs : List String) (s : String) → append (texts xs) (item (str s) done) ≡ texts (xs ++ (s ∷ []))
unfolding append
append-texts [] s = refl
append-texts (x ∷ xs) s = ap (λ r. item (str x) r) (append-texts xs s)

++-snoc :
    (xs : List String) (s : String) (ss : List String) → (xs ++ (s ∷ [])) ++ ss ≡ xs ++ (s ∷ ss)
++-snoc [] s ss = refl
++-snoc (x ∷ xs) s ss = ap (λ l. x ∷ l) (++-snoc xs s ss)

-- An array of texts ends in a text.
last-texts :
    (x : String) (xs : List String)
    → (front : Items) × (z : String) × (last (texts (x ∷ xs)) ≡ some (front, str z))
unfolding last
last-texts x [] = (done, x, refl)
last-texts x (y ∷ ys) = let (front, z, is) = last-texts y ys in (item (str x) front, z, rw is)

merge-texts :
    (x : String) (xs : List String) (s : String)
    → merge_at (some (arr (texts (x ∷ xs)))) (arr (item (str s) done))
      ≡ some (arr (texts ((x ∷ xs) ++ (s ∷ []))))
unfolding merge_at collapse_or_append
merge-texts x xs s =
    let (front, z, is) = last-texts x xs in
    ap (λ o. collapse_or_append o (texts (x ∷ xs)) (item (str s) done)) is
    ∙ ap (λ r. some (arr r)) (append-texts (x ∷ xs) s)

merge-one :
    (m : Object) (k : String) (v₂ v : Value)
    → merge_at (get m k) v₂ ≡ some v
    → merge_maps_recursive m (entry k v₂ end) ≡ some (put m k v)
unfolding merge_maps_recursive
merge-one m k v₂ v h = rw (h, merge_maps_recursive)

++-nil : (xs : List String) → xs ++ [] ≡ xs
++-nil [] = refl
++-nil (x ∷ xs) = ap (λ l. x ∷ l) (++-nil xs)

module _ (name : String) where
  abbrev pub holding : List String → Object
  holding xs = entry name (arr (texts xs)) end

  get-holding : (xs : List String) → get (holding xs) name ≡ some (arr (texts xs))
  unfolding get
  get-holding xs = rw (eq_refl name)

  put-holding : (xs : List String) (v : Value) → put (holding xs) name v ≡ entry name v end
  unfolding put
  put-holding xs v = rw (eq_refl name)

  merge-holding :
      (x : String) (xs : List String) (s : String)
      → merge_maps_recursive (holding (x ∷ xs)) (entry name (arr (item (str s) done)) end)
        ≡ some (holding ((x ∷ xs) ++ (s ∷ [])))
  merge-holding x xs s =
      merge-one (holding (x ∷ xs)) name _ _
        (ap (λ o. merge_at o (arr (item (str s) done))) (get-holding (x ∷ xs)) ∙ merge-texts x xs s)
      ∙ ap (λ m. some m) (put-holding (x ∷ xs) _)

  module _ (named : non_empty name ≡ true) (plain : free_of opens name ≡ true)
      (valid : is_valid name ≡ true) where
    parsed : parse_key (name <> "[]") ≡ key_raw name ∷ key_array ∷ []
    parsed = parse_key-write name (key_array ∷ []) named plain refl valid refl

    params_of :
        (s : String)
        → pair_params (name <> "[]") s (parse_key (name <> "[]"))
          ≡ structure (entry name (arr (item (str s) done)) end)
    unfolding build_param_structure get
    params_of s = rw parsed

    -- One more round of the loop.
    assemble-holding :
        (x : String) (xs ss : List String)
        → assemble (holding (x ∷ xs)) (pairs_of (name <> "[]") ss)
          ≡ assembled (holding ((x ∷ xs) ++ ss))
    unfolding assemble assemble_pair
    assemble-holding x xs [] = ap (λ l. assembled (holding (x ∷ l))) (sym (++-nil xs))
    assemble-holding x xs (s ∷ ss) =
        rw (params_of s, assemble)
          (rw (merge-holding x xs s) (
            assemble-holding x (xs ++ (s ∷ [])) ss
            ∙ ap (λ l. assembled (holding (x ∷ l))) (++-snoc xs s ss)))

    -- Values given one after the other under the key `name[]` are assembled into one array under
    -- the name, in their order, for any name without `[` that is valid UTF-8.
    pub assemble_params-array :
        (s : String) (ss : List String)
        → assemble_params (pairs_of (name <> "[]") (s ∷ ss)) ≡ assembled (holding (s ∷ ss))
    unfolding assemble assemble_pair merge_at get put
    assemble_params-array s ss = rw (params_of s, assemble) (assemble-holding s [] ss)

-- ===== src/Params/Filled.antt =====
-- Assembled values whose arrays hold an element, and structures whose arrays hold exactly one.
use Prim.Native.String.{String}
use stripe_mock_pi.Prelude.{◌≡◌, refl, Option, none, some, ◌==◌, if_elim}
use stripe_mock_pi.Json.{
  Value, nil, bool, int, float64, str, arr, obj, Items, done, item, Object, end, entry, get, put,
}
use stripe_mock_pi.Params.{append, last}

abbrev pub AnyItem : Items → Type 0
AnyItem done = ⊥
AnyItem (item x xs) = Unit

abbrev pub Single : Items → Type 0
Single (item x done) = Unit
Single _ = ⊥

unfoldable mutual
  pub FilledValue : Value → Type 0
  FilledValue (arr xs) = AnyItem xs × FilledItems xs
  FilledValue (obj m) = Filled m
  FilledValue _ = Unit

  pub FilledItems : Items → Type 0
  FilledItems done = Unit
  FilledItems (item x xs) = FilledValue x × FilledItems xs

  pub Filled : Object → Type 0
  Filled end = Unit
  Filled (entry k v m) = FilledValue v × Filled m

unfoldable mutual
  pub SlimValue : Value → Type 0
  SlimValue (arr xs) = Single xs × SlimItems xs
  SlimValue (obj m) = Slim m
  SlimValue _ = Unit

  pub SlimItems : Items → Type 0
  SlimItems done = Unit
  SlimItems (item x xs) = SlimValue x × SlimItems xs

  pub Slim : Object → Type 0
  Slim end = Unit
  Slim (entry k v m) = SlimValue v × Slim m

mutual
  unfolding SlimValue FilledValue SlimItems FilledItems Slim Filled

  pub Slim-FilledValue : (v : Value) → SlimValue v → FilledValue v
  Slim-FilledValue (arr done) h = absurd h.0
  Slim-FilledValue (arr (item x xs)) h = (tt, Slim-FilledItems (item x xs) h.1)
  Slim-FilledValue (obj m) h = Slim-Filled m h
  Slim-FilledValue nil h = tt
  Slim-FilledValue (bool b) h = tt
  Slim-FilledValue (int n) h = tt
  Slim-FilledValue (float64 n) h = tt
  Slim-FilledValue (str s) h = tt

  pub Slim-FilledItems : (xs : Items) → SlimItems xs → FilledItems xs
  Slim-FilledItems done h = tt
  Slim-FilledItems (item x xs) h = (Slim-FilledValue x h.0, Slim-FilledItems xs h.1)

  pub Slim-Filled : (m : Object) → Slim m → Filled m
  Slim-Filled end h = tt
  Slim-Filled (entry k v m) h = (Slim-FilledValue v h.0, Slim-Filled m h.1)

abbrev pub FilledOption : Option Value → Type 0
FilledOption none = Unit
FilledOption (some v) = FilledValue v

pub FilledOption-get : (m : Object) (k : String) → Filled m → FilledOption (get m k)
unfolding get Filled
FilledOption-get end k h = tt
FilledOption-get (entry j v m) k h = if_elim FilledOption (j == k) h.0 (FilledOption-get m k h.1)

pub Filled-put :
    (m : Object) (k : String) (v : Value) → Filled m → FilledValue v → Filled (put m k v)
unfolding put Filled
Filled-put end k v h f = (f, tt)
Filled-put (entry j w m) k v h f = if_elim Filled (j == k) (f, h.1) (h.0, Filled-put m k v h.1 f)

pub FilledItems-append :
    (xs ys : Items) → FilledItems xs → FilledItems ys → FilledItems (append xs ys)
unfolding append FilledItems
FilledItems-append done ys p q = q
FilledItems-append (item x xs) ys p q = (p.0, FilledItems-append xs ys p.1 q)

pub AnyItem-append : (xs : Items) (y : Value) (ys : Items) → AnyItem (append xs (item y ys))
unfolding append
AnyItem-append done y ys = tt
AnyItem-append (item x xs) y ys = tt

-- A value behind filled ones.
pub FilledValue-append :
    (xs : Items) (y : Value)
    → FilledItems xs
    → FilledValue y
    → FilledValue (arr (append xs (item y done)))
unfolding FilledValue FilledItems
FilledValue-append xs y p q =
    (AnyItem-append xs y done, FilledItems-append xs (item y done) p (q, tt))

-- A filled array ends in a filled value.
pub record Ends (o : Option (Items × Value)) : Type 0 where
  pub front : Items
  pub final : Value
  pub is : o ≡ some (front, final)
  pub front_filled : FilledItems front
  pub final_filled : FilledValue final

pub last-Ends : (x : Value) (xs : Items) → FilledItems (item x xs) → Ends (last (item x xs))
unfolding last FilledItems
last-Ends x done h = record {
  front = done;
  final = x;
  is = refl;
  front_filled = tt;
  final_filled = h.0;
}
last-Ends x (item y ys) h =
    let e = last-Ends y ys h.1 in
    record {
      front = item x e.front;
      final = e.final;
      is = rw e.is;
      front_filled = (h.0, e.front_filled);
      final_filled = e.final_filled;
    }

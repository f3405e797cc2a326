-- ===== src/Json/Laws.antt =====
-- Reading behind a write, and reading by getString.
use Prim.Native.String.{String}
use stripe_mock_pi.Prelude.{◌≡◌, refl, some, none, arith, ◌==◌, if◌then◌else◌, eq_iff}
use stripe_mock_pi.Json.{Value, Object, end, entry, get, put, get_string, string_of}

-- A map that holds each key once.
abbrev pub Distinct : Object → Type 0
Distinct end = Unit
Distinct (entry k v rest) = (get rest k ≡ none) × Distinct rest

pub get-put :
    (m : Object) (k j : String) (v : Value)
    → get (put m k v) j ≡ (if k == j then some v else get m j)
unfolding get put
get-put end k j v = refl
get-put (entry i w m) k j v = ground (arith, eq_iff k j, eq_iff i k, eq_iff i j, get-put m k j v)

pub get_string-put :
    (m : Object) (k j : String) (v : Value)
    → get_string (put m k v) j ≡ (if k == j then string_of v else get_string m j)
unfolding get_string
get_string-put m k j v = ground (arith, get-put m k j v)

pub ruleset object_laws = (get-put, get_string-put)

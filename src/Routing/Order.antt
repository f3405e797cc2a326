-- ===== src/Routing/Order.antt =====
-- The order of the routing table and the route that routeRequest finds (server/server.go).
use Prim.Native.String.{String}
use stripe_mock_pi.Prelude.{
  ℕ, ◌≤◌, ◌≡◌, refl, ap, subst, Bool, true, not, ◌||◌, List, [], ◌∷◌, Option, none, some, Dict,
  lookup, is_some, All, leb, ltb, ◌==◌, arith, Bool-cases, if_cases, inl, inr,
}
use stripe_mock_pi.Schema.{Operation}
use stripe_mock_pi.Server.{PathParams}
use stripe_mock_pi.Routing.{Route, match_path}
use stripe_mock_pi.Routing.Table.{
  parameters, insert_route, sort_routes, sort_each, routes_or_none, Routed, not_found,
  bad_parameter, found, unescape_all, with_values, routed_to, first_route, route_request,
  initialize_router, add_paths, at_match,
}

-- By the number of parameters, the smaller first.
abbrev pub Ordered : List Route → Type 0
Ordered [] = Unit
Ordered (route ∷ rest) = All (λ x. parameters route ≤ parameters x) rest × Ordered rest

All-insert_route :
    (P : Route → Type 0) (route : Route) (routes : List Route)
    → P route
    → All P routes
    → All P (insert_route route routes)
unfolding insert_route
All-insert_route P route [] p h = (p, tt)
All-insert_route P route (first ∷ rest) p h =
    elim (Bool-cases (leb (parameters route) (parameters first))) [
      | inl e ↦ rw e (p, h)
      | inr e ↦ rw e (h.0, All-insert_route P route rest p h.1)
    ]

All-weaken :
    (n m : ℕ) (routes : List Route)
    → n ≤ m
    → All (λ x. m ≤ parameters x) routes
    → All (λ x. n ≤ parameters x) routes
All-weaken n m [] le h = tt
All-weaken n m (first ∷ rest) le h = (omega (arith, h.0), All-weaken n m rest le h.1)

Ordered-insert_route :
    (route : Route) (routes : List Route) → Ordered routes → Ordered (insert_route route routes)
unfolding insert_route
Ordered-insert_route route [] h = (tt, tt)
Ordered-insert_route route (first ∷ rest) h =
    elim (Bool-cases (leb (parameters route) (parameters first))) [
      | inl e ↦
          let le : parameters route ≤ parameters first = ground (arith, e) in
          rw e ((le, All-weaken (parameters route) (parameters first) rest le h.0), h)
      | inr e ↦
          let ge : parameters first ≤ parameters route = ground (arith, e) in
          rw e (
            All-insert_route (λ x. parameters first ≤ parameters x) route rest ge h.0,
            Ordered-insert_route route rest h.1,
          )
    ]

Ordered-sort_routes : (routes : List Route) → Ordered (sort_routes routes)
unfolding sort_routes
Ordered-sort_routes [] = tt
Ordered-sort_routes (route ∷ rest) =
    Ordered-insert_route route (sort_routes rest) (Ordered-sort_routes rest)

Ordered-table :
    (method : String) (table : Dict (List Route))
    → Ordered (routes_or_none (lookup method (sort_each table)))
unfolding lookup sort_routes sort_each
Ordered-table method [] = tt
Ordered-table method ((verb, routes) ∷ rest) = elim (Bool-cases (verb == method)) [
  | inl e ↦ rw e (Ordered-sort_routes routes)
  | inr e ↦ rw e (Ordered-table method rest)
]

-- A route that does not match or has at least so many parameters.
abbrev NotBetter : String → ℕ → Route → Type 0
NotBetter path n x = (not (is_some (match_path x.segments path)) || leb n (parameters x)) ≡ true

-- The first match among routes in order.
abbrev pub Fewest : String → Route → List Route → Type 0
Fewest path route routes =
    (is_some (match_path route.segments path) ≡ true)
    × All (NotBetter path (parameters route)) routes

abbrev route_in : Route → Routed → Route
route_in default (found route p) = route
route_in default not_found = default
route_in default bad_parameter = default

with_values-found :
    (first route : Route) (p : Option PathParams) (values : Option (List String))
    → with_values first values ≡ found route p
    → first ≡ route
unfolding with_values
with_values-found first route p none h = ground (arith, h)
with_values-found first route p (some values) h = ap (route_in first) h

routed_to-found :
    (first route : Route) (p : Option PathParams) (values : List String)
    → routed_to first values ≡ found route p
    → first ≡ route
unfolding routed_to
routed_to-found first route p values h = elim (if_cases (ltb (parameters first) 1) h) [
  | inl e ↦ ap (route_in first) e.1
  | inr e ↦ with_values-found first route p (unescape_all values) e.1
]

NotBetter-le : (path : String) (n : ℕ) (x : Route) → n ≤ parameters x → NotBetter path n x
NotBetter-le path n x h = of (is_some (match_path x.segments path)) (leb_of h)
  where
    leb_of : n ≤ parameters x → leb n (parameters x) ≡ true
    leb_of h = ground arith

    of : (b : Bool) → leb n (parameters x) ≡ true → (not b || leb n (parameters x)) ≡ true
    of b k = ground arith

All-matched :
    (path : String) (n : ℕ) (routes : List Route)
    → All (λ x. n ≤ parameters x) routes
    → All (NotBetter path n) routes
All-matched path n [] h = tt
All-matched path n (first ∷ rest) h = (NotBetter-le path n first h.0, All-matched path n rest h.1)

Fewest-at_match :
    (path : String) (first route : Route) (p : Option PathParams) (rest : List Route)
    (m : Option (List String))
    → match_path first.segments path ≡ m
    → All (λ x. parameters first ≤ parameters x) rest
    → (first_route path rest ≡ found route p → Fewest path route rest)
    → at_match first m (first_route path rest) ≡ found route p
    → Fewest path route (first ∷ rest)
unfolding at_match
Fewest-at_match path first route p rest none e o below h =
    let later = below h in (later.0, (rw e refl, later.1))
Fewest-at_match path first route p rest (some values) e o below h =
    subst (λ r. Fewest path r (first ∷ rest)) (routed_to-found first route p values h)
      (
        ap is_some e,
        (
          NotBetter-le path (parameters first) first (omega arith),
          All-matched path (parameters first) rest o,
        ),
      )

Fewest-first_route :
    (path : String) (route : Route) (p : Option PathParams) (routes : List Route)
    → Ordered routes
    → first_route path routes ≡ found route p
    → Fewest path route routes
unfolding first_route
Fewest-first_route path route p [] o h = ground (arith, h)
Fewest-first_route path route p (first ∷ rest) o h =
    Fewest-at_match path first route p rest (match_path first.segments path) refl o.0
      (Fewest-first_route path route p rest o.1) h

-- Whatever the paths of the specification, a route that routeRequest finds for a request matches its
-- path, and no route for the request's method that also matches it has fewer parameters.
pub route_request-Fewest :
    (paths : Dict (Dict Operation)) (method path : String) (route : Route) (p : Option PathParams)
    → route_request (initialize_router paths) method path ≡ found route p
    → Fewest path route (routes_or_none (lookup method (initialize_router paths)))
unfolding route_request initialize_router
route_request-Fewest paths method path route p h =
    let table = add_paths paths [] in
    Fewest-first_route path route p (routes_or_none (lookup method (sort_each table)))
      (Ordered-table method table) h

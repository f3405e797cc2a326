-- ===== src/Routing/Table.antt =====
-- The routing table and the search in it: initializeRouter and routeRequest (server/server.go).
use Prim.Native.Char.{Char, code}
use Prim.Native.String.{String}
use stripe_mock_pi.Prelude.{
  ℕ, suc, ◌-◌, ◌&&◌, List, [], ◌∷◌, ◌++◌, Option, none, some, Dict, lookup, insert, length, ltb,
  leb, if◌then◌else◌,
}
use stripe_mock_pi.Bytes.{of_byte}
use stripe_mock_pi.Form.{query_unescape}
use stripe_mock_pi.Schema.{Operation}
use stripe_mock_pi.Server.{PathParams, SecondaryId}
use stripe_mock_pi.Routing.{Route, names_of, match_path, route_for}

-- `strings.ToUpper(s)`, on the letters of a verb
abbrev upper : Char → Char
upper c = if leb 97 (code c) && leb (code c) 122 then of_byte (code c - 32) else c

unfoldable pub to_upper : String → String
to_upper String.[] = String.[]
to_upper (String.◌∷◌ c s) = String.◌∷◌ (upper c) (to_upper s)

abbrev pub routes_or_none : Option (List Route) → List Route
routes_or_none none = []
routes_or_none (some routes) = routes

-- `s.routes[verb] = append(s.routes[verb], route)`
abbrev append_route : String → Route → Dict (List Route) → Dict (List Route)
append_route verb route routes =
    insert verb (routes_or_none (lookup verb routes) ++ (route ∷ [])) routes

-- The loop over the verbs of a path.
unfoldable pub add_verbs : String → Dict Operation → Dict (List Route) → Dict (List Route)
unfolding to_upper route_for
add_verbs path [] routes = routes
add_verbs path ((verb, operation) ∷ rest) routes =
    add_verbs path rest (append_route (to_upper verb) (route_for path verb operation) routes)

-- The loop over the paths.
unfoldable pub add_paths : Dict (Dict Operation) → Dict (List Route) → Dict (List Route)
unfolding add_verbs
add_paths [] routes = routes
add_paths ((path, verbs) ∷ rest) routes = add_paths rest (add_verbs path verbs routes)

-- `len(route.pathParamNames)`
abbrev pub parameters : Route → ℕ
parameters route = length (names_of route.segments)

unfoldable pub insert_route : Route → List Route → List Route
insert_route route [] = route ∷ []
insert_route route (first ∷ rest) =
    if leb (parameters route) (parameters first)
    then route ∷ first ∷ rest
    else first ∷ insert_route route rest

-- `sort.Slice` by the number of parameters. It promises no order among the routes with as many; here
-- they keep theirs.
unfoldable pub sort_routes : List Route → List Route
unfolding insert_route
sort_routes [] = []
sort_routes (route ∷ rest) = insert_route route (sort_routes rest)

unfoldable pub sort_each : Dict (List Route) → Dict (List Route)
unfolding sort_routes
sort_each [] = []
sort_each ((verb, routes) ∷ rest) = (verb, sort_routes routes) ∷ sort_each rest

-- initializeRouter: the routing table
unfoldable pub initialize_router : Dict (Dict Operation) → Dict (List Route)
unfolding add_paths sort_each
initialize_router paths = sort_each (add_paths paths [])

-- What routeRequest returns.
pub data Routed : Type 0 where
  not_found : Routed
  bad_parameter : Routed
  found : Route → Option PathParams → Routed

abbrev pub and_text : Option String → Option (List String) → Option (List String)
and_text (some v) (some vs) = some (v ∷ vs)
and_text v vs = none

-- The loop that unescapes the groups.
unfoldable pub unescape_all : List String → Option (List String)
unfolding query_unescape
unescape_all [] = some []
unescape_all (v ∷ vs) = and_text (query_unescape v) (unescape_all vs)

-- The first so many groups with the names of the parameters.
unfoldable pub secondary_ids_of : ℕ → List String → List String → List SecondaryId
secondary_ids_of (suc n) (value ∷ values) (name ∷ names) =
    record { id = value; name = name; replaced_ids = [] } ∷ secondary_ids_of n values names
secondary_ids_of n values names = []

abbrev pub last_of : List String → Option String
last_of [] = none
last_of (v ∷ []) = some v
last_of (v ∷ w ∷ vs) = last_of (w ∷ vs)

-- The ids of a route's path, from its unescaped groups.
unfoldable pub path_params_of : Route → List String → PathParams
unfolding secondary_ids_of
path_params_of route values =
    let count = if route.has_primary_id then parameters route - 1 else parameters route in
    record {
      primary_id = if route.has_primary_id then last_of values else none;
      secondary_ids = secondary_ids_of count values (names_of route.segments);
      replaced_primary_id = none;
    }

unfoldable pub with_values : Route → Option (List String) → Routed
unfolding path_params_of
with_values route none = bad_parameter
with_values route (some values) = found route (some (path_params_of route values))

-- A route that matches.
unfoldable pub routed_to : Route → List String → Routed
unfolding unescape_all with_values
routed_to route values =
    if ltb (parameters route) 1 then found route none else with_values route (unescape_all values)

unfoldable pub at_match : Route → Option (List String) → Routed → Routed
unfolding routed_to
at_match route none later = later
at_match route (some values) later = routed_to route values

-- The loop of routeRequest.
unfoldable pub first_route : String → List Route → Routed
unfolding match_path at_match
first_route path [] = not_found
first_route path (route ∷ rest) =
    at_match route (match_path route.segments path) (first_route path rest)

-- routeRequest
unfoldable pub route_request : Dict (List Route) → (method path : String) → Routed
unfolding first_route
route_request routes method path = first_route path (routes_or_none (lookup method routes))

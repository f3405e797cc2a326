-- ===== src/Tests/Routes.antt =====
-- The theorems on routes.
use stripe_mock_pi.Prelude.{
  ◌≡◌, refl, true, false, not, ◌||◌, List, [], ◌∷◌, some, none, Option, is_some, Dict, leb, lookup,
  All, ◌==◌, if◌then◌else◌, ltb,
}
use stripe_mock_pi.Schema.{Operation}
use stripe_mock_pi.Routing.{Route, route_for, names_of}
use stripe_mock_pi.Routing.Table.{
  found, first_route, route_request, initialize_router, routes_or_none,
}
use stripe_mock_pi.Routing.Order.{Fewest, route_request-Fewest}
use stripe_mock_pi.Routing.Building.{
  parts_for, path_for, FitsPath, ids_of_path, first_route-path_for,
}

abbrev operation : Operation
operation = record { parameters = []; request_body = none; responses = [] }

-- An invoice by its id, and the one that comes next.
abbrev paths : Dict (Dict Operation)
paths =
    ("/v1/invoices/{invoice}", ("get", operation) ∷ [])
    ∷ ("/v1/invoices/upcoming", ("get", operation) ∷ [])
    ∷ []

abbrev upcoming : Route
unfolding route_for
upcoming = route_for "/v1/invoices/upcoming" "get" operation

upcoming-routed :
    route_request (initialize_router paths) "GET" "/v1/invoices/upcoming" ≡ found upcoming none
unfolding route_request lookup initialize_router stripe_mock_pi.Prelude.insert
upcoming-routed = refl

route_request-Fewest_example :
    Fewest "/v1/invoices/upcoming" upcoming
      (routes_or_none (lookup "GET" (initialize_router paths)))
route_request-Fewest_example =
    route_request-Fewest paths "GET" "/v1/invoices/upcoming" upcoming none upcoming-routed

abbrev refund : Route
unfolding route_for
refund = route_for "/v1/fees/{fee}/refunds/{id}" "post" operation

refund-FitsPath : FitsPath (refund.segments) ("fee_1" ∷ "fr_2" ∷ [])
unfolding refund
refund-FitsPath = (refl, (refl, (refl, (refl, (refl, tt)))))

first_route-path_for_example :
    first_route (path_for (parts_for refund.segments ("fee_1" ∷ "fr_2" ∷ []))) (refund ∷ [])
    ≡ found refund (
        some (
          if refund.has_primary_id
          then ids_of_path (some "fr_2") (names_of refund.segments) ("fee_1" ∷ [])
          else ids_of_path none (names_of refund.segments) ("fee_1" ∷ "fr_2" ∷ [])))
first_route-path_for_example =
    first_route-path_for refund [] ("fee_1" ∷ []) "fr_2" refund-FitsPath (refl, (refl, tt))

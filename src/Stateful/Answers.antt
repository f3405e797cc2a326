-- ===== src/Stateful/Answers.antt =====
-- The answers of the stateful layer, with expanded objects (server/paymentintents.go).
use Prim.Native.String.{String}
use stripe_mock_pi.Prelude.{
  Bool, false, ◌&&◌, List, [], ◌∷◌, Option, none, some, ◌==◌, ◌!=◌, is_some, if◌then◌else◌,
}
use stripe_mock_pi.Json.{bool, str, obj, Object, put, get_string}
use stripe_mock_pi.Json.Copy.{deep_copy}
use stripe_mock_pi.Store.{StatefulStore, get_payment_intent, get_charge}
use stripe_mock_pi.Server.{
  PathParams, Response, respond, object, array, status_ok, status_bad_request,
  status_internal_server_error, create_internal_server_error, type_invalid_request_error,
}
use stripe_mock_pi.Expand.{
  ExpansionLevel, level, find_expansion, Extracted, absent, expansions_of, panic,
  extract_expansions,
}

-- The handler leaves the request to the generator, answers it, or panics before it answers.
pub data Outcome : Type 0 where
  falls_through : Outcome
  responds : Response → Outcome
  panics : Outcome

-- The body of an unexpected-state error.
unfoldable pub state_error : (message : String) → Outcome
state_error message = responds (
    respond status_bad_request (
      obj (
        object (
          (
            "error",
            obj (
                object (
                  ("type", str type_invalid_request_error)
                  ∷ ("code", str "payment_intent_unexpected_state")
                  ∷ ("message", str message)
                  ∷ [])),
          )
          ∷ []))))

abbrev pub internal_error : Outcome
internal_error = responds (respond status_internal_server_error create_internal_server_error)

abbrev pub responds_ok : Object → Outcome
responds_ok m = responds (respond status_ok (obj m))

-- Whether the level names `key`.
abbrev pub asks_for : ExpansionLevel → String → Bool
asks_for (level wildcard expansions) key = is_some (find_expansion expansions key)

abbrev expanded_with : Object → String → Option Object → Object
expanded_with m key none = m
expanded_with m key (some linked) = put (deep_copy m) key (obj linked)

-- The object with the one that `key` names in its place, where `expand` asks for it.
abbrev pub expand_with : (String → Option Object) → String → Object → Extracted → Outcome
expand_with read key m absent = responds_ok m
expand_with read key m panic = panics
expand_with read key m (expansions_of wanted) =
    if asks_for wanted key && get_string m key != ""
    then responds_ok (expanded_with m key (read (get_string m key)))
    else responds_ok m

-- expandStatefulPaymentIntent, as the response's body.
unfoldable pub expand_stateful_payment_intent :
    StatefulStore → (session : String) → (pi params : Object) → Outcome
unfolding extract_expansions
expand_stateful_payment_intent s session pi params =
    expand_with (get_charge s session) "latest_charge" pi (extract_expansions params)

-- expandStatefulCharge
unfoldable pub expand_stateful_charge :
    StatefulStore → (session : String) → (charge params : Object) → Outcome
unfolding extract_expansions
expand_stateful_charge s session charge params =
    expand_with (get_payment_intent s session) "payment_intent" charge (extract_expansions params)

-- The charges of a PaymentIntent.
unfoldable pub charges_of : (pi_id : String) → List Object → List Object
charges_of pi_id [] = []
charges_of pi_id (charge ∷ charges) =
    let rest = charges_of pi_id charges in
    if get_string charge "payment_intent" == pi_id then charge ∷ rest else rest

abbrev pub charge_list : List Object → Object
charge_list charges = object (
    ("object", str "list")
    ∷ ("data", array charges)
    ∷ ("has_more", bool false)
    ∷ ("url", str "/v1/charges")
    ∷ [])

-- The primary id of the request's path.
abbrev pub primary_id_of : Option PathParams → Option String
primary_id_of none = none
primary_id_of (some path_params) = path_params.primary_id

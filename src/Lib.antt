-- ===== src/Lib.antt =====
-- A model of stripe-mock with a stateful PaymentIntent layer, and what is proved of it.
--
-- The server answers Stripe's API from fixtures. For a session that has opted in it keeps
-- PaymentIntents, their charges and a queue of events, and moves them through Stripe's lifecycle; a
-- control plane under /v1/_mock/ resets a session, opts it in, seeds intents and drains events.
--
-- Prelude   shared names, Boolean tests, Go maps with string keys, signed integers
-- Text, Bytes, Float   Go's strings functions and conversions to UTF-8, base64, the bit patterns of
--           float64
-- Json      the dynamic values, getString, boolParam (server/paymentintents.go) and deepCopyMap
--           (server/stateful.go)
-- Store     sessionStore and statefulStore (server/stateful.go); each method is one step, since
--           the lock is held for the whole of it
-- Ids       randomID (server/generator.go); the clock and the random numbers are inputs
-- PathIds   the ids of the path in a response: maybeGeneratePrimaryID, recordAndReplaceIDs and
--           distributeReplacedIDs (server/generator.go)
-- Session   sessionID, apiKeyFromAuth (server/stateful.go), validateAuth (server/server.go)
-- Server    the state that handlers pass on, requests, responses and error bodies
-- Expand    extractExpansions and parseExpansionLevel (server/server.go)
-- Intent    what a confirm, capture, cancel and update write (server/paymentintents.go)
-- Transition   recordPaymentIntentTransition, ensureChargeForPI and buildEvent; it writes charges
--           and events to the store
-- Stateful  maybeHandleStatefulRequest and createPaymentIntent: the dispatch of requests to the
--           operations of Intent, whose results Transition records and the store keeps
-- Control   handleControlRequest (server/control.go) and mergeMap (server/stateful.go)
-- Options   checkConflictingOptions and the choice of listeners (main.go)
-- Schema    schemas and operations (spec/spec.go), BuildQuerySchema (spec/query.go) and the
--           translation to JSON Schema (spec/validate.go)
-- Replace   DataReplacer (generator/datareplacer/datareplacer.go), which writes the data of a request
--           into a generated response
-- Synthetic   the kinds of resources and generateSyntheticFixture (server/generator.go)
-- Generate  generateInternal, list and search resources and Generate (server/generator.go), which
--           end in PathIds and Replace, and generateResourceBase (server/control.go)
-- Form      ParseFormString (param/parser/parser.go)
-- Params    AssembleParams (param/nestedtypeassembler/nestedtypeassembler.go)
-- Coerce    CoerceParams and its helpers (param/coercer/coercer.go), over Schema
-- Routing   compilePath, the routing table and routeRequest (server/server.go)
-- Http      ParseParams (param/param.go), which passes a form to Params, validateAndCoerceRequest and
--           HandleRequest (server/server.go): a request goes to Control, or past the guards on its
--           headers, Routing, Form and Coerce to Stateful and then to Generate
-- Tests     the theorems at concrete inputs
--
-- A map that Go mutates in place is returned by the function here; where a caller reads a map again
-- that was changed in place, as in Coerce, what it has become is returned beside the result. A Go
-- string is a text whose characters stand for its bytes, so that base64 may give characters above 127
-- that are bytes. The loops over maps visit the entries in their order; a theorem says so where it
-- does not depend on it. In Stateful and Control the generation of a resource's base is a parameter,
-- for which Generate has the definition. A generated object may share a map with the fixtures, which
-- mergeMap and recordAndReplaceIDs then change for every session: the model has values in the place
-- of maps, so that nothing is claimed here of what a request leaves of other sessions' objects; the
-- claims on sessions are on the store's own operations. The literal parts of a path are taken to
-- hold no character that is special in a regular expression. The JSON decoder's reading of a body,
-- multipart forms, the JSON Schema validator, strconv.ParseFloat and the texts of library errors are
-- inputs.
--
-- Fuel: parseExpansionLevel has the length of the expansions, which is more than any has dots.
-- isSameType, generateSyntheticFixture and generateInternal follow references between schemas, which
-- need not end: each call takes a unit, and where none is left the outcome says so. For isSameType a
-- ranking of the references gives the fuel; for the other two the specification's own nesting does.
-- Every other recursion is structural.
--
-- Not modelled: the decoding of the specification and the fixtures from JSON, the headers and the
-- encoding of responses, the fix for double slashes, logging, loading of files, sockets and TLS.
pub mod Prelude
pub mod Text
pub mod Float
pub mod Json
pub mod Store
pub mod Bytes
pub mod Ids
pub mod Session
pub mod Server
pub mod Expand
pub mod Intent
pub mod Transition
pub mod Stateful
pub mod Control
pub mod Options
pub mod Params
pub mod Coerce
pub mod Form
pub mod Schema
pub mod Replace
pub mod PathIds
pub mod Synthetic
pub mod Generate
pub mod Routing
pub mod Http
pub mod Tests

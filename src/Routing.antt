-- ===== src/Routing.antt =====
-- The routes of the server: compilePath, the routing table of initializeRouter, routeRequest and
-- getRequestBodySchema (server/server.go). The regular expression of a path is its list of segments;
-- the literal parts of the specification's paths have no character that is special in one. The paths
-- and their verbs are visited in the order of their entries.
pub mod Table
pub mod Order
pub mod Building
use Prim.Native.Char.{Char, code}
use Prim.Native.String.{String, [], ◌∷◌}
use stripe_mock_pi.Prelude.{
  ℕ, zero, suc, ◌-◌, Bool, true, false, not, ◌&&◌, ◌||◌, List, Option, none, some, Dict, lookup,
  insert, length, ltb, leb, nat_eq, ◌==◌, ◌!=◌, if◌then◌else◌,
}
use stripe_mock_pi.Text.{split, has_suffix}
use stripe_mock_pi.Form.{query_unescape}
use stripe_mock_pi.Schema
use stripe_mock_pi.Schema.{Schema, Pointer, to, Operation, Content, build_query_schema}
use stripe_mock_pi.Server.{PathParams, SecondaryId}

-- `\w`
abbrev pub is_word : ℕ → Bool
is_word c =
    (leb 48 c && leb c 57) || ((leb 65 c && leb c 90) || ((leb 97 c && leb c 122) || nat_eq c 95))

-- `[\w@:%-._~!$&'()*+,;=]`, where `%-.` is the range from 37 to 46.
abbrev pub is_allowed : ℕ → Bool
is_allowed c =
    is_word c
    || ((leb 37 c && leb c 46)
        || (nat_eq c 64
            || (nat_eq c 58
                || (nat_eq c 126
                    || (nat_eq c 33 || (nat_eq c 36 || (nat_eq c 59 || nat_eq c 61)))))))

-- The characters of a text behind its first are all allowed.
abbrev pub all_allowed : String → Bool
all_allowed [] = true
all_allowed (c ∷ s) = is_allowed (code c) && all_allowed s

abbrev pub is_parameter_value : String → Bool
is_parameter_value [] = false
is_parameter_value (c ∷ s) = all_allowed (c ∷ s)

-- A part of a compiled path: a literal, or a parameter with its name.
pub data Segment : Type 0 where
  literal : String → Segment
  parameter : (name : String) → Segment

abbrev more_name : Char → Option String → Option String
more_name c none = none
more_name c (some name) = some (c ∷ name)

-- What stands before a closing bracket, of word characters only.
unfoldable pub closed_name : String → Option String
closed_name [] = none
closed_name (c ∷ s) =
    let rest = more_name c (closed_name s) in
    if nat_eq (code c) 125 then some [] else (if is_word (code c) then rest else none)

abbrev name_or : Option String → Option String → Option String
name_or (some (c ∷ name)) later = some (c ∷ name)
name_or found later = later

-- The first match of `\{(\w+)\}`
unfoldable pub parameter_name : String → Option String
unfolding closed_name
parameter_name [] = none
parameter_name (c ∷ s) =
    let later = parameter_name s in
    if nat_eq (code c) 123 then name_or (closed_name s) later else later

abbrev segment_of : String → Option String → Segment
segment_of part none = literal part
segment_of part (some name) = parameter name

-- The loop of compilePath.
unfoldable pub compile_parts : List String → List Segment
unfolding parameter_name
compile_parts List.[] = List.[]
compile_parts (List.◌∷◌ part parts) =
    let rest = compile_parts parts in
    if part == "" then rest else List.◌∷◌ (segment_of part (parameter_name part)) rest

-- compilePath: the pattern, whose parameters are the names that it also returns. 47 is the slash. A
-- literal part is taken as the regular expression that matches itself alone, which it is where it
-- holds no special character, as in Stripe's specification; other patterns are outside of the model.
unfoldable pub compile_path : String → List Segment
unfolding compile_parts split
compile_path path = compile_parts (split 47 path)

-- `pathParamNames`
abbrev pub names_of : List Segment → List String
names_of List.[] = List.[]
names_of (List.◌∷◌ (literal part) rest) = names_of rest
names_of (List.◌∷◌ (parameter name) rest) = List.◌∷◌ name (names_of rest)

abbrev pub and_value : String → Option (List String) → Option (List String)
and_value v none = none
and_value v (some vs) = some (List.◌∷◌ v vs)

-- The parts of a path against the segments: the values of the parameters.
unfoldable pub match_parts : List Segment → List String → Option (List String)
match_parts List.[] List.[] = some List.[]
match_parts List.[] (List.◌∷◌ part parts) = none
match_parts (List.◌∷◌ segment segments) List.[] = none
match_parts (List.◌∷◌ (literal text) segments) (List.◌∷◌ part parts) =
    if part == text then match_parts segments parts else none
match_parts (List.◌∷◌ (parameter name) segments) (List.◌∷◌ part parts) =
    let rest = and_value part (match_parts segments parts) in
    if is_parameter_value part then rest else none

abbrev pub behind_slash : List Segment → List String → Option (List String)
unfolding match_parts
behind_slash segments List.[] = none
behind_slash segments (List.◌∷◌ first parts) =
    if first == "" then match_parts segments parts else none

-- `pattern.FindAllStringSubmatch(path, -1)`: the groups of its only match.
unfoldable pub match_path : List Segment → String → Option (List String)
unfolding behind_slash split
match_path segments path = behind_slash segments (split 47 path)

-- stubServerRoute, less the validator
pub record Route : Type 0 where
  pub has_primary_id : Bool
  pub operation : Operation
  pub segments : List Segment
  pub request_media_type : Option String
  pub request_schema : Pointer

-- hasPrimaryIDSuffixes
abbrev pub has_primary_id_suffixes : List String
has_primary_id_suffixes = List.◌∷◌ "}" (
    List.◌∷◌ "/accept" (
      List.◌∷◌ "/approve" (
        List.◌∷◌ "/attach" (
          List.◌∷◌ "/capture" (
            List.◌∷◌ "/cancel" (
              List.◌∷◌ "/close" (
                List.◌∷◌ "/confirm" (
                  List.◌∷◌ "/decline" (
                    List.◌∷◌ "/detach" (
                      List.◌∷◌ "/finalize" (
                        List.◌∷◌ "/mark_uncollectible" (
                          List.◌∷◌ "/pay" (
                            List.◌∷◌ "/preview" (
                              List.◌∷◌ "/refund" (
                                List.◌∷◌ "/reject" (
                                  List.◌∷◌ "/release" (
                                    List.◌∷◌ "/send" (
                                      List.◌∷◌ "/submit" (
                                        List.◌∷◌ "/verify" (
                                          List.◌∷◌ "/verify_microdeposits"
                                            (List.◌∷◌ "/void" List.[])))))))))))))))))))))

-- The loop over the suffixes.
unfoldable pub ends_in_any : String → List String → Bool
unfolding has_suffix
ends_in_any path List.[] = false
ends_in_any path (List.◌∷◌ suffix rest) = has_suffix path suffix || ends_in_any path rest

abbrev first_content : Content → Option String × Pointer
first_content List.[] = (none, Pointer.nil)
first_content (List.◌∷◌ (media_type, s) rest) = (some media_type, s)

-- getRequestBodySchema
unfoldable pub get_request_body_schema : Operation → Option String × Pointer
get_request_body_schema operation = of_body operation.request_body
  where
    of_body : Option Content → Option String × Pointer
    of_body none = (none, Pointer.nil)
    of_body (some content) = first_content content

abbrev route_schema : String → Operation → Option String × Pointer
unfolding get_request_body_schema build_query_schema
route_schema verb operation =
    if verb == "get"
    then (none, to (build_query_schema operation))
    else get_request_body_schema operation

-- The route of an operation, in the loop of initializeRouter.
unfoldable pub route_for : (path verb : String) → Operation → Route
unfolding compile_path ends_in_any route_schema
route_for path verb operation =
    let (media_type, s) = route_schema verb operation in
    record {
      has_primary_id = ends_in_any path has_primary_id_suffixes;
      operation = operation;
      segments = compile_path path;
      request_media_type = media_type;
      request_schema = s;
    }

-- ===== src/Options/Conflicts.antt =====
-- What checkConflictingOptions (main.go) lets through.
use stripe_mock_pi.Prelude.{
  ℕ, ◌+◌, ◌≡◌, Bool, true, ◌&&◌, ◌||◌, List, [], ◌∷◌, none, some, if◌then◌else◌, ◌==◌, ◌!=◌, arith,
  leb, ltb, not, ◌↔◌,
}
use stripe_mock_pi.Options.{Conflict, Options, check_conflicting_options, count, given}

-- How many of some options are given.
abbrev pub how_many : List Bool → ℕ
how_many [] = 0
how_many (b ∷ bs) = count b + how_many bs

abbrev pub general : Options → List Bool
general o = given o.port ∷ (o.unix_socket != "") ∷ []

abbrev pub for_http : Options → List Bool
for_http o = (o.http_addr != "") ∷ given o.http_port ∷ (o.http_unix_socket != "") ∷ []

abbrev pub for_https : Options → List Bool
for_https o = (o.https_addr != "") ∷ given o.https_port ∷ (o.https_unix_socket != "") ∷ []

-- What the messages of the checks ask for: at most one option of each group, where the flag of a
-- protocol counts in its group, and a general option only where no protocol has one of its own.
abbrev pub allowed : Options → Bool
allowed o =
    leb (how_many (general o)) 1
    && (leb (how_many (o.http ∷ for_http o)) 1
        && (leb (how_many (o.https ∷ for_https o)) 1
            && (leb (how_many (general o)) 0
                || leb (how_many (for_http o) + how_many (for_https o)) 0)))

one_in_group :
    (flag addr port unix : Bool)
    → leb (how_many (flag ∷ addr ∷ port ∷ unix ∷ [])) 1 ≡ (
        not (flag && (unix || (addr || port)))
        && not (ltb 1 (count unix + (count addr + count port))))
one_in_group flag addr port unix = ground arith

one_general : (port unix : Bool) → leb (how_many (port ∷ unix ∷ [])) 1 ≡ not (unix && port)
one_general port unix = ground arith

no_general : (port unix : Bool) → leb (how_many (port ∷ unix ∷ [])) 0 ≡ not (unix || port)
no_general port unix = ground arith

unless_general :
    (blank port unix : Bool)
    → (blank || leb (how_many (port ∷ unix ∷ [])) 0) ≡ true
    → (not (not blank) || not (unix || port)) ≡ true
unless_general blank port unix h = ground arith

none_in_groups :
    (a p u a' p' u' : Bool)
    → leb (how_many (a ∷ p ∷ u ∷ []) + how_many (a' ∷ p' ∷ u' ∷ [])) 0
      ≡ (not (u || (a || p)) && not (u' || (a' || p')))
none_in_groups a p u a' p' u' = ground arith

-- The checks in their order, by what each of them looks at.
checks :
    (any both http https hu ha hp su sa sp two_http two_https : Bool)
    (x₁ x₂ x₃ x₄ x₅ x₆ x₇ : Conflict)
    → (not sa || not any) ≡ true
    → ((if both
          then some x₁
          else if http && (hu || (ha || hp))
          then some x₂
          else if any && (hu || (ha || hp))
          then some x₃
          else if two_http
          then some x₄
          else if https && (su || (sa || sp))
          then some x₅
          else if any && (su || (ha || sp))
          then some x₆
          else if two_https
          then some x₇
          else none)
        ≡ none)
      ↔ (not both
          && ((not (http && (hu || (ha || hp))) && not two_http)
              && ((not (https && (su || (sa || sp))) && not two_https)
                  && (not any || (not (hu || (ha || hp)) && not (su || (sa || sp)))))))
        ≡ true
checks any both http https hu ha hp su sa sp two_http two_https x₁ x₂ x₃ x₄ x₅ x₆ x₇ h =
    ground arith

-- For options without `-https-addr`, or with neither `-port` nor `-unix`: they are accepted exactly
-- where at most one of `-port` and `-unix` is given, for each protocol at most one of its flag,
-- address, port and socket, and `-port` or `-unix` only where no protocol has an address, a port or
-- a socket.
pub check-allowed :
    (o : Options)
    → (o.https_addr == "" || leb (how_many (general o)) 0) ≡ true
    → (check_conflicting_options o ≡ none) ↔ (allowed o ≡ true)
unfolding check_conflicting_options
check-allowed o h =
    let a = o.http_addr != "" in
    let p = given o.http_port in
    let u = o.http_unix_socket != "" in
    let a' = o.https_addr != "" in
    let p' = given o.https_port in
    let u' = o.https_unix_socket != "" in
    rw
      (
        one_in_group o.http a p u,
        one_in_group o.https a' p' u',
        one_general (given o.port) (o.unix_socket != ""),
        no_general (given o.port) (o.unix_socket != ""),
        none_in_groups a p u a' p' u',
      )
      (checks (o.unix_socket != "" || given o.port) (o.unix_socket != "" && given o.port) o.http
        o.https u a p u' a' p' _ _ _ _ _ _ _ _ _
        (unless_general (o.https_addr == "") (given o.port) (o.unix_socket != "") h))

-- ===== src/Session/Keys.antt =====
-- sessionID on a header with an API key (server/stateful.go).
use Prim.Native.String.{String}
use text.Mathlib.TextLemmas.{nil-append, cons-append}
use stripe_mock_pi.Prelude.{◌≡◌, ◌≢◌, true, ◌==◌, eq_iff, Bool-cases, inl, inr, List}
use stripe_mock_pi.Text.Split.{without, split-without}
use stripe_mock_pi.Text.{split, ◌<>◌}
use stripe_mock_pi.Session.{session_id, api_key_from_auth, mock_session_header}

-- The scheme and the credentials of a header.
split-bearer :
    (key : String)
    → without 32 key ≡ true
    → split 32 ("Bearer " <> key) ≡ List.◌∷◌ "Bearer" (List.◌∷◌ key List.[])
unfolding split
split-bearer key h =
    rw
      (
        cons-append, cons-append, cons-append, cons-append, cons-append, cons-append, cons-append,
        nil-append,
      )
      (rw (split-without 32 key h))

-- A key without spaces in the Bearer form names the session where no session header does.
pub session_id-bearer :
    (header : String → String) (key : String)
    → header mock_session_header ≡ ""
    → header "Authorization" ≡ "Bearer " <> key
    → key ≢ ""
    → without 32 key ≡ true
    → session_id header ≡ key
unfolding session_id api_key_from_auth
session_id-bearer header key no_session auth named spaceless = elim (Bool-cases (key == "")) [
  | inl empty ↦ absurd (named ((eq_iff key "").0 empty))
  | inr given ↦ rw (no_session) (rw auth (rw (split-bearer key spaceless) (rw given (rw given))))
]

-- ===== src/Tests/Security.antt =====
-- Tests and instances for engine/security.py. A token is its payload, and a hash its text.
use comfyui_engine.Prelude.{
  ℕ, ◌≡◌, ◌≤◌, max, ◌-◌, refl, false, none, some, List, [], ◌∷◌, String, if◌then◌else◌, ltb, leb,
  ◌&&◌, length, keep, str_eq, arith, ◌≢◌, lookup, Dict,
}
use text.Mathlib.TextPositions.{eq_refl}
use comfyui_engine.Security.Roles.{admin, user}
use comfyui_engine.Security.Tokens.{
  Payload, is_current, refuses, accepts, raises, access, refresh, Jwt, Tokens, create_access_token,
  create_refresh_token, verify_access_token, refresh_access_token, revoke_all_user_tokens,
  is_revoked,
}
use comfyui_engine.Security.Validity.{verify-create_access_token, verify-revoke_all_user_tokens}
use comfyui_engine.Security.Rotation.{creates, revokes_all, run, refresh_once}
use comfyui_engine.Security.RateLimit.{Limiter, in_window, is_allowed}
use comfyui_engine.Security.Window.{granted, granted_lem}
use comfyui_engine.Security.Users.{Hasher, User, authenticate, revoke_api_key, verify_api_key}
use comfyui_engine.Security.Lockout.{Attempt, tested, tested_lem}

abbrev plain_jwt : Jwt Payload
plain_jwt = record {
  encode = λ p. p;
  decode = λ now p. if is_current now p then some p else none;
  decode-encode = λ now p. refl;
}

abbrev plain_hasher : Hasher
plain_hasher = record { hash = λ s. s; verify = λ s h. str_eq s h; verify-hash = λ s. eq_refl s }

abbrev no_tokens : Tokens Payload
no_tokens = record {
  access_token_ttl = 900;
  refresh_token_ttl = 604800;
  refresh_tokens = [];
  revoked_tokens = [];
}

abbrev one_session : Tokens Payload
one_session = (create_refresh_token plain_jwt 10 "r1" "ann" "a1" no_tokens).0

abbrev refresh_payload : Payload
refresh_payload = record { sub = "ann"; iat = 10; exp = 604810; jti = "r1"; claims = refresh "a1" }

abbrev access_payload : Payload
access_payload = record { sub = "ann"; iat = 10; exp = 910; jti = "a1"; claims = access "user" [] }

verify-create_access_token_example :
    verify_access_token plain_jwt 500
      (create_access_token plain_jwt 10 "a1" "ann" admin no_tokens).token
      one_session
    ≡ (if leb 10 500 && ltb 500 910
        then (if is_revoked "a1" one_session
            then refuses
            else accepts (create_access_token plain_jwt 10 "a1" "ann" admin no_tokens))
        else refuses)
verify-create_access_token_example =
    verify-create_access_token plain_jwt 10 500 "a1" "ann" admin no_tokens one_session

-- A role that does not exist raises.
unknown_role_raises :
    verify_access_token plain_jwt 500
      (record access_payload { claims = access "root" [] })
      one_session
    ≡ raises
unfolding verify_access_token create_refresh_token
unknown_role_raises = refl

verify-revoke_all_user_tokens_example :
    verify_access_token plain_jwt 500 access_payload (revoke_all_user_tokens "ann" one_session).0
    ≡ verify_access_token plain_jwt 500 access_payload one_session
unfolding create_refresh_token lookup
verify-revoke_all_user_tokens_example =
    verify-revoke_all_user_tokens plain_jwt 500 access_payload "ann" one_session refl

-- The first refresh gives tokens, and a refresh token of an admin gives those of a user.
refresh_gives_user :
    (refresh_access_token plain_jwt 20 "a2" "r2" refresh_payload one_session).1
    ≡ some (
      create_access_token plain_jwt 20 "a2" "ann" user no_tokens,
      (create_refresh_token plain_jwt 20 "r2" "ann" "a2" no_tokens).1,
    )
unfolding refresh_access_token create_refresh_token create_access_token
refresh_gives_user = refl

refreshes_once : (refresh_access_token plain_jwt 20 "a2" "r2" refresh_payload one_session).1 ≢ none
unfolding refresh_access_token create_refresh_token
refreshes_once = ground arith

refresh_once_example :
    (refresh_access_token plain_jwt 40 "a4" "r4" refresh_payload (
      run plain_jwt
        (revokes_all "bob" ∷ creates 30 "r3" "ann" "a3" ∷ [])
        (refresh_access_token plain_jwt 20 "a2" "r2" refresh_payload one_session).0)).1
    ≡ none
refresh_once_example =
    refresh_once plain_jwt refresh_payload 20 40 "a2" "r2" "a4" "r4"
      (revokes_all "bob" ∷ creates 30 "r3" "ann" "a3" ∷ []) one_session refl (tt, (refl, tt))
      refreshes_once

abbrev two_a_minute : Limiter
two_a_minute = record { window_size = 60; max_requests = 2; requests = [] }

abbrev burst : List (String × ℕ)
burst = ("ann", 1) ∷ ("bob", 2) ∷ ("ann", 3) ∷ ("ann", 4) ∷ ("ann", 62) ∷ []

three_of_five : granted "ann" burst two_a_minute ≡ 1 ∷ 3 ∷ 62 ∷ []
unfolding granted
three_of_five = refl

granted_lem_example : length (keep (in_window 60 62) (granted "ann" burst two_a_minute)) ≤ 2
granted_lem_example =
    granted_lem "ann" 62 burst two_a_minute (omega arith) refl
      (omega arith, (omega arith, (omega arith, (omega arith, (omega arith, omega arith)))))

-- A limit of no requests raises an error at the first request.
no_requests_raise : (is_allowed 5 "ann" (record two_a_minute { max_requests = 0 })).1 ≡ none
unfolding is_allowed
no_requests_raise = refl

abbrev ann : User
ann = record {
  user_id = "u1";
  username = "ann";
  email = "";
  role = user;
  is_active = false;
  last_login = none;
  failed_login_attempts = 3;
  locked_until = none;
  password_hash = "secret";
  api_keys = [];
  ip_allowlist = [];
}

abbrev guesses : List Attempt
guesses = (1, "a", none) ∷ (2, "b", none) ∷ (3, "c", none) ∷ (4, "d", none) ∷ []

two_of_four : tested plain_hasher guesses ann ≡ 2
unfolding tested
two_of_four = refl

tested_lem_example : tested plain_hasher guesses ann ≤ max 1 (5 - 3)
tested_lem_example = tested_lem plain_hasher 1 guesses ann (
  (omega arith, omega arith, refl),
  (
    (omega arith, omega arith, refl),
    ((omega arith, omega arith, refl), ((omega arith, omega arith, refl), tt)),
  ),
)

-- A user that is not active logs in.
inactive_logs_in :
    (authenticate plain_hasher 9 "ann" "secret" none (("u1", ann) ∷ [])).1
    ≡ some (record ann { failed_login_attempts = 0; last_login = some 9 })
unfolding authenticate
inactive_logs_in = refl

-- A revoked API key is still accepted.
abbrev with_key : Dict User
with_key = ("u1", record ann { api_keys = "k1" ∷ [] }) ∷ []

revoked_key_is_accepted :
    verify_api_key plain_hasher "k1" (revoke_api_key "u1" "k1" with_key).0
    ≡ some (record ann { api_keys = "k1" ∷ [] })
unfolding verify_api_key revoke_api_key
revoked_key_is_accepted = refl

-- ===== src/Security/Validity.antt =====
-- When an access token is accepted.
use comfyui_engine.Prelude.{
  ℕ, ◌+◌, ◌≡◌, refl, ap, ◌&&◌, leb, inl, inr, ◌∙◌, arith, false, none, List, [], ◌∷◌, String, ltb,
  str_eq, any, if◌then◌else◌, Dict, lookup, Bool-cases,
}
use comfyui_engine.Security.Roles.{
  Role, Permission, role_permissions, role_value, role_of, permission_values, permissions_of,
  role_of-role_value, permissions_of-permission_values,
}
use comfyui_engine.Security.Tokens.{
  Claims, access, refresh, Payload, is_current, refuses, accepts, build_access, Jwt, RefreshToken,
  Tokens, is_revoked, create_access_token, accept_access, verify_access_token, revoke_each, add_ids,
  revoke_all_user_tokens,
}

build_access-values :
    {T : Type 0} (token : T) (p : Payload) (role : Role) (ps : List Permission)
    → build_access token p (role_of (role_value role)) (permissions_of (permission_values ps))
      ≡ accepts (record {
        token = token;
        user_id = p.sub;
        role = role;
        permissions = ps;
        issued_at = p.iat;
        expires_at = p.exp;
        jti = p.jti;
      })
build_access-values token p role ps =
    rw (role_of-role_value role, permissions_of-permission_values ps) refl

module _ {T : Type 0} (jwt : Jwt T) where
  verify-encode :
      (now : ℕ) (p : Payload) (t : Tokens T)
      → verify_access_token jwt now (jwt.encode p) t
        ≡ (if is_current now p then accept_access (jwt.encode p) p p.claims t else refuses)
  unfolding verify_access_token
  verify-encode now p t = elim (Bool-cases (is_current now p)) [
    | inl e ↦ rw (verify_access_token, jwt.decode-encode now p, e) refl
    | inr e ↦ rw (verify_access_token, jwt.decode-encode now p, e) refl
  ]

  -- An access token that was created for a user is accepted, as the same token with the same user,
  -- role and permissions, from its creation until it expires or its id is revoked, and refused at all
  -- other times, in any state of the manager; verifying it never raises.
  pub verify-create_access_token :
      (now later : ℕ) (jti user_id : String) (role : Role) (t u : Tokens T)
      → verify_access_token jwt later (create_access_token jwt now jti user_id role t).token u ≡ (
          if leb now later && ltb later (now + t.access_token_ttl)
          then (if is_revoked jti u
              then refuses
              else accepts (create_access_token jwt now jti user_id role t))
          else refuses)
  unfolding create_access_token accept_access
  verify-create_access_token now later jti user_id role t u =
      let p : Payload = record {
        sub = user_id;
        iat = now;
        exp = now + t.access_token_ttl;
        jti = jti;
        claims = access (role_value role) (permission_values (role_permissions role));
      } in
      verify-encode later p u
      ∙ ap (λ v. if is_current later p then (if is_revoked jti u then refuses else v) else refuses)
          (build_access-values (jwt.encode p) p role (role_permissions role))

is_revoked_of-add_ids :
    (j : String) (ids rs : List String)
    → any (λ r. str_eq r j) ids ≡ false
    → any (λ r. str_eq r j) (add_ids ids rs) ≡ any (λ r. str_eq r j) rs
unfolding add_ids
is_revoked_of-add_ids j [] rs h = refl
is_revoked_of-add_ids j (i ∷ ids) rs h =
    is_revoked_of-add_ids j ids (i ∷ rs) (ground (arith, h)) ∙ ground (arith, h)

module _ {T : Type 0} where
  accept_access_same :
      (token : T) (p : Payload) (c : Claims) (t u : Tokens T)
      → is_revoked p.jti t ≡ is_revoked p.jti u
      → accept_access token p c t ≡ accept_access token p c u
  unfolding accept_access
  accept_access_same token p (access role ps) t u e = rw e refl
  accept_access_same token p (refresh a) t u e = refl

  ids_of-revoke_each :
      (j user_id : String) (d : Dict (RefreshToken T))
      → lookup j d ≡ none
      → any (λ r. str_eq r j) (revoke_each user_id d).1 ≡ false
  unfolding revoke_each lookup
  ids_of-revoke_each j user_id [] h = refl
  ids_of-revoke_each j user_id ((k, r) ∷ d) h = ground (arith, h, ids_of-revoke_each j user_id d)

module _ {T : Type 0} (jwt : Jwt T) where
  -- `revoke_all_user_tokens`, which a change of password calls, leaves access tokens as valid as
  -- they were: a token whose id is not that of a refresh token is verified with the same result
  -- before and after, whoever its user is.
  pub verify-revoke_all_user_tokens :
      (now : ℕ) (p : Payload) (user_id : String) (t : Tokens T)
      → lookup p.jti t.refresh_tokens ≡ none
      → verify_access_token jwt now (jwt.encode p) (revoke_all_user_tokens user_id t).0
        ≡ verify_access_token jwt now (jwt.encode p) t
  unfolding revoke_all_user_tokens is_revoked
  verify-revoke_all_user_tokens now p user_id t h =
      rw
        (
          verify-encode jwt now p (revoke_all_user_tokens user_id t).0,
          verify-encode jwt now p t,
          accept_access_same (jwt.encode p) p p.claims (revoke_all_user_tokens user_id t).0 t (
              is_revoked_of-add_ids p.jti (revoke_each user_id t.refresh_tokens).1 t.revoked_tokens
                (ids_of-revoke_each p.jti user_id t.refresh_tokens h)),
        )
        refl

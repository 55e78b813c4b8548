-- ===== src/Security/Tokens.antt =====
-- engine/security.py: TokenManager. JWT is the interface `Jwt`; token ids, which the code draws at
-- random, are arguments; `T` is the type of encoded tokens. Times are whole seconds. The lock makes
-- the code under it one step. IP address and user agent, which are only passed on, are left out.
use comfyui_engine.Prelude.{
  ℕ, ◌+◌, ◌≡◌, Bool, true, false, Option, none, some, List, [], ◌∷◌, String, ltb, leb, ◌&&◌, str_eq,
  any, if◌then◌else◌, Dict, lookup, insert,
}
use comfyui_engine.Security.Roles.{
  Role, user, Permission, role_permissions, role_value, role_of, permission_values, permissions_of,
}

-- The payload of a token: of an access token with the values of the role and of its permissions, or
-- of a refresh token with the id of its access token.
pub data Claims : Type 0 where
  access : String → List String → Claims
  refresh : String → Claims

pub record Payload : Type 0 where
  pub sub : String
  pub iat : ℕ
  pub exp : ℕ
  pub jti : String
  pub claims : Claims

-- Not issued later and not expired.
abbrev pub is_current : ℕ → Payload → Bool
is_current now p = leb p.iat now && ltb now p.exp

-- jwt.encode and jwt.decode with the secret key, as documented: what was encoded is decoded from the
-- time it was issued (before, `ImmatureSignatureError` is raised) until it expires
-- (`ExpiredSignatureError`); both errors are an `InvalidTokenError`, here none.
pub record Jwt (T : Type 0) : Type 0 where
  pub encode : Payload → T
  pub decode : ℕ → T → Option Payload
  pub decode-encode :
      (now : ℕ) (p : Payload) → decode now (encode p) ≡ (if is_current now p then some p else none)

pub record AccessToken (T : Type 0) : Type 0 where
  pub token : T
  pub user_id : String
  pub role : Role
  pub permissions : List Permission
  pub issued_at : ℕ
  pub expires_at : ℕ
  pub jti : String

pub record RefreshToken (T : Type 0) : Type 0 where
  pub token : T
  pub user_id : String
  pub jti : String
  pub access_token_jti : String
  pub issued_at : ℕ
  pub expires_at : ℕ
  pub revoked : Bool

pub record Tokens (T : Type 0) : Type 0 where
  pub access_token_ttl : ℕ
  pub refresh_token_ttl : ℕ
  pub refresh_tokens : Dict (RefreshToken T)
  pub revoked_tokens : List String

unfoldable pub add_ids : List String → List String → List String
add_ids [] revoked = revoked
add_ids (jti ∷ jtis) revoked = add_ids jtis (jti ∷ revoked)

-- What `verify_access_token` does: it returns None or a token, or raises.
pub data Verdict (T : Type 0) : Type 0 where
  refuses : Verdict T
  accepts : AccessToken T → Verdict T
  raises : Verdict T

module _ {T : Type 0} where
  unfoldable pub is_revoked : String → Tokens T → Bool
  is_revoked jti t = any (λ r. str_eq r jti) t.revoked_tokens

  unfoldable pub set_revoked : RefreshToken T → RefreshToken T
  set_revoked r = record r { revoked = true }

  unfoldable pub token_revoked : Option (RefreshToken T) → Bool
  token_revoked none = true
  token_revoked (some r) = r.revoked

  -- The `AccessToken` that is built from a payload; `Role(...)` or `Permission(...)` may raise
  -- `ValueError`, which is not caught.
  abbrev pub build_access : T → Payload → Option Role → Option (List Permission) → Verdict T
  build_access token p none ps = raises
  build_access token p (some role) none = raises
  build_access token p (some role) (some permissions) = accepts (record {
    token = token;
    user_id = p.sub;
    role = role;
    permissions = permissions;
    issued_at = p.iat;
    expires_at = p.exp;
    jti = p.jti;
  })

  unfoldable pub accept_access : T → Payload → Claims → Tokens T → Verdict T
  unfolding is_revoked role_of permissions_of
  accept_access token p (refresh a) t = refuses
  accept_access token p (access role permissions) t =
      if is_revoked p.jti t
      then refuses
      else build_access token p (role_of role) (permissions_of permissions)

  -- The step of `refresh_access_token` under the lock: the old tokens are revoked.
  unfoldable pub rotate : String → RefreshToken T → Tokens T → Tokens T
  unfolding set_revoked insert
  rotate jti r t = record t {
    refresh_tokens = insert jti (set_revoked r) t.refresh_tokens;
    revoked_tokens = r.access_token_jti ∷ jti ∷ t.revoked_tokens;
  }

module _ {T : Type 0} (jwt : Jwt T) where
  unfoldable pub create_access_token : ℕ → String → String → Role → Tokens T → AccessToken T
  unfolding role_permissions role_value permission_values
  create_access_token now jti user_id role t = record {
    token = jwt.encode (record {
      sub = user_id;
      iat = now;
      exp = now + t.access_token_ttl;
      jti = jti;
      claims = access (role_value role) (permission_values (role_permissions role));
    });
    user_id = user_id;
    role = role;
    permissions = role_permissions role;
    issued_at = now;
    expires_at = now + t.access_token_ttl;
    jti = jti;
  }

  unfoldable pub new_refresh_token : ℕ → String → String → String → Tokens T → RefreshToken T
  new_refresh_token now jti user_id access_jti t = record {
    token = jwt.encode (record {
      sub = user_id;
      iat = now;
      exp = now + t.refresh_token_ttl;
      jti = jti;
      claims = refresh access_jti;
    });
    user_id = user_id;
    jti = jti;
    access_token_jti = access_jti;
    issued_at = now;
    expires_at = now + t.refresh_token_ttl;
    revoked = false;
  }

  unfoldable pub create_refresh_token :
      ℕ → String → String → String → Tokens T → Tokens T × RefreshToken T
  unfolding new_refresh_token insert
  create_refresh_token now jti user_id access_jti t = (
    record t {
      refresh_tokens = insert jti (new_refresh_token now jti user_id access_jti t) t.refresh_tokens;
    },
    new_refresh_token now jti user_id access_jti t,
  )

  unfoldable pub verify_access_token : ℕ → T → Tokens T → Verdict T
  unfolding accept_access
  verify_access_token now token t = elim (jwt.decode now token) [
    | none ↦ refuses
    | some p ↦ accept_access token p p.claims t
  ]

  -- The new tokens, with the ids of the access token and of the refresh token. The code builds a
  -- user of the default role.
  unfoldable pub renew :
      ℕ → String → String → String → Tokens T → Tokens T × Option (AccessToken T × RefreshToken T)
  unfolding create_access_token create_refresh_token
  renew now access_jti refresh_jti sub t =
      let r = create_refresh_token now refresh_jti sub access_jti t in
      (r.0, some (create_access_token now access_jti sub user t, r.1))

  unfoldable pub accept_refresh :
      ℕ
      → String
      → String
      → Payload
      → Claims
      → Tokens T
      → Tokens T × Option (AccessToken T × RefreshToken T)
  unfolding lookup rotate renew
  accept_refresh now a r p (access role permissions) t = (t, none)
  accept_refresh now a r p (refresh old) t = elim (lookup p.jti t.refresh_tokens) [
    | none ↦ (t, none)
    | some stored ↦
        if stored.revoked then (t, none) else renew now a r p.sub (rotate p.jti stored t)
  ]

  -- `refresh_access_token`: the state after it, and the new tokens.
  unfoldable pub refresh_access_token :
      ℕ → String → String → T → Tokens T → Tokens T × Option (AccessToken T × RefreshToken T)
  unfolding accept_refresh
  refresh_access_token now access_jti refresh_jti token t = elim (jwt.decode now token) [
    | none ↦ (t, none)
    | some p ↦ accept_refresh now access_jti refresh_jti p p.claims t
  ]

module _ {T : Type 0} where
  unfoldable pub revoke_token : String → Tokens T → Tokens T
  unfolding lookup insert set_revoked
  revoke_token jti t = elim (lookup jti t.refresh_tokens) [
    | none ↦ record t { revoked_tokens = jti ∷ t.revoked_tokens }
    | some r ↦ record t {
      revoked_tokens = jti ∷ t.revoked_tokens;
      refresh_tokens = insert jti (set_revoked r) t.refresh_tokens;
    }
  ]

  -- The loop of `revoke_all_user_tokens`: the refresh tokens after it, the ids that are added to the
  -- revoked ones, and the count.
  unfoldable pub revoke_each :
      String → Dict (RefreshToken T) → Dict (RefreshToken T) × List String × ℕ
  unfolding set_revoked
  revoke_each user_id [] = ([], [], 0)
  revoke_each user_id ((jti, r) ∷ d) =
      let rest = revoke_each user_id d in
      if str_eq r.user_id user_id
      then ((jti, set_revoked r) ∷ rest.0, jti ∷ rest.1, rest.2 + 1)
      else ((jti, r) ∷ rest.0, rest.1, rest.2)

  unfoldable pub revoke_all_user_tokens : String → Tokens T → Tokens T × ℕ
  unfolding revoke_each add_ids
  revoke_all_user_tokens user_id t = (
    record t {
      refresh_tokens = (revoke_each user_id t.refresh_tokens).0;
      revoked_tokens = add_ids (revoke_each user_id t.refresh_tokens).1 t.revoked_tokens;
    },
    (revoke_each user_id t.refresh_tokens).2,
  )

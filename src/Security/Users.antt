-- ===== src/Security/Users.antt =====
-- engine/security.py: the users of SecurityManager, with lockout and API keys. `H` is the type of
-- password hashes. Hashing and verifying are the interface `Hasher`. Random ids are arguments. Times
-- are whole seconds. The file of users and the audit log are left out.
use comfyui_engine.Prelude.{
  ℕ, ◌+◌, ◌≡◌, Bool, true, false, not, ◌&&◌, Option, none, some, List, [], ◌∷◌, ◌++◌, String, ltb,
  leb, str_eq, any, if◌then◌else◌, Dict, lookup, insert,
}
use comfyui_engine.Security.Roles.{Role, Permission, role_has}

-- PasswordHasher and the hashing of secrets: what was hashed is verified.
pub record Hasher : Type 0 where
  pub hash : String → String
  pub verify : String → String → Bool
  pub verify-hash : (s : String) → verify s (hash s) ≡ true

pub record User : Type 0 where
  pub user_id : String
  pub username : String
  pub email : String
  pub role : Role
  pub is_active : Bool
  pub last_login : Option ℕ
  pub failed_login_attempts : ℕ
  pub locked_until : Option ℕ
  pub password_hash : String
  pub api_keys : List String
  pub ip_allowlist : List String

-- `is_locked`; a time of 0 counts as none.
unfoldable pub is_locked : ℕ → Option ℕ → Bool
is_locked now none = false
is_locked now (some until) = ltb 0 until && ltb now until

unfoldable pub has_permission : User → Permission → Bool
unfolding role_has
has_permission u p = role_has u.role p

unfoldable pub find_by_name : String → Dict User → Option User
find_by_name name [] = none
find_by_name name ((id, u) ∷ d) = if str_eq u.username name then some u else find_by_name name d

-- The address is none or on the list, or there is no list.
unfoldable pub ip_allowed : Option String → List String → Bool
ip_allowed none allowlist = true
ip_allowed (some ip) [] = true
ip_allowed (some ip) (a ∷ as') = any (λ x. str_eq x ip) (a ∷ as')

unfoldable pub fail_login : ℕ → User → User
fail_login now u =
    if leb 5 (u.failed_login_attempts + 1)
    then record u {
      failed_login_attempts = u.failed_login_attempts + 1;
      locked_until = some (now + 3600);
    }
    else record u { failed_login_attempts = u.failed_login_attempts + 1 }

unfoldable pub pass_login : ℕ → User → User
pass_login now u = record u {
  failed_login_attempts = 0;
  locked_until = none;
  last_login = some now;
}

module _ (hasher : Hasher) where
  unfoldable pub create_user : String → String → String → String → Role → Dict User → Dict User
  unfolding insert
  create_user id username email password role users =
      insert id
        (record {
          user_id = id;
          username = username;
          email = email;
          role = role;
          is_active = true;
          last_login = none;
          failed_login_attempts = 0;
          locked_until = none;
          password_hash = hasher.hash password;
          api_keys = [];
          ip_allowlist = [];
        })
        users

  -- `authenticate` on the user that was found: the user after it, whether the login passed, and the
  -- passwords that were handed to `verify_password`, in order.
  unfoldable pub try_login : ℕ → String → Option String → User → User × Bool × List String
  unfolding is_locked ip_allowed fail_login pass_login
  try_login now password ip u =
      if is_locked now u.locked_until
      then (u, false, [])
      else if not (ip_allowed ip u.ip_allowlist)
      then (u, false, [])
      else if not (hasher.verify password u.password_hash)
      then (fail_login now u, false, password ∷ [])
      else (pass_login now u, true, password ∷ [])

  -- `authenticate`: the users after it, and the user.
  unfoldable pub authenticate :
      ℕ → String → String → Option String → Dict User → Dict User × Option User
  unfolding find_by_name try_login insert
  authenticate now name password ip users = elim (find_by_name name users) [
    | none ↦ (users, none)
    | some u ↦ (
      insert u.user_id (try_login now password ip u).0 users,
      if (try_login now password ip u).1 then some (try_login now password ip u).0 else none,
    )
  ]

  -- `change_password`: the users after it, and the result. The caller then revokes the tokens.
  unfoldable pub change_password : String → String → String → Dict User → Dict User × Bool
  unfolding lookup insert
  change_password id old new users = elim (lookup id users) [
    | none ↦ (users, false)
    | some u ↦
        if hasher.verify old u.password_hash
        then (insert id (record u { password_hash = hasher.hash new }) users, true)
        else (users, false)
  ]

  -- `generate_api_key`, of the key that was drawn; none where it raises.
  unfoldable pub generate_api_key : String → String → Dict User → Option (Dict User)
  unfolding lookup insert
  generate_api_key id key users = elim (lookup id users) [
    | none ↦ none
    | some u ↦ some (insert id (record u { api_keys = u.api_keys ++ hasher.hash key ∷ [] }) users)
  ]

  unfoldable pub verify_api_key : String → Dict User → Option User
  verify_api_key key [] = none
  verify_api_key key ((id, u) ∷ d) =
      if any (λ h. hasher.verify key h) u.api_keys then some u else verify_api_key key d

-- `revoke_api_key` writes an entry of the audit log and nothing else.
unfoldable pub revoke_api_key : String → String → Dict User → Dict User × Bool
revoke_api_key id key_id users = (users, true)

-- ===== src/Security/Roles.antt =====
-- engine/security.py: roles, and the permissions that each has.
use comfyui_engine.Prelude.{
  Bool, Option, none, some, List, [], ◌∷◌, map, any, ℕ, ◌==◌, ◌≡◌, refl, String, str_eq,
  if◌then◌else◌,
}

pub data Role : Type 0 where
  admin operator user readonly api : Role

pub data Permission : Type 0 where
  job_create job_read job_delete job_cancel queue_read queue_control : Permission
  model_read model_load model_unload system_read system_configure system_shutdown : Permission
  admin_users admin_keys admin_audit admin_settings : Permission

-- The place of a member in the declaration of the enumeration.
abbrev pub ordinal : Permission → ℕ
ordinal job_create = 0
ordinal job_read = 1
ordinal job_delete = 2
ordinal job_cancel = 3
ordinal queue_read = 4
ordinal queue_control = 5
ordinal model_read = 6
ordinal model_load = 7
ordinal model_unload = 8
ordinal system_read = 9
ordinal system_configure = 10
ordinal system_shutdown = 11
ordinal admin_users = 12
ordinal admin_keys = 13
ordinal admin_audit = 14
ordinal admin_settings = 15

unfoldable pub role_permissions : Role → List Permission
role_permissions admin =
    job_create ∷ job_read ∷ job_delete ∷ job_cancel ∷ queue_read ∷ queue_control ∷ model_read
    ∷ model_load ∷ model_unload ∷ system_read ∷ system_configure ∷ system_shutdown ∷ admin_users
    ∷ admin_keys ∷ admin_audit ∷ admin_settings ∷ []
role_permissions operator =
    job_create ∷ job_read ∷ job_cancel ∷ queue_read ∷ queue_control ∷ model_read ∷ model_load
    ∷ model_unload ∷ system_read ∷ []
role_permissions user = job_create ∷ job_read ∷ queue_read ∷ model_read ∷ system_read ∷ []
role_permissions readonly = job_read ∷ queue_read ∷ model_read ∷ system_read ∷ []
role_permissions api = job_create ∷ job_read ∷ queue_read ∷ []

-- `has_permission`
unfoldable pub role_has : Role → Permission → Bool
unfolding role_permissions
role_has r p = any (λ q. ordinal q == ordinal p) (role_permissions r)

-- `role.value`
unfoldable pub role_value : Role → String
role_value admin = "admin"
role_value operator = "operator"
role_value user = "user"
role_value readonly = "readonly"
role_value api = "api"

-- `Role(text)`; none where it raises `ValueError`.
unfoldable pub role_of : String → Option Role
role_of text =
    if str_eq text "admin"
    then some admin
    else if str_eq text "operator"
    then some operator
    else if str_eq text "user"
    then some user
    else if str_eq text "readonly"
    then some readonly
    else if str_eq text "api"
    then some api
    else none

-- `permission.value`
unfoldable pub permission_value : Permission → String
permission_value job_create = "job:create"
permission_value job_read = "job:read"
permission_value job_delete = "job:delete"
permission_value job_cancel = "job:cancel"
permission_value queue_read = "queue:read"
permission_value queue_control = "queue:control"
permission_value model_read = "model:read"
permission_value model_load = "model:load"
permission_value model_unload = "model:unload"
permission_value system_read = "system:read"
permission_value system_configure = "system:configure"
permission_value system_shutdown = "system:shutdown"
permission_value admin_users = "admin:users"
permission_value admin_keys = "admin:keys"
permission_value admin_audit = "admin:audit"
permission_value admin_settings = "admin:settings"

-- `Permission(text)`; none where it raises `ValueError`.
unfoldable pub permission_of : String → Option Permission
permission_of text =
    if str_eq text "job:create"
    then some job_create
    else if str_eq text "job:read"
    then some job_read
    else if str_eq text "job:delete"
    then some job_delete
    else if str_eq text "job:cancel"
    then some job_cancel
    else if str_eq text "queue:read"
    then some queue_read
    else if str_eq text "queue:control"
    then some queue_control
    else if str_eq text "model:read"
    then some model_read
    else if str_eq text "model:load"
    then some model_load
    else if str_eq text "model:unload"
    then some model_unload
    else if str_eq text "system:read"
    then some system_read
    else if str_eq text "system:configure"
    then some system_configure
    else if str_eq text "system:shutdown"
    then some system_shutdown
    else if str_eq text "admin:users"
    then some admin_users
    else if str_eq text "admin:keys"
    then some admin_keys
    else if str_eq text "admin:audit"
    then some admin_audit
    else if str_eq text "admin:settings"
    then some admin_settings
    else none

-- `[p.value for p in permissions]`
unfoldable pub permission_values : List Permission → List String
unfolding permission_value
permission_values ps = map permission_value ps

abbrev add_permission : Option Permission → Option (List Permission) → Option (List Permission)
add_permission none rest = none
add_permission (some p) none = none
add_permission (some p) (some ps) = some (p ∷ ps)

-- `[Permission(p) for p in texts]`
unfoldable pub permissions_of : List String → Option (List Permission)
unfolding permission_of
permissions_of [] = some []
permissions_of (text ∷ texts) = add_permission (permission_of text) (permissions_of texts)

pub role_of-role_value : (r : Role) → role_of (role_value r) ≡ some r
unfolding role_of role_value
role_of-role_value admin = refl
role_of-role_value operator = refl
role_of-role_value user = refl
role_of-role_value readonly = refl
role_of-role_value api = refl

permission_of-permission_value : (p : Permission) → permission_of (permission_value p) ≡ some p
unfolding permission_of permission_value
permission_of-permission_value job_create = refl
permission_of-permission_value job_read = refl
permission_of-permission_value job_delete = refl
permission_of-permission_value job_cancel = refl
permission_of-permission_value queue_read = refl
permission_of-permission_value queue_control = refl
permission_of-permission_value model_read = refl
permission_of-permission_value model_load = refl
permission_of-permission_value model_unload = refl
permission_of-permission_value system_read = refl
permission_of-permission_value system_configure = refl
permission_of-permission_value system_shutdown = refl
permission_of-permission_value admin_users = refl
permission_of-permission_value admin_keys = refl
permission_of-permission_value admin_audit = refl
permission_of-permission_value admin_settings = refl

pub permissions_of-permission_values :
    (ps : List Permission) → permissions_of (permission_values ps) ≡ some ps
unfolding permissions_of permission_values
permissions_of-permission_values [] = refl
permissions_of-permission_values (p ∷ ps) =
    rw (permission_of-permission_value p, permissions_of-permission_values ps) refl

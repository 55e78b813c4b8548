-- ===== src/Security/Rotation.antt =====
-- The rotation of refresh tokens.
use comfyui_engine.Prelude.{
  ℕ, ◌≡◌, ◌≢◌, refl, ◌⊎◌, inl, inr, arith, true, false, none, List, [], ◌∷◌, String, str_eq,
  if◌then◌else◌, Dict, lookup, insert, lookup-insert, Bool-cases, Option-cases, All,
}
use text.Mathlib.TextPositions.{eq_refl}
use comfyui_engine.Security.Tokens.{
  Claims, access, refresh, Payload, is_current, Jwt, RefreshToken, Tokens, set_revoked,
  token_revoked, new_refresh_token, create_refresh_token, rotate, renew, accept_refresh,
  refresh_access_token, revoke_token, revoke_each, revoke_all_user_tokens,
}

-- The calls that change the state, with their times and the ids that they draw.
pub data Op (T : Type 0) : Type 0 where
  creates : ℕ → String → String → String → Op T
  refreshes : ℕ → String → String → T → Op T
  revokes revokes_all : String → Op T

module _ {T : Type 0} (jwt : Jwt T) where
  refresh-encode :
      (now : ℕ) (a r : String) (p : Payload) (t : Tokens T)
      → refresh_access_token jwt now a r (jwt.encode p) t
        ≡ (if is_current now p then accept_refresh jwt now a r p p.claims t else (t, none))
  unfolding refresh_access_token
  refresh-encode now a r p t = elim (Bool-cases (is_current now p)) [
    | inl e ↦ rw (refresh_access_token, jwt.decode-encode now p, e) refl
    | inr e ↦ rw (refresh_access_token, jwt.decode-encode now p, e) refl
  ]

  unfoldable pub apply : Op T → Tokens T → Tokens T
  unfolding create_refresh_token refresh_access_token revoke_token revoke_all_user_tokens
  apply (creates now jti user_id access_jti) t =
      (create_refresh_token jwt now jti user_id access_jti t).0
  apply (refreshes now a r token) t = (refresh_access_token jwt now a r token t).0
  apply (revokes jti) t = revoke_token jti t
  apply (revokes_all user_id) t = (revoke_all_user_tokens user_id t).0

  unfoldable pub run : List (Op T) → Tokens T → Tokens T
  unfolding apply
  run [] t = t
  run (op ∷ ops) t = run ops (apply op t)

module _ {T : Type 0} where
  -- The id that an operation draws for a refresh token is not the given one.
  abbrev pub Avoids : String → Op T → Type 0
  Avoids j (creates now jti user_id access_jti) = str_eq jti j ≡ false
  Avoids j (refreshes now a r token) = str_eq r j ≡ false
  Avoids j (revokes jti) = Unit
  Avoids j (revokes_all user_id) = Unit

  -- No refresh token under the id can be used.
  abbrev pub IsSpent : String → Tokens T → Type 0
  IsSpent j t = token_revoked (lookup j t.refresh_tokens) ≡ true

  token_revoked-insert :
      (j k : String) (r : RefreshToken T) (d : Dict (RefreshToken T))
      → token_revoked (lookup j d) ≡ true
      → (str_eq k j ≡ false) ⊎ (r.revoked ≡ true)
      → token_revoked (lookup j (insert k r d)) ≡ true
  unfolding token_revoked
  token_revoked-insert j k r d h (inl other) = rw (lookup-insert k j r d, other) h
  token_revoked-insert j k r d h (inr spent) =
      rw (lookup-insert k j r d)
        (elim (Bool-cases (str_eq k j)) [ inl e ↦ rw e spent | inr e ↦ rw e h ])

  lookup-revoke_each :
      (j user_id : String) (d : Dict (RefreshToken T))
      → token_revoked (lookup j d) ≡ true
      → token_revoked (lookup j (revoke_each user_id d).0) ≡ true
  unfolding lookup revoke_each set_revoked token_revoked
  lookup-revoke_each j user_id [] h = refl
  lookup-revoke_each j user_id ((k, r) ∷ d) h = ground (arith, h, lookup-revoke_each j user_id d)

  revoke_token-IsSpent :
      (j jti : String) (t : Tokens T) → IsSpent j t → IsSpent j (revoke_token jti t)
  unfolding revoke_token set_revoked
  revoke_token-IsSpent j jti t h = elim (Option-cases (lookup jti t.refresh_tokens)) [
    | inl e ↦ rw (revoke_token, e) h
    | inr (r, e) ↦
        rw (revoke_token, e)
          (token_revoked-insert j jti (set_revoked r) t.refresh_tokens h (inr refl))
  ]

module _ {T : Type 0} (jwt : Jwt T) where
  renew-IsSpent :
      (j : String) (now : ℕ) (a r sub : String) (t : Tokens T)
      → str_eq r j ≡ false
      → IsSpent j t
      → IsSpent j (renew jwt now a r sub t).0
  unfolding renew create_refresh_token
  renew-IsSpent j now a r sub t other h =
      token_revoked-insert j r (new_refresh_token jwt now r sub a t) t.refresh_tokens h (inl other)

  rotate-IsSpent :
      (j k : String) (r : RefreshToken T) (t : Tokens T) → IsSpent j t → IsSpent j (rotate k r t)
  unfolding rotate set_revoked
  rotate-IsSpent j k r t h = token_revoked-insert j k (set_revoked r) t.refresh_tokens h (inr refl)

  accept_refresh-IsSpent :
      (j : String) (now : ℕ) (a r : String) (p : Payload) (c : Claims) (t : Tokens T)
      → str_eq r j ≡ false
      → IsSpent j t
      → IsSpent j (accept_refresh jwt now a r p c t).0
  unfolding accept_refresh
  accept_refresh-IsSpent j now a r p (access role ps) t other h = h
  accept_refresh-IsSpent j now a r p (refresh old) t other h =
      elim (Option-cases (lookup p.jti t.refresh_tokens)) [
        | inl e ↦ rw (accept_refresh, e) h
        | inr (s, e) ↦ elim (Bool-cases s.revoked) [
          | inl b ↦ rw (accept_refresh, e, b) h
          | inr b ↦
              rw (accept_refresh, e, b)
                (renew-IsSpent j now a r p.sub (rotate p.jti s t) other
                  (rotate-IsSpent j p.jti s t h))
        ]
      ]

  apply-IsSpent :
      (j : String) (op : Op T) (t : Tokens T)
      → Avoids j op
      → IsSpent j t
      → IsSpent j (apply jwt op t)
  unfolding apply create_refresh_token refresh_access_token revoke_all_user_tokens
  apply-IsSpent j (creates now jti user_id a) t other h =
      token_revoked-insert j jti (new_refresh_token jwt now jti user_id a t) t.refresh_tokens h
        (inl other)
  apply-IsSpent j (refreshes now a r token) t other h = elim (Option-cases (jwt.decode now token)) [
    | inl e ↦ rw (apply, refresh_access_token, e) h
    | inr (p, e) ↦
        rw (apply, refresh_access_token, e) (accept_refresh-IsSpent j now a r p p.claims t other h)
  ]
  apply-IsSpent j (revokes jti) t other h = revoke_token-IsSpent j jti t h
  apply-IsSpent j (revokes_all user_id) t other h = lookup-revoke_each j user_id t.refresh_tokens h

  run-IsSpent :
      (j : String) (ops : List (Op T)) (t : Tokens T)
      → All (Avoids j) ops
      → IsSpent j t
      → IsSpent j (run jwt ops t)
  unfolding run
  run-IsSpent j [] t k h = h
  run-IsSpent j (op ∷ ops) t k h =
      run-IsSpent j ops (apply jwt op t) k.1 (apply-IsSpent j op t k.0 h)

  -- What a refresh that gave new tokens leaves spent.
  accept_refresh-spends :
      (now : ℕ) (a r : String) (p : Payload) (c : Claims) (t : Tokens T)
      → str_eq r p.jti ≡ false
      → (accept_refresh jwt now a r p c t).1 ≢ none
      → IsSpent p.jti (accept_refresh jwt now a r p c t).0
  unfolding accept_refresh token_revoked
  accept_refresh-spends now a r p (access role ps) t other h = absurd (h refl)
  accept_refresh-spends now a r p (refresh old) t other h =
      elim (Option-cases (lookup p.jti t.refresh_tokens)) [
        | inl e ↦ rw (accept_refresh, e) (rw e refl)
        | inr (s, e) ↦ elim (Bool-cases s.revoked) [
          | inl b ↦ rw (accept_refresh, e, b) (rw e b)
          | inr b ↦
              rw (accept_refresh, e, b)
                (renew-IsSpent p.jti now a r p.sub (rotate p.jti s t) other
                  (rw (rotate, lookup-insert p.jti p.jti (set_revoked s), eq_refl p.jti) refl))
        ]
      ]

  accept_refresh-none :
      (now : ℕ) (a r : String) (p : Payload) (c : Claims) (t : Tokens T)
      → IsSpent p.jti t
      → (accept_refresh jwt now a r p c t).1 ≡ none
  unfolding accept_refresh token_revoked
  accept_refresh-none now a r p (access role ps) t h = refl
  accept_refresh-none now a r p (refresh old) t h =
      elim (Option-cases (lookup p.jti t.refresh_tokens)) [
        | inl e ↦ rw (accept_refresh, e) refl
        | inr (s, e) ↦
            (let spent : s.revoked ≡ true = rw e at h in rw (accept_refresh, e, spent) refl)
      ]

  refresh-spends :
      (now : ℕ) (a r : String) (p : Payload) (t : Tokens T)
      → str_eq r p.jti ≡ false
      → (refresh_access_token jwt now a r (jwt.encode p) t).1 ≢ none
      → IsSpent p.jti (refresh_access_token jwt now a r (jwt.encode p) t).0
  refresh-spends now a r p t other given = elim (Bool-cases (is_current now p)) [
    | inr e ↦ absurd (given (rw (refresh-encode jwt now a r p t, e) refl))
    | inl e ↦
        rw (refresh-encode jwt now a r p t, e)
          (accept_refresh-spends now a r p p.claims t other
            (λ n. given (rw (refresh-encode jwt now a r p t, e) n)))
  ]

  refresh-none :
      (now : ℕ) (a r : String) (p : Payload) (t : Tokens T)
      → IsSpent p.jti t
      → (refresh_access_token jwt now a r (jwt.encode p) t).1 ≡ none
  refresh-none now a r p t h = elim (Bool-cases (is_current now p)) [
    | inr e ↦ rw (refresh-encode jwt now a r p t, e) refl
    | inl e ↦ rw (refresh-encode jwt now a r p t, e) (accept_refresh-none now a r p p.claims t h)
  ]

  -- A refresh token is used at most once: after a refresh that gave new tokens, every later refresh
  -- by the same token gives none, whatever tokens are created, refreshed and revoked in between, as
  -- long as its id is not drawn again for another refresh token.
  pub refresh_once :
      (p : Payload) (now later : ℕ) (a r a' r' : String) (ops : List (Op T)) (t : Tokens T)
      → str_eq r p.jti ≡ false
      → All (Avoids p.jti) ops
      → (refresh_access_token jwt now a r (jwt.encode p) t).1 ≢ none
      → (refresh_access_token jwt later a' r'
          (jwt.encode p)
          (run jwt ops (refresh_access_token jwt now a r (jwt.encode p) t).0)).1
        ≡ none
  refresh_once p now later a r a' r' ops t other avoid given =
      refresh-none later a' r' p (run jwt ops (refresh_access_token jwt now a r (jwt.encode p) t).0)
        (run-IsSpent p.jti ops (refresh_access_token jwt now a r (jwt.encode p) t).0 avoid
          (refresh-spends now a r p t other given))

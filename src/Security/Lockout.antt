-- ===== src/Security/Lockout.antt =====
-- The guesses of a password that the lockout lets through.
use comfyui_engine.Prelude.{
  ℕ, ◌+◌, ◌-◌, ◌≡◌, ◌≤◌, ◌<◌, max, refl, ap, ◌∙◌, inl, inr, arith, true, false, Option, some, List,
  [], ◌∷◌, String, All, leb, length, Bool-cases,
}
use comfyui_engine.Security.Users.{Hasher, User, is_locked, ip_allowed, fail_login, try_login}

-- A login: the time, the password and the address.
abbrev pub Attempt : Type 0
Attempt = ℕ × String × Option String

is_locked-before : (now until : ℕ) → now < until → is_locked now (some until) ≡ true
unfolding is_locked
is_locked-before now until h = ground (arith, h)

module _ (hasher : Hasher) where
  -- How many passwords a sequence of logins hands to the hasher.
  unfoldable pub tested : List Attempt → User → ℕ
  unfolding try_login
  tested [] u = 0
  tested ((now, password, ip) ∷ as') u =
      length (try_login hasher now password ip u).2
      + tested as' (try_login hasher now password ip u).0

  -- A wrong password, in the hour from a time.
  abbrev pub IsGuess : String → ℕ → Attempt → Type 0
  IsGuess password_hash start (now, password, ip) =
      (start ≤ now) × (now < start + 3600) × (hasher.verify password password_hash ≡ false)

  tested-locked :
      (start until : ℕ) (as' : List Attempt) (u : User)
      → u.locked_until ≡ some until
      → start + 3600 ≤ until
      → All (IsGuess u.password_hash start) as'
      → tested as' u ≡ 0
  unfolding tested try_login
  tested-locked start until [] u locked h guesses = refl
  tested-locked start until ((now, password, ip) ∷ as') u locked h guesses =
      rw (ap (is_locked now) locked ∙ is_locked-before now until (omega (arith, h, guesses.0.1)))
        (omega (arith, tested-locked start until as' u locked h guesses.1))

  -- In an hour of logins with wrong passwords, the logins hand no more passwords to the hasher than
  -- five less the failures counted before, or one where these are five or more.
  pub tested_lem :
      (start : ℕ) (as' : List Attempt) (u : User)
      → All (IsGuess u.password_hash start) as'
      → tested as' u ≤ max 1 (5 - u.failed_login_attempts)
  unfolding tested try_login
  tested_lem start [] u guesses = omega arith
  tested_lem start ((now, password, ip) ∷ as') u guesses =
      elim (Bool-cases (is_locked now u.locked_until)) [
        | inl e ↦ rw e (omega (arith, tested_lem start as' u guesses.1))
        | inr e ↦ elim (Bool-cases (ip_allowed ip u.ip_allowlist)) [
          | inl f ↦
              rw (e, f, guesses.0.2)
                (elim (Bool-cases (leb 5 (u.failed_login_attempts + 1))) [
                  | inl g ↦
                      rw (fail_login, g)
                        (omega (
                          arith,
                          tested-locked (start) (now + 3600) as'
                              (record u {
                                failed_login_attempts = u.failed_login_attempts + 1;
                                locked_until = some (now + 3600);
                              })
                              refl (omega (arith, guesses.0.0)) guesses.1,
                        ))
                  | inr g ↦
                      rw (fail_login, g)
                        (ground (
                          arith,
                          g,
                          tested_lem start as'
                              (record u { failed_login_attempts = u.failed_login_attempts + 1 })
                              guesses.1,
                        ))
                ])
          | inr f ↦ rw (e, f) (omega (arith, tested_lem start as' u guesses.1))
        ]
      ]

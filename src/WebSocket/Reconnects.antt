-- ===== src/WebSocket/Reconnects.antt =====
-- How reconnecting ends.
use comfyui_engine.Prelude.{
  ℕ, zero, suc, ◌+◌, ◌-◌, ◌≡◌, ◌≤◌, refl, ap, ◌∙◌, inl, inr, arith, Bool, true, false, ◌||◌, some,
  ltb, Bool-cases,
}
use comfyui_engine.WebSocket.{
  State, disconnected, connecting, connected, reconnecting, failed, Config, Manager, open_socket,
  connect_from, connect, give_up, count_attempt, reconnect_loop, reconnect,
}

-- The server accepts one of the next attempts.
abbrev pub is_accepted : (ℕ → Bool) → ℕ → ℕ → Bool
is_accepted answers k zero = false
is_accepted answers k (suc n) = answers k || is_accepted answers (k + 1) n

-- The manager is between two attempts.
abbrev pub is_waiting : State → Bool
is_waiting disconnected = true
is_waiting reconnecting = true
is_waiting connecting = false
is_waiting connected = false
is_waiting failed = true

module _ {D : Type 0} where
  -- The manager once it is connected, or gave up after so many attempts.
  abbrev pub outcome : Bool → ℕ → Manager D → Manager D × Bool
  outcome true n m =
      (record m { state = connected; has_socket = true; connection_attempts = 0 }, true)
  outcome false n m = (record m { state = failed; connection_attempts = n }, false)

  -- The outcome does not depend on the state before it, nor on the count of attempts.
  outcome_same :
      (b : Bool) (n k : ℕ) (s : State) (m : Manager D)
      → outcome b n (record m { state = s; connection_attempts = k }) ≡ outcome b n m
  outcome_same true n k s m = refl
  outcome_same false n k s m = refl

  connect_from-open_socket :
      (s : State) (ok : Bool) (m : Manager D)
      → is_waiting s ≡ true
      → connect_from s ok m ≡ open_socket ok m
  unfolding connect_from
  connect_from-open_socket disconnected ok m h = refl
  connect_from-open_socket reconnecting ok m h = refl
  connect_from-open_socket failed ok m h = refl
  connect_from-open_socket connecting ok m h = absurd (ground (arith, h))
  connect_from-open_socket connected ok m h = absurd (ground (arith, h))

  reconnect_loop_lem :
      (c : Config) (answers : ℕ → Bool) (n : ℕ) (m : Manager D)
      → is_waiting m.state ≡ true
      → m.connection_attempts + n ≡ c.reconnect_max_attempts
      → reconnect_loop c answers n m
        ≡ some (
            outcome
              (is_accepted answers (m.connection_attempts + 1) n)
              (m.connection_attempts + n)
              m)
  unfolding reconnect_loop give_up count_attempt connect open_socket
  reconnect_loop_lem c answers zero m w e =
      let full : ltb m.connection_attempts c.reconnect_max_attempts ≡ false = ground (arith, e) in
      let same : m.connection_attempts + 0 ≡ m.connection_attempts = omega arith in
      rw (full, same) refl
  reconnect_loop_lem c answers (suc n) m w e =
      let more : ltb m.connection_attempts c.reconnect_max_attempts ≡ true = ground (arith, e) in
      let opens =
        connect_from-open_socket m.state (answers (m.connection_attempts + 1)) (count_attempt m)
          w in
      elim (Bool-cases (answers (m.connection_attempts + 1))) [
        | inl ok ↦ rw (more, connect, opens, ok) refl
        | inr not_ok ↦
            (let later : m.connection_attempts + suc n ≡ m.connection_attempts + 1 + n =
                omega arith in
              rw (more, connect, opens, not_ok, later)
                (reconnect_loop_lem c answers n
                    (record m {
                      state = disconnected;
                      connection_attempts = m.connection_attempts + 1;
                    })
                    refl (omega (arith, e))
                  ∙ ap some (
                      outcome_same (is_accepted answers (m.connection_attempts + 1 + 1) n)
                        (m.connection_attempts + 1 + n) (m.connection_attempts + 1) disconnected
                        m)))
      ]

  -- Reconnecting ends: the manager is connected, with its count of attempts reset, where the server
  -- accepts one of the attempts that are left, and has failed with all attempts used up where it
  -- accepts none. Messages that were queued or sent stay as they are.
  pub reconnect_lem :
      (c : Config) (answers : ℕ → Bool) (m : Manager D)
      → m.connection_attempts ≤ c.reconnect_max_attempts
      → reconnect c answers m
        ≡ some (
            outcome
              (is_accepted answers
                (m.connection_attempts + 1)
                (c.reconnect_max_attempts - m.connection_attempts))
              c.reconnect_max_attempts
              m)
  unfolding reconnect
  reconnect_lem c answers m le =
      let n = c.reconnect_max_attempts - m.connection_attempts in
      let total : m.connection_attempts + n ≡ c.reconnect_max_attempts = omega (arith, le) in
      reconnect_loop_lem c answers n (record m { state = reconnecting }) refl total
      ∙ rw total (
          ap some (
            outcome_same (is_accepted answers (m.connection_attempts + 1) n)
              c.reconnect_max_attempts m.connection_attempts reconnecting m))

-- ===== src/WebSocket.antt =====
-- engine/websocket_manager.py: WebSocketManager. `D` is the type of messages. Whether the server
-- accepts a connection or a message is an argument. Delays are whole ticks, without the jitter.
-- Parsing, the handlers of events, heartbeats and metrics are left out.
pub mod Reconnects
pub mod Messages
use comfyui_engine.Prelude.{
  ℕ, zero, suc, ◌+◌, ◌-◌, ◌*◌, ◌^◌, min, Bool, true, false, not, ◌&&◌, Option, none, some, List, [],
  ◌∷◌, ◌++◌, ltb, if◌then◌else◌,
}

pub data State : Type 0 where
  disconnected connecting connected reconnecting failed : State

pub record Config : Type 0 where
  pub reconnect_base_delay : ℕ
  pub reconnect_max_delay : ℕ
  pub reconnect_max_attempts : ℕ
  pub reconnect_exponential_base : ℕ

-- The manager, with the messages that the server has received.
pub record Manager (D : Type 0) : Type 0 where
  pub state : State
  pub has_socket : Bool
  pub message_queue : List D
  pub connection_attempts : ℕ
  pub sent : List D

unfoldable pub is_up : State → Bool
is_up connected = true
is_up _ = false

-- The delay before an attempt.
unfoldable pub reconnect_delay : Config → ℕ → ℕ
reconnect_delay c attempt =
    min (c.reconnect_base_delay * c.reconnect_exponential_base ^ (attempt - 1))
      c.reconnect_max_delay

module _ {D : Type 0} where
  unfoldable pub is_connected : Manager D → Bool
  unfolding is_up
  is_connected m = is_up m.state && m.has_socket

  unfoldable pub open_socket : Bool → Manager D → Manager D × Bool
  open_socket true m =
      (record m { state = connected; has_socket = true; connection_attempts = 0 }, true)
  open_socket false m = (record m { state = disconnected }, false)

  unfoldable pub connect_from : State → Bool → Manager D → Manager D × Bool
  unfolding open_socket
  connect_from connected ok m = (m, true)
  connect_from connecting ok m = (m, true)
  connect_from disconnected ok m = open_socket ok m
  connect_from reconnecting ok m = open_socket ok m
  connect_from failed ok m = open_socket ok m

  -- `connect`
  unfoldable pub connect : Bool → Manager D → Manager D × Bool
  unfolding connect_from
  connect ok m = connect_from m.state ok m

  unfoldable pub give_up : Manager D → Manager D × Bool
  give_up m = (record m { state = failed }, false)

  unfoldable pub count_attempt : Manager D → Manager D
  count_attempt m = record m { connection_attempts = m.connection_attempts + 1 }

  -- The loop of `_reconnect`, where the server's answer to the i-th attempt is `answers i`; none
  -- where the rounds are not enough.
  unfoldable pub reconnect_loop : Config → (ℕ → Bool) → ℕ → Manager D → Option (Manager D × Bool)
  unfolding connect give_up count_attempt
  reconnect_loop c answers zero m =
      if ltb m.connection_attempts c.reconnect_max_attempts then none else some (give_up m)
  reconnect_loop c answers (suc n) m =
      let r = connect (answers (m.connection_attempts + 1)) (count_attempt m) in
      let again = reconnect_loop c answers n r.0 in
      if ltb m.connection_attempts c.reconnect_max_attempts
      then (if r.1 then some r else again)
      else some (give_up m)

  -- `_reconnect`, while no shutdown is asked for: the manager after it and whether it is connected.
  unfoldable pub reconnect : Config → (ℕ → Bool) → Manager D → Option (Manager D × Bool)
  unfolding reconnect_loop
  reconnect c answers m =
      reconnect_loop c answers (c.reconnect_max_attempts - m.connection_attempts)
        (record m { state = reconnecting })

  -- `send`
  unfoldable pub send : Bool → D → Manager D → Manager D × Bool
  unfolding is_connected
  send ok d m =
      if is_connected m && ok
      then (record m { sent = m.sent ++ d ∷ [] }, true)
      else (record m { message_queue = m.message_queue ++ d ∷ [] }, false)

  -- A message that is taken out of the queue is sent.
  unfoldable pub send_first : Bool → D → List D → Manager D → Manager D × Bool
  unfolding send
  send_first ok d ds m = send ok d (record m { message_queue = ds })

  unfoldable pub add_count : ℕ → Option (Manager D × ℕ) → Option (Manager D × ℕ)
  add_count n none = none
  add_count n (some (m, k)) = some (m, n + k)

  -- `flush_queue`, where the server's answer in the round with n rounds left is `answers n`; none
  -- where the rounds are not enough.
  unfoldable pub flush_queue : (ℕ → Bool) → ℕ → Manager D → Option (Manager D × ℕ)
  unfolding is_connected send_first add_count
  flush_queue answers zero m = none
  flush_queue answers (suc n) m = elim m.message_queue [
    | [] ↦ some (m, 0)
    | d ∷ ds ↦
        (let r = send_first (answers n) d ds m in
          let rest = flush_queue answers n r.0 in
          if is_connected m then add_count (if r.1 then 1 else 0) rest else some (m, 0))
  ]

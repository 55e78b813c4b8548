-- ===== src/Tests/Sockets.antt =====
-- Tests and instances for engine/websocket_manager.py. Messages are numbers.
use comfyui_engine.Prelude.{ℕ, ◌≡◌, refl, arith, true, false, none, some, [], ◌∷◌, ◌==◌}
use comfyui_engine.WebSocket.{
  disconnected, connected, Config, Manager, is_connected, reconnect, reconnect_delay, flush_queue,
}
use comfyui_engine.WebSocket.Reconnects.{is_accepted, outcome, reconnect_lem}
use comfyui_engine.WebSocket.Messages.{flush_queue-never, flush_queue_lem}

abbrev config : Config
config = record {
  reconnect_base_delay = 1;
  reconnect_max_delay = 60;
  reconnect_max_attempts = 3;
  reconnect_exponential_base = 2;
}

abbrev lost : Manager ℕ
lost = record {
  state = disconnected;
  has_socket = true;
  message_queue = 7 ∷ 8 ∷ [];
  connection_attempts = 0;
  sent = [];
}

abbrev up : Manager ℕ
up = record lost { state = connected }

third_delay : reconnect_delay config 3 ≡ 4
unfolding reconnect_delay
third_delay = refl

reconnect_lem_example :
    reconnect config (λ i. i == 3) lost ≡ some (outcome (is_accepted (λ i. i == 3) 1 3) 3 lost)
reconnect_lem_example = reconnect_lem config (λ i. i == 3) lost (omega arith)

flush_queue-never_example : flush_queue (λ i. false) 9 up ≡ none
unfolding is_connected
flush_queue-never_example = flush_queue-never 9 up 7 (8 ∷ []) refl refl

flush_queue_lem_example :
    flush_queue (λ i. true) 3 up ≡ some (record up { message_queue = []; sent = 7 ∷ 8 ∷ [] }, 2)
unfolding is_connected
flush_queue_lem_example = flush_queue_lem (7 ∷ 8 ∷ []) up refl refl

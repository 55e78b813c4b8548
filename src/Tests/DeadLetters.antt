-- ===== src/Tests/DeadLetters.antt =====
-- Tests and instances for engine/dead_letter_queue.py.
use comfyui_engine.Prelude.{
  ℕ, ◌+◌, ◌≡◌, ◌≢◌, ◌≤◌, refl, Bool, true, none, some, [], ◌∷◌, String, arith, ◌==◌,
}
use comfyui_engine.DeadLetter.{
  max_retries_exceeded, circuit_breaker_open, timeout, validation_error, unknown_error, Entry,
  Queue, add, list_entries, get_entry, replay, register_replay_handler, get_stats, read_file,
}
use comfyui_engine.DeadLetter.Bounds.{get_stats_total}
use comfyui_engine.DeadLetter.Files.{IsMirrored, add-IsMirrored, add_same_id}

abbrev job : String → ℕ → Entry ℕ ℕ
job id t = record {
  job_id = id;
  payload = 7;
  meta = 0;
  reason = timeout;
  error_message = "timed out";
  retry_count = 3;
  created_at = t;
  last_retry_at = none;
  replay_count = 0;
}

abbrev empty : Queue ℕ ℕ
empty = record {
  max_entries = 2;
  retention_days = 1;
  entries = [];
  disk = [];
  handlers = λ r. none;
}

-- One job in the queue and in the directory.
abbrev single : Queue ℕ ℕ
single = record empty { entries = job "a" 5 ∷ []; disk = ("a", job "a" 5) ∷ [] }

abbrev full : Queue ℕ ℕ
full = record single { max_entries = 1 }

abbrev handled : Queue ℕ ℕ
handled = record single { handlers = λ r. some (λ p m. p == 7) }

third_evicts_first :
    list_entries none 10 0 (add (job "c" 7) (add (job "b" 6) single)) ≡ job "b" 6 ∷ job "c" 7 ∷ []
unfolding list_entries add
third_evicts_first = refl

get_stats_total_example :
    ((get_stats single).by_reason max_retries_exceeded
        + (get_stats single).by_reason circuit_breaker_open
        + (get_stats single).by_reason timeout
        + (get_stats single).by_reason validation_error
        + (get_stats single).by_reason unknown_error
      ≡ (get_stats single).total_entries)
    × ((get_stats single).replayable ≤ (get_stats single).total_entries)
get_stats_total_example = get_stats_total single

single-IsMirrored : IsMirrored single
unfolding get_entry read_file
single-IsMirrored = record { distinct = (refl, tt); mirror = λ id. refl }

b_is_new : get_entry "b" single ≡ none
unfolding get_entry
b_is_new = refl

add-IsMirrored_example : IsMirrored (add (job "b" 6) single)
add-IsMirrored_example = add-IsMirrored (job "b" 6) single single-IsMirrored b_is_new

add_same_id_example :
    (get_entry "a" (add (job "a" 9) full) ≢ none)
    × (read_file "a" (add (job "a" 9) full).disk ≡ none)
add_same_id_example = add_same_id (job "a" 9) (job "a" 5) [] full refl (omega arith) refl

abbrev handled_payload : ℕ → Bool
handled_payload p = p == 7

registered :
    (replay (λ p. true) 50 "a" none none (register_replay_handler timeout (λ p m. p == 7) single)).1
    ≡ true
unfolding replay register_replay_handler
registered = refl

-- ===== src/Tests/Distributed.antt =====
-- Tests and instances for engine/distributed_queue.py. JSON objects are texts.
use comfyui_engine.Prelude.{
  ℕ, ◌≡◌, refl, inl, Option, none, some, List, [], ◌∷◌, String, Dict, ℤ, lookup, insert, erase,
}
use comfyui_engine.Distributed.Jobs.{
  Status, pending, claimed, completed, Job, Store, Settings, raised, enqueue, claim_job, settle,
  claim_cut_before_store,
}
use comfyui_engine.Distributed.Placement.{
  Op, claims, completes, cleans, IsPlaced, run, enqueue-IsPlaced,
}
use comfyui_engine.Distributed.Claims.{Claims, claim_job-Claims}
use comfyui_engine.Distributed.Cuts.{run-claim_cut}
use comfyui_engine.Tests.Redis.{dict_redis}

abbrev Queue : Type 0
Queue = Store (Dict (Job String)) (Dict ℤ)

abbrev settings : Settings
settings = record { claim_timeout = 300; max_retries = 2 }

abbrev empty_queue : Queue
empty_queue = record { jobs = []; pending_set = []; claimed_set = []; dead_set = [] }

empty_queue-IsPlaced : IsPlaced dict_redis empty_queue
unfolding dict_redis lookup
empty_queue-IsPlaced id = refl

abbrev one_job : Queue
one_job = enqueue dict_redis "a" "draw" "{}" 2 1000 empty_queue

one_job-IsPlaced : IsPlaced dict_redis one_job
one_job-IsPlaced =
    enqueue-IsPlaced dict_redis "a" "draw" "{}" 2 1000 empty_queue empty_queue-IsPlaced

-- A claim times out, the job is pending again, and then the first worker ends after all.
abbrev late_end : Option String → List (Op String × ℕ)
late_end error =
    (claims "w1", 1000) ∷ (cleans, 2000) ∷ (completes "a" (some "image") error, 2001) ∷ []

abbrev after_cut : Queue
after_cut = record one_job { pending_set = [] }

-- A claim of the only job is cut off; a later cleanup and a later claim do not find it.
run-claim_cut_example :
    ((dict_redis {J = Job String}).zscore "a" after_cut.pending_set ≡ none)
    × ((dict_redis {J = Job String}).zscore "a" after_cut.claimed_set ≡ none)
unfolding dict_redis enqueue insert lookup erase claim_cut_before_store run claim_job
run-claim_cut_example =
    run-claim_cut dict_redis 1 settings "w1" 1000 "a" []
      (record {
        job_id = "a";
        payload = "draw";
        config_meta = "{}";
        priority = 2;
        created_at = 1000;
        worker_id = none;
        started_at = none;
        completed_at = none;
        status = pending;
        result = none;
        error = none;
        retry_count = 0;
      })
      ((cleans, 2000) ∷ (claims "w2", 2001) ∷ []) one_job after_cut after_cut refl refl refl
      (inl refl) (tt, (tt, tt)) refl

claim_job-Claims_example :
    Claims dict_redis one_job "w1" 1000 (claim_job dict_redis 1 settings "w1" 1000 one_job)
claim_job-Claims_example = claim_job-Claims dict_redis 0 settings "w1" 1000 one_job one_job-IsPlaced

abbrev claimed_result : Option (Queue × Option (Job String)) → Option String
claimed_result none = none
claimed_result (some (s, none)) = none
claimed_result (some (s, some job)) = job.result

abbrev claim_after : Option Queue → Option (Queue × Option (Job String))
claim_after none = none
claim_after (some s) = claim_job dict_redis 1 settings "w2" 2002 s

-- A job that ended after its claim timed out is claimed, and drawn, once more.
completed_is_claimed :
    claimed_result (claim_after (run dict_redis 1 settings (late_end none) one_job)) ≡ some "image"
unfolding dict_redis run claim_job enqueue lookup insert erase
completed_is_claimed = refl

abbrev status_of : Option (Job String) → Option Status
status_of none = none
status_of (some job) = some job.status

-- An exception without a text completes the job.
silent_error_completes :
    status_of (lookup "a" (settle dict_redis settings 1001 "a" (raised "") one_job).jobs)
    ≡ some completed
unfolding dict_redis settle enqueue lookup insert
silent_error_completes = refl

abbrev held : Queue
held = record one_job {
  jobs =
      (
        "a",
        record {
          job_id = "a";
          payload = "draw";
          config_meta = "{}";
          priority = 2;
          created_at = 1000;
          worker_id = some "w1";
          started_at = some 1000;
          completed_at = none;
          status = claimed;
          result = none;
          error = none;
          retry_count = 0;
        },
      )
      ∷ [];
}

-- A held job that is among the pending ones is popped again and again.
held_nests : claim_job dict_redis 9 settings "w2" 1001 held ≡ none
unfolding dict_redis claim_job enqueue lookup insert erase
held_nests = refl

-- ===== src/Distributed/Jobs.antt =====
-- engine/distributed_queue.py: DistributedJob, and the methods of RedisQueue and of
-- DistributedWorker that change the queue. `D` is the type of JSON objects, which survive
-- `json.dumps` and `json.loads`. Ids and clock readings are arguments. Times are whole seconds. A
-- method is the composition of its commands, not interleaved with those of other workers; a claim may
-- also be cut off between its commands, as where its worker dies. Notifications and logging are left
-- out.
use comfyui_engine.Prelude.{
  ℕ, zero, suc, ◌+◌, ◌*◌, Bool, true, false, not, ◌&&◌, Option, none, some, List, [], ◌∷◌, String,
  ℤ, pos, sub_ℕ, ltb, str_eq, if◌then◌else◌,
}
use comfyui_engine.Distributed.Redis.{Redis}

pub data Status : Type 0 where
  pending claimed running completed failed : Status

pub record Job (D : Type 0) : Type 0 where
  pub job_id : String
  pub payload : D
  pub config_meta : D
  pub priority : ℕ
  pub created_at : ℕ
  pub worker_id : Option String
  pub started_at : Option ℕ
  pub completed_at : Option ℕ
  pub status : Status
  pub result : Option D
  pub error : Option String
  pub retry_count : ℕ

-- The keys of the queue.
pub record Store (H Z : Type 0) : Type 0 where
  pub jobs : H
  pub pending_set : Z
  pub claimed_set : Z
  pub dead_set : Z

pub record Settings : Type 0 where
  pub claim_timeout : ℕ
  pub max_retries : ℕ

-- `priority * 1000000000 + time.time()`
unfoldable pub score_of : ℕ → ℕ → ℤ
score_of priority now = pos (priority * 1000000000 + now)

-- `(job.priority - 1) * 1000000000 + time.time()`
unfoldable pub earlier_score : ℕ → ℕ → ℤ
earlier_score priority now = sub_ℕ (priority * 1000000000 + now) 1000000000

unfoldable pub is_claimed : Status → Bool
is_claimed claimed = true
is_claimed _ = false

-- A time is set, and less than the timeout ago; a time of 0 counts as none.
unfoldable pub is_recent : ℕ → ℕ → Option ℕ → Bool
is_recent timeout now none = false
is_recent timeout now (some t) = ltb 0 t && ltb now (t + timeout)

-- `if error:`
unfoldable pub is_error : Option String → Bool
is_error none = false
is_error (some e) = not (str_eq e "")

module _ {D : Type 0} where
  unfoldable pub is_held : Settings → ℕ → Job D → Bool
  unfolding is_claimed is_recent
  is_held c now job = is_claimed job.status && is_recent c.claim_timeout now job.started_at

  unfoldable pub new_job : String → D → D → ℕ → ℕ → Job D
  new_job id payload config_meta priority now = record {
    job_id = id;
    payload = payload;
    config_meta = config_meta;
    priority = priority;
    created_at = now;
    worker_id = none;
    started_at = none;
    completed_at = none;
    status = pending;
    result = none;
    error = none;
    retry_count = 0;
  }

  unfoldable pub take_job : String → ℕ → Job D → Job D
  take_job worker now job = record job {
    status = claimed;
    worker_id = some worker;
    started_at = some now;
  }

  unfoldable pub release : Job D → Job D
  release job = record job { status = pending; worker_id = none; started_at = none }

  unfoldable pub finish : ℕ → Option D → Job D → Job D
  finish now result job = record job {
    completed_at = some now;
    status = completed;
    result = result;
  }

  unfoldable pub fail : ℕ → Option String → Job D → Job D
  fail now error job = record job {
    completed_at = some now;
    status = failed;
    error = error;
    retry_count = job.retry_count + 1;
  }

module _ {H Z D : Type 0} (redis : Redis H Z (Job D)) where
  unfoldable pub enqueue : String → D → D → ℕ → ℕ → Store H Z → Store H Z
  unfolding new_job score_of
  enqueue id payload config_meta priority now s = record s {
    jobs = redis.hset id (new_job id payload config_meta priority now) s.jobs;
    pending_set = redis.zadd id (score_of priority now) s.pending_set;
  }

  -- The last two commands of `claim_job`, for a job that is free.
  abbrev pub store_claim : String → ℕ → String → Job D → Store H Z → Store H Z
  store_claim worker now id job s = record s {
    jobs = redis.hset id (take_job worker now job) s.jobs;
  }

  abbrev pub add_claim : ℕ → String → Store H Z → Store H Z
  add_claim now id s = record s { claimed_set = redis.zadd id (pos now) s.claimed_set }

  -- The commands of `claim_job` for a job that is free: its id is popped, which leaves `z` pending,
  -- the job is stored, and its id is added to the claimed ones.
  unfoldable pub take : String → ℕ → String → Job D → Z → Store H Z → Store H Z
  unfolding take_job
  take worker now id job z s =
      add_claim now id (store_claim worker now id job (record s { pending_set = z }))

  -- A `claim_job` that takes a job and is cut off after its first command.
  unfoldable pub claim_cut_before_store : Store H Z → Store H Z
  claim_cut_before_store s = elim (redis.zpopmin s.pending_set) [
    | none ↦ s
    | some (id, z) ↦ record s { pending_set = z }
  ]

  -- A `claim_job` that takes a job and is cut off before its last command.
  unfoldable pub claim_cut_before_add : String → ℕ → Store H Z → Store H Z
  unfolding take_job
  claim_cut_before_add worker now s = elim (redis.zpopmin s.pending_set) [
    | none ↦ s
    | some (id, z) ↦ elim (redis.hget id s.jobs) [
      | none ↦ record s { pending_set = z }
      | some job ↦ store_claim worker now id job (record s { pending_set = z })
    ]
  ]

  -- `claim_job`: the queue after it and the job. The first number is how deep the calls may nest;
  -- none where they nest deeper, which raises an error.
  unfoldable pub claim_job :
      ℕ → Settings → String → ℕ → Store H Z → Option (Store H Z × Option (Job D))
  unfolding is_held take take_job earlier_score
  claim_job zero c worker now s = none
  claim_job (suc n) c worker now s = elim (redis.zpopmin s.pending_set) [
    | none ↦ some (s, none)
    | some (id, z) ↦ elim (redis.hget id s.jobs) [
      | none ↦ some (record s { pending_set = z }, none)
      | some job ↦
          (let again =
              claim_job n c worker now
                (record s { pending_set = redis.zadd id (earlier_score job.priority now) z }) in
            if is_held c now job
            then again
            else some (take worker now id job z s, some (take_job worker now job)))
    ]
  ]

  -- `complete_job` on a job that failed once more.
  unfoldable pub fail_job : Settings → ℕ → String → Job D → Store H Z → Store H Z
  unfolding release score_of
  fail_job c now id job s =
      if ltb job.retry_count c.max_retries
      then record s {
        jobs = redis.hset id (release job) s.jobs;
        pending_set = redis.zadd id (score_of (job.priority + 1) now) s.pending_set;
        claimed_set = redis.zrem id s.claimed_set;
      }
      else record s {
        jobs = redis.hset id job s.jobs;
        dead_set = redis.zadd id (pos now) s.dead_set;
        claimed_set = redis.zrem id s.claimed_set;
      }

  unfoldable pub complete_job :
      Settings → ℕ → String → Option D → Option String → Store H Z → Store H Z
  unfolding is_error fail_job fail finish
  complete_job c now id result error s = elim (redis.hget id s.jobs) [
    | none ↦ s
    | some job ↦ if is_error error then fail_job c now id (fail now error job) s else record s {
      jobs = redis.hset id (finish now result job) s.jobs;
      claimed_set = redis.zrem id s.claimed_set;
    }
  ]

  -- A round of the loop of `cleanup_stale_claims`.
  unfoldable pub requeue : ℕ → String → Store H Z → Store H Z
  unfolding release score_of
  requeue now id s = elim (redis.hget id s.jobs) [
    | none ↦ s
    | some job ↦ record s {
      pending_set = redis.zadd id (score_of job.priority now) s.pending_set;
      claimed_set = redis.zrem id s.claimed_set;
      jobs = redis.hset id (release job) s.jobs;
    }
  ]

  unfoldable pub requeue_each : ℕ → List String → Store H Z → Store H Z
  unfolding requeue
  requeue_each now [] s = s
  requeue_each now (id ∷ ids) s = requeue_each now ids (requeue now id s)

  unfoldable pub stale_claims : Settings → ℕ → Store H Z → List String
  stale_claims c now s = redis.zrangebyscore (pos 0) (sub_ℕ now c.claim_timeout) s.claimed_set

  unfoldable pub cleanup_stale_claims : Settings → ℕ → Store H Z → Store H Z
  unfolding requeue_each stale_claims
  cleanup_stale_claims c now s = requeue_each now (stale_claims c now s) s

  unfoldable pub purge_dead_letter : ℕ → ℕ → Store H Z → Store H Z × ℕ
  purge_dead_letter now max_age s =
      let r = redis.zremrangebyscore (pos 0) (sub_ℕ now max_age) s.dead_set in
      (record s { dead_set = r.0 }, r.1)

  -- `get_queue_depth`: pending, claimed, dead and total.
  unfoldable pub get_queue_depth : Store H Z → ℕ × ℕ × ℕ × ℕ
  get_queue_depth s = (
    redis.zcard s.pending_set,
    redis.zcard s.claimed_set,
    redis.zcard s.dead_set,
    redis.zcard s.pending_set + redis.zcard s.claimed_set + redis.zcard s.dead_set,
  )

-- What the function of a DistributedWorker does with a job; an exception is its text, `str(e)`.
pub data Ending (D : Type 0) : Type 0 where
  returned : D → Ending D
  raised : String → Ending D

module _ {H Z D : Type 0} (redis : Redis H Z (Job D)) where
  -- `_process_job` of DistributedWorker, once the function has ended.
  unfoldable pub settle : Settings → ℕ → String → Ending D → Store H Z → Store H Z
  unfolding complete_job
  settle c now id (returned r) s = complete_job redis c now id (some r) none s
  settle c now id (raised e) s = complete_job redis c now id none (some e) s

-- ===== src/Distributed/Placement.antt =====
-- Where a job of the queue is, along any sequence of calls.
use comfyui_engine.Prelude.{
  ℕ, suc, ◌≡◌, refl, sym, inl, inr, arith, Bool, true, false, not, ◌&&◌, Option, none, some, List,
  [], ◌∷◌, String, ℤ, ltb, str_eq, eq_iff, Bool-cases, Option-cases,
}
use comfyui_engine.Distributed.Redis.{Redis}
use comfyui_engine.Distributed.Jobs.{
  Status, pending, claimed, running, completed, failed, Job, Store, Settings, is_claimed, is_held,
  is_error, take_job, new_job, release, finish, fail, enqueue, take, claim_job, fail_job,
  complete_job, requeue, requeue_each, cleanup_stale_claims, stale_claims, purge_dead_letter,
}

-- A member has a score.
abbrev pub has_score : Option ℤ → Bool
has_score none = false
has_score (some s) = true

-- A pending job is among the pending ones, and a claimed one among the claimed ones and not among
-- the pending ones; an id without data is in neither set.
abbrev pub placed_as : Status → Bool → Bool → Bool
placed_as pending p c = p
placed_as claimed p c = c && not p
placed_as running p c = false
placed_as completed p c = true
placed_as failed p c = true

abbrev pub placed : {D : Type 0} → Option (Job D) → Bool → Bool → Bool
placed none p c = not p
placed (some job) p c = placed_as job.status p c

not-is_claimed : (st : Status) (c : Bool) → placed_as st true c ≡ true → is_claimed st ≡ false
unfolding is_claimed
not-is_claimed pending c h = refl
not-is_claimed claimed c h = absurd (ground (arith, h))
not-is_claimed running c h = refl
not-is_claimed completed c h = refl
not-is_claimed failed c h = refl

-- The calls of the workers, with what they draw.
pub data Op (D : Type 0) : Type 0 where
  enqueues : String → D → D → ℕ → Op D
  claims : String → Op D
  completes : String → Option D → Option String → Op D
  cleans : Op D
  purges : ℕ → Op D

module _ {H Z D : Type 0} (redis : Redis H Z (Job D)) where
  abbrev pub is_placed : String → Store H Z → Bool
  is_placed id s =
      placed (redis.hget id s.jobs) (has_score (redis.zscore id s.pending_set))
        (has_score (redis.zscore id s.claimed_set))

  abbrev pub IsPlaced : Store H Z → Type 0
  IsPlaced s = (id : String) → is_placed id s ≡ true

  -- A call with its time; none where the calls of `claim_job` nest deeper than `n`.
  unfoldable pub apply : ℕ → Settings → Op D → ℕ → Store H Z → Option (Store H Z)
  unfolding enqueue claim_job complete_job cleanup_stale_claims purge_dead_letter
  apply n c (enqueues id payload config_meta priority) now s =
      some (enqueue redis id payload config_meta priority now s)
  apply n c (claims worker) now s = elim (claim_job redis n c worker now s) [
    | none ↦ none
    | some r ↦ some r.0
  ]
  apply n c (completes id result error) now s = some (complete_job redis c now id result error s)
  apply n c cleans now s = some (cleanup_stale_claims redis c now s)
  apply n c (purges max_age) now s = some (purge_dead_letter redis now max_age s).0

  unfoldable pub run : ℕ → Settings → List (Op D × ℕ) → Store H Z → Option (Store H Z)
  unfolding apply
  run n c [] s = some s
  run n c ((op, now) ∷ ops) s = elim (apply n c op now s) [ none ↦ none | some s' ↦ run n c ops s' ]

  pub enqueue-IsPlaced :
      (id : String) (payload config_meta : D) (priority now : ℕ) (s : Store H Z)
      → IsPlaced s
      → IsPlaced (enqueue redis id payload config_meta priority now s)
  unfolding enqueue new_job
  enqueue-IsPlaced id payload config_meta priority now s h j =
      rw (redis.hget-hset, redis.zscore-zadd)
        (elim (Bool-cases (str_eq id j)) [ inl e ↦ rw e refl | inr e ↦ rw e (h j) ])

  -- A popped job is free, so that `claim_job` takes it at once.
  pub not-is_held :
      (c : Settings) (now : ℕ) (s : Store H Z) (id : String) (z : Z) (job : Job D)
      → IsPlaced s
      → redis.zpopmin s.pending_set ≡ some (id, z)
      → redis.hget id s.jobs ≡ some job
      → is_held c now job ≡ false
  unfolding is_held
  not-is_held c now s id z job h popped e =
      let least = redis.zpopmin_some s.pending_set id z popped in
      let free = rw (e, least.1) at (h id) in
      rw (not-is_claimed job.status (has_score (redis.zscore id s.claimed_set)) free) refl

  pop-IsPlaced :
      (s : Store H Z) (id : String) (z : Z)
      → IsPlaced s
      → redis.zpopmin s.pending_set ≡ some (id, z)
      → redis.hget id s.jobs ≡ none
      → IsPlaced (record s { pending_set = z })
  pop-IsPlaced s id z h popped e j =
      rw ((redis.zpopmin_some s.pending_set id z popped).2 j) (elim (Bool-cases (str_eq id j)) [
        | inl same ↦ rw (same, sym ((eq_iff id j).0 same), e) refl
        | inr other ↦ rw other (h j)
      ])

  take-IsPlaced :
      (worker : String) (now : ℕ) (s : Store H Z) (id : String) (z : Z) (job : Job D)
      → IsPlaced s
      → redis.zpopmin s.pending_set ≡ some (id, z)
      → IsPlaced (take redis worker now id job z s)
  unfolding take take_job
  take-IsPlaced worker now s id z job h popped j =
      rw (redis.hget-hset, (redis.zpopmin_some s.pending_set id z popped).2 j, redis.zscore-zadd)
        (elim (Bool-cases (str_eq id j)) [ inl e ↦ rw e refl | inr e ↦ rw e (h j) ])

  -- One call of `claim_job` is enough.
  claim_job-IsPlaced :
      (n : ℕ) (c : Settings) (worker : String) (now : ℕ) (s : Store H Z)
      → IsPlaced s
      → (r : Store H Z × Option (Job D)) × (claim_job redis (suc n) c worker now s ≡ some r)
        × IsPlaced r.0
  unfolding claim_job
  claim_job-IsPlaced n c worker now s h = elim (Option-cases (redis.zpopmin s.pending_set)) [
    | inl empty ↦ ((s, none), rw (claim_job, empty) refl, h)
    | inr ((id, z), popped) ↦ elim (Option-cases (redis.hget id s.jobs)) [
      | inl e ↦ (
        (record s { pending_set = z }, none),
        rw (claim_job, popped, e) refl,
        pop-IsPlaced s id z h popped e,
      )
      | inr (job, e) ↦ (
        (take redis worker now id job z s, some (take_job worker now job)),
        rw (claim_job, popped, e, not-is_held c now s id z job h popped e) refl,
        take-IsPlaced worker now s id z job h popped,
      )
    ]
  ]

  fail_job-IsPlaced :
      (c : Settings) (now : ℕ) (id : String) (job : Job D) (s : Store H Z)
      → job.status ≡ failed
      → IsPlaced s
      → IsPlaced (fail_job redis c now id job s)
  unfolding fail_job release
  fail_job-IsPlaced c now id job s f h j = elim (Bool-cases (ltb job.retry_count c.max_retries)) [
    | inl more ↦
        rw (fail_job, more, redis.hget-hset, redis.zscore-zadd, redis.zscore-zrem)
          (elim (Bool-cases (str_eq id j)) [ inl e ↦ rw e refl | inr e ↦ rw e (h j) ])
    | inr done ↦
        rw (fail_job, done, redis.hget-hset, redis.zscore-zrem)
          (elim (Bool-cases (str_eq id j)) [ inl e ↦ rw (e, f) refl | inr e ↦ rw e (h j) ])
  ]

  complete_job-IsPlaced :
      (c : Settings) (now : ℕ) (id : String) (result : Option D) (error : Option String)
      (s : Store H Z)
      → IsPlaced s
      → IsPlaced (complete_job redis c now id result error s)
  unfolding complete_job fail finish
  complete_job-IsPlaced c now id result error s h = elim (Option-cases (redis.hget id s.jobs)) [
    | inl e ↦ rw (complete_job, e) h
    | inr (job, e) ↦ elim (Bool-cases (is_error error)) [
      | inl bad ↦
          rw (complete_job, e, bad) (fail_job-IsPlaced c now id (fail now error job) s refl h)
      | inr good ↦
          rw (complete_job, e, good)
            (λ j.
              rw (redis.hget-hset, redis.zscore-zrem)
                (elim (Bool-cases (str_eq id j)) [ inl e' ↦ rw e' refl | inr e' ↦ rw e' (h j) ]))
    ]
  ]

  requeue-IsPlaced :
      (now : ℕ) (id : String) (s : Store H Z) → IsPlaced s → IsPlaced (requeue redis now id s)
  unfolding requeue release
  requeue-IsPlaced now id s h j = elim (Option-cases (redis.hget id s.jobs)) [
    | inl e ↦ rw (requeue, e) (h j)
    | inr (job, e) ↦
        rw (requeue, e, redis.hget-hset, redis.zscore-zadd, redis.zscore-zrem)
          (elim (Bool-cases (str_eq id j)) [ inl same ↦ rw same refl | inr other ↦ rw other (h j) ])
  ]

  requeue_each-IsPlaced :
      (now : ℕ) (ids : List String) (s : Store H Z)
      → IsPlaced s
      → IsPlaced (requeue_each redis now ids s)
  unfolding requeue_each
  requeue_each-IsPlaced now [] s h = h
  requeue_each-IsPlaced now (id ∷ ids) s h =
      requeue_each-IsPlaced now ids (requeue redis now id s) (requeue-IsPlaced now id s h)

  pub apply-IsPlaced :
      (n : ℕ) (c : Settings) (op : Op D) (now : ℕ) (s : Store H Z)
      → IsPlaced s
      → (s' : Store H Z) × (apply (suc n) c op now s ≡ some s') × IsPlaced s'
  unfolding apply cleanup_stale_claims purge_dead_letter
  apply-IsPlaced n c (enqueues id payload config_meta priority) now s h = (
    enqueue redis id payload config_meta priority now s,
    refl,
    enqueue-IsPlaced id payload config_meta priority now s h,
  )
  apply-IsPlaced n c (claims worker) now s h =
      let r = claim_job-IsPlaced n c worker now s h in (r.0.0, rw (apply, r.1) refl, r.2)
  apply-IsPlaced n c (completes id result error) now s h = (
    complete_job redis c now id result error s,
    refl,
    complete_job-IsPlaced c now id result error s h,
  )
  apply-IsPlaced n c cleans now s h = (
    cleanup_stale_claims redis c now s,
    refl,
    requeue_each-IsPlaced now (stale_claims redis c now s) s h,
  )
  apply-IsPlaced n c (purges max_age) now s h = ((purge_dead_letter redis now max_age s).0, refl, h)

-- ===== src/Distributed/Claims.antt =====
-- Which job `claim_job` takes, and what `cleanup_stale_claims` gives back.
use comfyui_engine.Prelude.{
  ℕ, suc, ◌≡◌, refl, sym, ◌∙◌, ◌⊎◌, inl, inr, arith, Option, none, some, List, [], ◌∷◌, String, pos,
  sub_ℕ, str_eq, eq_iff, any, if◌then◌else◌, Bool-cases, Option-cases,
}
use comfyui_engine.Distributed.Redis.{Redis, IsLeast, in_range}
use comfyui_engine.Distributed.Jobs.{
  Job, Store, Settings, take_job, release, take, claim_job, requeue, requeue_each, stale_claims,
  cleanup_stale_claims,
}
use comfyui_engine.Distributed.Placement.{IsPlaced, not-is_held}

abbrev pub released : {D : Type 0} → Option (Job D) → Option (Job D)
released none = none
released (some job) = some (release job)

module _ {H Z D : Type 0} (redis : Redis H Z (Job D)) where
  -- The queue has nothing pending and stays as it is, or a job with the least score is taken, out of
  -- the pending ones and in the worker's name.
  abbrev pub Claims : Store H Z → String → ℕ → Option (Store H Z × Option (Job D)) → Type 0
  Claims s worker now r =
      (((j : String) → redis.zscore j s.pending_set ≡ none) × (r ≡ some (s, none)))
      ⊎ ((id : String) × (job : Job D) × (z : Z) × (redis.hget id s.jobs ≡ some job)
          × IsLeast redis.zscore s.pending_set id z
          × (r ≡ some (take redis worker now id job z s, some (take_job worker now job))))

  -- On a queue where every job is in its place, `claim_job` takes a job with the least score among
  -- the pending ones, and none only where nothing is pending.
  pub claim_job-Claims :
      (n : ℕ) (c : Settings) (worker : String) (now : ℕ) (s : Store H Z)
      → IsPlaced redis s
      → Claims s worker now (claim_job redis (suc n) c worker now s)
  unfolding claim_job
  claim_job-Claims n c worker now s h = elim (Option-cases (redis.zpopmin s.pending_set)) [
    | inl empty ↦ inl (redis.zpopmin_none s.pending_set empty, rw (claim_job, empty) refl)
    | inr ((id, z), popped) ↦
        (let least = redis.zpopmin_some s.pending_set id z popped in
          elim (Option-cases (redis.hget id s.jobs)) [
            | inl e ↦ absurd (ground (arith, rw (e, least.1) at (h id)))
            | inr (job, e) ↦ inr (
              id,
              job,
              z,
              e,
              least,
              rw (claim_job, popped, e, not-is_held redis c now s id z job h popped e) refl,
            )
          ])
  ]

  hget-requeue :
      (now : ℕ) (id j : String) (s : Store H Z)
      → redis.hget j (requeue redis now id s).jobs
        ≡ (if str_eq id j then released (redis.hget j s.jobs) else redis.hget j s.jobs)
  unfolding requeue
  hget-requeue now id j s = elim (Option-cases (redis.hget id s.jobs)) [
    | inl e ↦
        rw (requeue, e)
          (elim (Bool-cases (str_eq id j)) [
            | inl same ↦ rw (same, sym ((eq_iff id j).0 same), e) refl
            | inr other ↦ rw other refl
          ])
    | inr (job, e) ↦
        rw (requeue, e, redis.hget-hset)
          (elim (Bool-cases (str_eq id j)) [
            | inl same ↦ rw (same, sym ((eq_iff id j).0 same), e) refl
            | inr other ↦ rw other refl
          ])
  ]

  released_twice : (o : Option (Job D)) → released (released o) ≡ released o
  unfolding release
  released_twice none = refl
  released_twice (some job) = refl

  hget-requeue_each :
      (now : ℕ) (ids : List String) (j : String) (s : Store H Z)
      → redis.hget j (requeue_each redis now ids s).jobs ≡ (
          if any (λ k. str_eq k j) ids then released (redis.hget j s.jobs) else redis.hget j s.jobs)
  unfolding requeue_each
  hget-requeue_each now [] j s = refl
  hget-requeue_each now (id ∷ ids) j s =
      hget-requeue_each now ids j (requeue redis now id s)
      ∙ rw (hget-requeue now id j s) (elim (Bool-cases (str_eq id j)) [
        | inl same ↦
            rw (same, released_twice (redis.hget j s.jobs))
              (elim (Bool-cases (any (λ k. str_eq k j) ids)) [
                | inl e ↦ rw e refl
                | inr e ↦ rw e refl
              ])
        | inr other ↦ rw other refl
      ])

  -- A cleanup gives back exactly the jobs whose claim is at least as old as the timeout: they are
  -- pending afterwards, without a worker, and every other job is as before.
  pub cleanup_lem :
      (c : Settings) (now : ℕ) (j : String) (s : Store H Z)
      → redis.hget j (cleanup_stale_claims redis c now s).jobs ≡ (
          if in_range (pos 0) (sub_ℕ now c.claim_timeout) (redis.zscore j s.claimed_set)
          then released (redis.hget j s.jobs)
          else redis.hget j s.jobs)
  unfolding cleanup_stale_claims stale_claims
  cleanup_lem c now j s =
      hget-requeue_each now (stale_claims redis c now s) j s
      ∙ rw (redis.any-zrangebyscore (pos 0) (sub_ℕ now c.claim_timeout) s.claimed_set j) refl

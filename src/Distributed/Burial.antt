-- ===== src/Distributed/Burial.antt =====
-- Which jobs of the queue have failed for good, along any sequence of calls.
use comfyui_engine.Prelude.{
  ℕ, suc, ◌+◌, ◌≡◌, refl, sym, ◌∙◌, inl, inr, arith, Bool, true, false, ◌&&◌, ◌||◌, Option, none,
  some, List, [], ◌∷◌, String, pos, sub_ℕ, ltb, leb, str_eq, Bool-cases, Option-cases,
}
use comfyui_engine.Distributed.Redis.{Redis, in_range}
use comfyui_engine.Distributed.Jobs.{
  Status, pending, claimed, running, completed, failed, Job, Store, Settings, is_error, take_job,
  new_job, release, finish, fail, enqueue, take, fail_job, complete_job, requeue, requeue_each,
  stale_claims, cleanup_stale_claims, purge_dead_letter,
}
use comfyui_engine.Distributed.Placement.{
  Op, enqueues, claims, completes, cleans, purges, has_score, IsPlaced, apply,
}
use comfyui_engine.Distributed.Claims.{claim_job-Claims, cleanup_lem, released}

-- A job that failed has used up its retries and is among the dead ones, unless these were purged.
abbrev pub buried_as : Settings → Bool → Status → ℕ → Bool → Bool
buried_as c purged pending n d = true
buried_as c purged claimed n d = true
buried_as c purged running n d = true
buried_as c purged completed n d = true
buried_as c purged failed n d = leb c.max_retries n && (purged || d)

abbrev pub buried : {D : Type 0} → Settings → Bool → Option (Job D) → Bool → Bool
buried c purged none d = true
buried c purged (some job) d = buried_as c purged job.status job.retry_count d

abbrev pub is_purge : {D : Type 0} → Op D → Bool
is_purge (purges max_age) = true
is_purge (enqueues id payload config_meta priority) = false
is_purge (claims worker) = false
is_purge (completes id result error) = false
is_purge cleans = false

-- The dead ones are purged somewhere in the calls.
abbrev pub has_purge : {D : Type 0} → List (Op D × ℕ) → Bool
has_purge [] = false
has_purge ((op, now) ∷ ops) = is_purge op || has_purge ops

buried_as_purged :
    (c : Settings) (p : Bool) (st : Status) (n : ℕ) (d d' : Bool)
    → buried_as c p st n d ≡ true
    → buried_as c (p || true) st n d' ≡ true
buried_as_purged c p pending n d d' h = refl
buried_as_purged c p claimed n d d' h = refl
buried_as_purged c p running n d d' h = refl
buried_as_purged c p completed n d d' h = refl
buried_as_purged c p failed n d d' h = ground (arith, h)

buried_purged :
    {D : Type 0} (c : Settings) (p : Bool) (o : Option (Job D)) (d d' : Bool)
    → buried c p o d ≡ true
    → buried c (p || true) o d' ≡ true
buried_purged c p none d d' h = refl
buried_purged c p (some job) d d' h = buried_as_purged c p job.status job.retry_count d d' h

buried-released :
    {D : Type 0} (c : Settings) (p d : Bool) (o : Option (Job D)) → buried c p (released o) d ≡ true
unfolding release
buried-released c p d none = refl
buried-released c p d (some job) = refl

pub or_assoc : (p q r : Bool) → (p || (q || r)) ≡ ((p || q) || r)
or_assoc true q r = refl
or_assoc false q r = refl

pub or_false : (p : Bool) → (p || false) ≡ p
or_false true = refl
or_false false = refl

module _ {H Z D : Type 0} (redis : Redis H Z (Job D)) where
  abbrev pub is_buried : Settings → Bool → String → Store H Z → Bool
  is_buried c purged j s =
      buried c purged (redis.hget j s.jobs) (has_score (redis.zscore j s.dead_set))

  hset-is_buried :
      (c : Settings) (p : Bool) (id j : String) (new : Job D) (s : Store H Z)
      → ((d : Bool) → buried c p (some new) d ≡ true)
      → is_buried c p j s ≡ true
      → buried c p (redis.hget j (redis.hset id new s.jobs)) (has_score (redis.zscore j s.dead_set))
        ≡ true
  hset-is_buried c p id j new s fine h = rw (redis.hget-hset) (elim (Bool-cases (str_eq id j)) [
    | inl e ↦ rw e (fine (has_score (redis.zscore j s.dead_set)))
    | inr e ↦ rw e h
  ])

  complete_job-is_buried :
      (c : Settings) (p : Bool) (now : ℕ) (id : String) (result : Option D) (error : Option String)
      (j : String) (s : Store H Z)
      → is_buried c p j s ≡ true
      → is_buried c p j (complete_job redis c now id result error s) ≡ true
  unfolding complete_job fail finish fail_job release
  complete_job-is_buried c p now id result error j s h =
      elim (Option-cases (redis.hget id s.jobs)) [
        | inl e ↦ rw (complete_job, e) h
        | inr (job, e) ↦ elim (Bool-cases (is_error error)) [
          | inr good ↦
              rw (complete_job, e, good)
                (hset-is_buried c p id j (finish now result job) s (λ d. refl) h)
          | inl bad ↦ elim (Bool-cases (ltb (job.retry_count + 1) c.max_retries)) [
            | inl more ↦
                rw (complete_job, e, bad, fail_job, more)
                  (hset-is_buried c p id j (release (fail now error job)) s (λ d. refl) h)
            | inr done ↦
                rw (complete_job, e, bad, fail_job, done, redis.hget-hset, redis.zscore-zadd)
                  (elim (Bool-cases (str_eq id j)) [
                    | inl same ↦ rw same (ground (arith, done))
                    | inr other ↦ rw other h
                  ])
          ]
        ]
      ]

  claim_job-is_buried :
      (n : ℕ) (c : Settings) (p : Bool) (worker : String) (now : ℕ) (j : String) (s s' : Store H Z)
      → IsPlaced redis s
      → is_buried c p j s ≡ true
      → apply redis (suc n) c (claims worker) now s ≡ some s'
      → is_buried c p j s' ≡ true
  unfolding apply take take_job
  claim_job-is_buried n c p worker now j s s' h r e =
      elim (claim_job-Claims redis n c worker now s h) [
        | inl (empty, same) ↦ (let stays : s ≡ s' = cc (rw (apply, same) at e) in rw (sym stays) r)
        | inr (id, job, z, stored, least, takes) ↦
            (let is_take : take redis worker now id job z s ≡ s' = cc (rw (apply, takes) at e) in
              rw (sym is_take) (hset-is_buried c p id j (take_job worker now job) s (λ d. refl) r))
      ]

  requeue-dead_set :
      (now : ℕ) (id : String) (s : Store H Z) → (requeue redis now id s).dead_set ≡ s.dead_set
  unfolding requeue
  requeue-dead_set now id s = elim (Option-cases (redis.hget id s.jobs)) [
    | inl e ↦ rw (requeue, e) refl
    | inr (job, e) ↦ rw (requeue, e) refl
  ]

  requeue_each-dead_set :
      (now : ℕ) (ids : List String) (s : Store H Z)
      → (requeue_each redis now ids s).dead_set ≡ s.dead_set
  unfolding requeue_each
  requeue_each-dead_set now [] s = refl
  requeue_each-dead_set now (id ∷ ids) s =
      requeue_each-dead_set now ids (requeue redis now id s) ∙ requeue-dead_set now id s

  cleanup-is_buried :
      (c : Settings) (p : Bool) (now : ℕ) (j : String) (s : Store H Z)
      → is_buried c p j s ≡ true
      → is_buried c p j (cleanup_stale_claims redis c now s) ≡ true
  unfolding cleanup_stale_claims
  cleanup-is_buried c p now j s h =
      rw (cleanup_lem redis c now j s, requeue_each-dead_set now (stale_claims redis c now s) s)
        (elim (Bool-cases
          (in_range (pos 0) (sub_ℕ now c.claim_timeout) (redis.zscore j s.claimed_set))) [
            | inl old ↦
                rw old (
                  buried-released c p (has_score (redis.zscore j s.dead_set)) (redis.hget j s.jobs))
            | inr young ↦ rw young h
          ])

  -- A call keeps a job that failed among the dead ones, unless it purges them.
  pub apply-is_buried :
      (n : ℕ) (c : Settings) (p : Bool) (op : Op D) (now : ℕ) (j : String) (s s' : Store H Z)
      → IsPlaced redis s
      → is_buried c p j s ≡ true
      → apply redis (suc n) c op now s ≡ some s'
      → is_buried c (p || is_purge op) j s' ≡ true
  unfolding apply enqueue new_job purge_dead_letter
  apply-is_buried n c p (enqueues id payload config_meta priority) now j s s' h r e =
      let is_new : enqueue redis id payload config_meta priority now s ≡ s' = cc e in
      rw (sym is_new, or_false p)
        (hset-is_buried c p id j (new_job id payload config_meta priority now) s (λ d. refl) r)
  apply-is_buried n c p (claims worker) now j s s' h r e =
      rw (or_false p) (claim_job-is_buried n c p worker now j s s' h r e)
  apply-is_buried n c p (completes id result error) now j s s' h r e =
      let is_new : complete_job redis c now id result error s ≡ s' = cc e in
      rw (sym is_new, or_false p) (complete_job-is_buried c p now id result error j s r)
  apply-is_buried n c p cleans now j s s' h r e =
      let is_new : cleanup_stale_claims redis c now s ≡ s' = cc e in
      rw (sym is_new, or_false p) (cleanup-is_buried c p now j s r)
  apply-is_buried n c p (purges max_age) now j s s' h r e =
      let is_new : (purge_dead_letter redis now max_age s).0 ≡ s' = cc e in
      rw (sym is_new)
        (buried_purged c p (redis.hget j s.jobs) (has_score (redis.zscore j s.dead_set)) _ r)

-- ===== src/Distributed/Cuts.antt =====
-- What becomes of a job whose claim is cut off between its commands.
use comfyui_engine.Prelude.{
  ℕ, zero, suc, ◌≡◌, refl, sym, ◌∙◌, inl, inr, false, ◌⊎◌, Option, none, some, List, [], ◌∷◌,
  String, pos, sub_ℕ, All, any, str_eq, eq_iff, ltb, Bool-cases, Option-cases,
}
use text.Mathlib.TextPositions.{eq_refl}
use comfyui_engine.Distributed.Redis.{Redis}
use comfyui_engine.Distributed.Jobs.{
  Job, Store, Settings, is_held, is_error, take_job, fail, enqueue, earlier_score, take, claim_job,
  fail_job, complete_job, requeue, requeue_each, stale_claims, cleanup_stale_claims,
  purge_dead_letter, claim_cut_before_store, claim_cut_before_add,
}
use comfyui_engine.Distributed.Placement.{
  Op, enqueues, claims, completes, cleans, purges, apply, run,
}

-- The call neither draws the id for a new job nor ends the job.
abbrev pub Passes : {D : Type 0} → String → Op D × ℕ → Type 0
Passes j (enqueues id payload config_meta priority, now) = str_eq id j ≡ false
Passes j (claims worker, now) = Unit
Passes j (completes id result error, now) = str_eq id j ≡ false
Passes j (cleans, now) = Unit
Passes j (purges max_age, now) = Unit

module _ {H Z D : Type 0} (redis : Redis H Z (Job D)) where
  -- The id is neither among the pending nor among the claimed ones.
  abbrev pub IsAway : String → Store H Z → Type 0
  IsAway j s = (redis.zscore j s.pending_set ≡ none) × (redis.zscore j s.claimed_set ≡ none)

  popped_other :
      (j id : String) (z z' : Z)
      → redis.zscore j z ≡ none
      → redis.zpopmin z ≡ some (id, z')
      → (str_eq id j ≡ false) × (redis.zscore j z' ≡ none)
  popped_other j id z z' away popped =
      let least = redis.zpopmin_some z id z' popped in
      elim (Bool-cases (str_eq id j)) [
        | inl same ↦ absurd (cc (away, least.1, (eq_iff id j).0 same))
        | inr other ↦ (other, least.2 j ∙ rw other away)
      ]

  claim_job-IsAway :
      (n : ℕ) (c : Settings) (worker : String) (now : ℕ) (j : String) (s : Store H Z)
      (r : Store H Z × Option (Job D))
      → IsAway j s
      → claim_job redis n c worker now s ≡ some r
      → IsAway j r.0
  unfolding claim_job take
  claim_job-IsAway zero c worker now j s r h e = absurd (cc e)
  claim_job-IsAway (suc n) c worker now j s r h e =
      elim (Option-cases (redis.zpopmin s.pending_set)) [
        | inl empty ↦
            (let is_r : (s, none) ≡ r = cc (rw (claim_job, empty) at e) in rw (sym is_r) h)
        | inr ((id, z), popped) ↦
            (let other = popped_other j id s.pending_set z h.0 popped in
              elim (Option-cases (redis.hget id s.jobs)) [
                | inl missing ↦
                    (let is_r : (record s { pending_set = z }, none) ≡ r =
                        cc (rw (claim_job, popped, missing) at e) in
                      rw (sym is_r) (other.1, h.1))
                | inr (job, stored) ↦ elim (Bool-cases (is_held c now job)) [
                  | inl held ↦
                      claim_job-IsAway n c worker now j
                        (record s {
                          pending_set = redis.zadd id (earlier_score job.priority now) z;
                        })
                        r (redis.zscore-zadd id j _ z ∙ rw other.0 other.1, h.1)
                        (rw (claim_job, popped, stored, held) at e)
                  | inr free ↦
                      (let is_r : (take redis worker now id job z s, some (take_job worker now job))
                            ≡ r =
                          cc (rw (claim_job, popped, stored, free) at e) in
                        rw (sym is_r)
                          (other.1, redis.zscore-zadd id j _ s.claimed_set ∙ rw other.0 h.1))
                ]
              ])
      ]

  complete_job-IsAway :
      (c : Settings) (now : ℕ) (id : String) (result : Option D) (error : Option String)
      (j : String) (s : Store H Z)
      → str_eq id j ≡ false
      → IsAway j s
      → IsAway j (complete_job redis c now id result error s)
  unfolding complete_job fail_job
  complete_job-IsAway c now id result error j s other h =
      elim (Option-cases (redis.hget id s.jobs)) [
        | inl e ↦ rw (complete_job, e) h
        | inr (job, e) ↦
            (let left : redis.zscore j (redis.zrem id s.claimed_set) ≡ none =
                redis.zscore-zrem id j s.claimed_set ∙ rw other h.1 in
              elim (Bool-cases (is_error error)) [
                | inr good ↦ rw (complete_job, e, good) (h.0, left)
                | inl bad ↦ elim (Bool-cases (ltb (fail now error job).retry_count c.max_retries)) [
                  | inl more ↦
                      rw (complete_job, e, bad, fail_job, more)
                        (redis.zscore-zadd id j _ s.pending_set ∙ rw other h.0, left)
                  | inr done ↦ rw (complete_job, e, bad, fail_job, done) (h.0, left)
                ]
              ])
      ]

  requeue_each-IsAway :
      (now : ℕ) (ids : List String) (j : String) (s : Store H Z)
      → any (λ k. str_eq k j) ids ≡ false
      → IsAway j s
      → IsAway j (requeue_each redis now ids s)
  unfolding requeue_each requeue
  requeue_each-IsAway now [] j s others h = h
  requeue_each-IsAway now (id ∷ ids) j s others h = elim (Bool-cases (str_eq id j)) [
    | inl same ↦ absurd (cc (rw same at others))
    | inr other ↦
        requeue_each-IsAway now ids j (requeue redis now id s) (rw other at others)
          (elim (Option-cases (redis.hget id s.jobs)) [
            | inl e ↦ rw (requeue, e) h
            | inr (job, e) ↦
                rw (requeue, e)
                  (
                    redis.zscore-zadd id j _ s.pending_set ∙ rw other h.0,
                    redis.zscore-zrem id j s.claimed_set ∙ rw other h.1,
                  )
          ])
  ]

  run-IsAway :
      (n : ℕ) (c : Settings) (ops : List (Op D × ℕ)) (j : String) (s s' : Store H Z)
      → IsAway j s
      → All (Passes j) ops
      → run redis n c ops s ≡ some s'
      → IsAway j s'
  unfolding run apply enqueue cleanup_stale_claims stale_claims purge_dead_letter
  run-IsAway n c [] j s s' h others e = (let same : s ≡ s' = cc e in rw (sym same) h)
  run-IsAway n c ((enqueues id payload config_meta priority, now) ∷ ops) j s s' h others e =
      run-IsAway n c ops j (enqueue redis id payload config_meta priority now s) s'
        (redis.zscore-zadd id j _ s.pending_set ∙ rw others.0 h.0, h.1) others.1 e
  run-IsAway n c ((claims worker, now) ∷ ops) j s s' h others e =
      elim (Option-cases (claim_job redis n c worker now s)) [
        | inl nested ↦ absurd (cc (rw (run, apply, nested) at e))
        | inr (r, claimed') ↦
            run-IsAway n c ops j r.0 s' (claim_job-IsAway n c worker now j s r h claimed') others.1
              (rw (run, apply, claimed') at e)
      ]
  run-IsAway n c ((completes id result error, now) ∷ ops) j s s' h others e =
      run-IsAway n c ops j (complete_job redis c now id result error s) s'
        (complete_job-IsAway c now id result error j s others.0 h) others.1 e
  run-IsAway n c ((cleans, now) ∷ ops) j s s' h others e =
      run-IsAway n c ops j (cleanup_stale_claims redis c now s) s'
        (requeue_each-IsAway now (stale_claims redis c now s) j s
          (redis.any-zrangebyscore (pos 0) (sub_ℕ now c.claim_timeout) s.claimed_set j
            ∙ rw h.1 refl)
          h)
        others.1 e
  run-IsAway n c ((purges max_age, now) ∷ ops) j s s' h others e =
      run-IsAway n c ops j (purge_dead_letter redis now max_age s).0 s' h others.1 e

  -- A worker that dies while it claims loses the job. Where `claim_job` pops the id of a stored job
  -- that is not among the claimed ones and is cut off there, or after it has stored the claim: in
  -- whatever queue any further calls lead to, cleanups of stale claims included, the id is neither
  -- among the pending nor among the claimed ones, unless a call draws the id again or ends the job.
  pub run-claim_cut :
      (n : ℕ) (c : Settings) (worker : String) (now : ℕ) (id : String) (z : Z) (job : Job D)
      (ops : List (Op D × ℕ)) (s cut s' : Store H Z)
      → redis.zpopmin s.pending_set ≡ some (id, z)
      → redis.hget id s.jobs ≡ some job
      → redis.zscore id s.claimed_set ≡ none
      → (cut ≡ claim_cut_before_store redis s) ⊎ (cut ≡ claim_cut_before_add redis worker now s)
      → All (Passes id) ops
      → run redis n c ops cut ≡ some s'
      → (redis.zscore id s'.pending_set ≡ none) × (redis.zscore id s'.claimed_set ≡ none)
  unfolding claim_cut_before_store claim_cut_before_add
  run-claim_cut n c worker now id z job ops s cut s' popped stored unclaimed is_cut others e =
      let gone : redis.zscore id z ≡ none =
        (redis.zpopmin_some s.pending_set id z popped).2 id ∙ rw (eq_refl id) refl in
      run-IsAway n c ops id cut s'
        (elim is_cut [
          | inl before ↦ rw (before, claim_cut_before_store, popped) (gone, unclaimed)
          | inr after ↦ rw (after, claim_cut_before_add, popped, stored) (gone, unclaimed)
        ])
        others e

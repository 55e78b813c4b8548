-- ===== src/DeadLetter/Replay.antt =====
-- `replay` on every branch.
use comfyui_engine.Prelude.{
  ℕ, ◌+◌, ◌≡◌, refl, ◌∙◌, ap, inl, inr, ◌⊎◌, Bool, false, Option, none, some, List, [], ◌∷◌, String,
  arith, length, str_eq, eq_iff, Bool-cases,
}
use comfyui_engine.DeadLetter.{
  Entry, Handler, Queue, find_entry, get_entry, mark_replayed, or_registered, choose_payload,
  replay_found, replay,
}

module _ {P M : Type 0} where
  find_entry-job_id :
      (id : String) (es : List (Entry P M)) {e : Entry P M}
      → find_entry id es ≡ some e
      → e.job_id ≡ id
  unfolding find_entry
  find_entry-job_id id [] h = cc
  find_entry-job_id id (x ∷ es) {e} h =
      ground (arith, find_entry-job_id id es {e = e}, eq_iff x.job_id id)

  find_entry-mark_replayed :
      (now : ℕ) (id : String) (es : List (Entry P M)) {e : Entry P M}
      → find_entry id es ≡ some e
      → find_entry id (mark_replayed now id es)
        ≡ some (record e { replay_count = e.replay_count + 1; last_retry_at = some now })
  unfolding find_entry mark_replayed
  find_entry-mark_replayed now id [] h = cc
  find_entry-mark_replayed now id (x ∷ es) {e} h = elim (Bool-cases (str_eq x.job_id id)) [
    | inl here ↦ rw here (rw here (ground arith))
    | inr there ↦ rw there (rw there (find_entry-mark_replayed now id es {e = e} (ground arith)))
  ]

  find_entry-mark_replayed_ne :
      (now : ℕ) (id j : String) (es : List (Entry P M))
      → str_eq id j ≡ false
      → find_entry j (mark_replayed now id es) ≡ find_entry j es
  unfolding find_entry mark_replayed
  find_entry-mark_replayed_ne now id j [] h = refl
  find_entry-mark_replayed_ne now id j (x ∷ es) h = ground (
    arith,
    find_entry-mark_replayed_ne now id j es,
    eq_iff x.job_id id,
    eq_iff x.job_id j,
    eq_iff id j,
  )

  length-mark_replayed :
      (now : ℕ) (id : String) (es : List (Entry P M)) → length (mark_replayed now id es) ≡ length es
  unfolding mark_replayed
  length-mark_replayed now id [] = refl
  length-mark_replayed now id (x ∷ es) = ground (arith, length-mark_replayed now id es)

  module _ (truthy : P → Bool) (now : ℕ) (id : String) (handler : Option (Handler P M))
      (modified : Option P) (q : Queue P M) where
    -- Without an entry of the job id, or without a handler given or registered for its reason,
    -- `replay` returns False and changes nothing.
    pub replay_refused :
        (get_entry id q ≡ none)
          ⊎ ((e : Entry P M) × (get_entry id q ≡ some e)
              × (or_registered handler (q.handlers e.reason) ≡ none))
        → replay truthy now id handler modified q ≡ (q, false)
    unfolding replay
    replay_refused (inl missing) = rw (missing, replay) refl
    replay_refused (inr (e, found, unhandled)) =
        rw (found, replay) (rw (unhandled, replay_found) refl)

    replay_handled :
        {e : Entry P M} {h : Handler P M}
        → get_entry id q ≡ some e
        → or_registered handler (q.handlers e.reason) ≡ some h
        → replay truthy now id handler modified q ≡ (
          record q { entries = mark_replayed now id q.entries },
          h (choose_payload truthy modified e.payload) e.meta,
        )
    unfolding replay
    replay_handled {e} {h} found handled =
        rw (found, replay) (rw (handled, replay_found) refl)
        ∙ ap
            (λ own. (
              record q { entries = mark_replayed now own q.entries },
              h (choose_payload truthy modified e.payload) e.meta,
            ))
            (find_entry-job_id id q.entries (unfold get_entry in found))

    -- With an entry of the job id and a handler (the one given, or else the one registered for its
    -- reason), `replay` returns whether the handler returned from the chosen payload and the
    -- entry's metadata; whichever it was, that entry counts one more replay and has the present
    -- time, every other job id still finds its entry, none is removed, and the files stay as they
    -- were.
    replay_lem :
        {e : Entry P M} {h : Handler P M}
        → get_entry id q ≡ some e
        → or_registered handler (q.handlers e.reason) ≡ some h
        → ((replay truthy now id handler modified q).1
            ≡ h (choose_payload truthy modified e.payload) e.meta)
          × (get_entry id (replay truthy now id handler modified q).0
              ≡ some (record e { replay_count = e.replay_count + 1; last_retry_at = some now }))
          × ((j : String)
              → str_eq id j ≡ false
              → get_entry j (replay truthy now id handler modified q).0 ≡ get_entry j q)
          × (length (replay truthy now id handler modified q).0.entries ≡ length q.entries)
          × ((replay truthy now id handler modified q).0.disk ≡ q.disk)
    unfolding get_entry
    replay_lem {e} found handled = rw (replay_handled found handled) (
      refl,
      find_entry-mark_replayed now id q.entries found,
      λ j ne. find_entry-mark_replayed_ne now id j q.entries ne,
      length-mark_replayed now id q.entries,
      refl,
    )

-- ===== src/DeadLetter/Loading.antt =====
-- What `load_from_disk` restores, and the pages of `list_entries`.
use mathlib.Core.List.{Perm}
use mathlib.Core.List.Perm
use comfyui_engine.Prelude.{ℕ, ◌≤◌, inl, inr, Option, List, [], ◌∷◌, arith, leb, Bool-cases}
use comfyui_engine.DeadLetter.{Entry, Queue, insert_by_time, sort_by_time, parsed, load_from_disk}

module _ {P M : Type 0} where
  -- The times of creation do not fall along a list that starts no earlier than a time.
  abbrev pub IsSortedFrom : ℕ → List (Entry P M) → Type 0
  IsSortedFrom t [] = Unit
  IsSortedFrom t (e ∷ es) = (t ≤ e.created_at) × IsSortedFrom e.created_at es

  insert_by_time-IsSortedFrom :
      (t : ℕ) (e : Entry P M) (es : List (Entry P M))
      → t ≤ e.created_at
      → IsSortedFrom t es
      → IsSortedFrom t (insert_by_time e es)
  unfolding insert_by_time
  insert_by_time-IsSortedFrom t e [] h s = (h, tt)
  insert_by_time-IsSortedFrom t e (x ∷ es) h s = elim (Bool-cases (leb e.created_at x.created_at)) [
    | inl first ↦ rw first (h, (ground arith, s.1))
    | inr later ↦ rw later (s.0, insert_by_time-IsSortedFrom x.created_at e es (ground arith) s.1)
  ]

  insert_by_time-perm :
      (e : Entry P M) (es : List (Entry P M)) → Perm (insert_by_time e es) (e ∷ es)
  unfolding insert_by_time
  insert_by_time-perm e [] = Perm.refl (e ∷ [])
  insert_by_time-perm e (x ∷ es) = elim (Bool-cases (leb e.created_at x.created_at)) [
    | inl first ↦ rw first (Perm.refl (e ∷ x ∷ es))
    | inr later ↦ rw later (Perm.trans (Perm.cons x (insert_by_time-perm e es)) (Perm.swap e x es))
  ]

  sort_by_time-IsSortedFrom : (es : List (Entry P M)) → IsSortedFrom 0 (sort_by_time es)
  unfolding sort_by_time
  sort_by_time-IsSortedFrom [] = tt
  sort_by_time-IsSortedFrom (e ∷ es) =
      insert_by_time-IsSortedFrom 0 e (sort_by_time es) (omega arith) (sort_by_time-IsSortedFrom es)

  sort_by_time-perm : (es : List (Entry P M)) → Perm (sort_by_time es) es
  unfolding sort_by_time
  sort_by_time-perm [] = Perm.refl []
  sort_by_time-perm (e ∷ es) =
      Perm.trans (insert_by_time-perm e (sort_by_time es)) (Perm.cons e (sort_by_time-perm es))

  -- After `load_from_disk` the entries in memory are those of the files that can be parsed, each
  -- once, ordered by their times of creation, whatever was in memory before.
  pub load_from_disk_lem :
      (files : List (Option (Entry P M))) (q : Queue P M)
      → IsSortedFrom 0 (load_from_disk files q).entries
        × Perm (load_from_disk files q).entries (parsed files)
  unfolding load_from_disk
  load_from_disk_lem files q =
      (sort_by_time-IsSortedFrom (parsed files), sort_by_time-perm (parsed files))

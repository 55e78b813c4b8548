-- ===== src/DeadLetter/Cleanup.antt =====
-- `cleanup` drops the entries beyond the retention period and no others.
use comfyui_engine.Prelude.{
  ℕ, ◌+◌, ◌≡◌, ◌↔◌, refl, sym, ◌∙◌, ap, inl, inr, Bool, true, false, not, none, List, [], ◌∷◌, ◌++◌,
  String, append_assoc, arith, length, keep, count_if, any, All, All-append_one,
  length-keep-eq-count_if, str_eq, Bool-cases, if◌then◌else◌,
}
use comfyui_engine.DeadLetter.{
  Entry, Queue, remove_persisted, read_file, remove_entry, remove_each, is_old, cleanup,
}
use comfyui_engine.DeadLetter.Files.{read_file-remove_persisted}

module _ {P M : Type 0} (same : Entry P M → Entry P M → Bool)
    (same_iff : (a b : Entry P M) → (same a b ≡ true) ↔ (a ≡ b)) where
  remove_entry-append :
      (old : Entry P M → Bool) (e : Entry P M) (ys xs : List (Entry P M))
      → old e ≡ true
      → All (λ y. old y ≡ false) ys
      → remove_entry same e (ys ++ e ∷ xs) ≡ ys ++ xs
  unfolding remove_entry
  remove_entry-append old e [] xs h young = rw ((same_iff e e).1 refl) refl
  remove_entry-append old e (y ∷ ys) xs h young = elim (Bool-cases (same y e)) [
    | inl eq ↦ let p : y ≡ e = (same_iff y e).0 eq in absurd (cc (ap old p))
    | inr ne ↦ rw ne (ap (◌∷◌ y) (remove_entry-append old e ys xs h young.1))
  ]

  remove_each-entries :
      (old : Entry P M → Bool) (ys xs : List (Entry P M)) (q : Queue P M) (n : ℕ)
      → q.entries ≡ ys ++ xs
      → All (λ y. old y ≡ false) ys
      → ((remove_each same (keep old xs) q n).0.entries ≡ ys ++ keep (λ e. not (old e)) xs)
        × ((remove_each same (keep old xs) q n).1 ≡ n + length (keep old xs))
  unfolding remove_each
  remove_each-entries old ys [] q n h young = (h, omega arith)
  remove_each-entries old ys (x ∷ xs) q n h young = elim (Bool-cases (old x)) [
    | inl o ↦
        let q' : Queue P M = record q {
          entries = remove_entry same x q.entries;
          disk = remove_persisted x.job_id q.disk;
        } in
        let p : q'.entries ≡ ys ++ xs =
          ap (remove_entry same x) h ∙ remove_entry-append old x ys xs o young in
        let (es, k) = remove_each-entries old ys xs q' (n + 1) p young in rw o (es, omega arith)
    | inr y ↦
        let p : q.entries ≡ (ys ++ x ∷ []) ++ xs = h ∙ sym (append_assoc ys (x ∷ []) xs) in
        let (es, k) =
          remove_each-entries old (ys ++ x ∷ []) xs q n p
            (All-append_one (λ e. old e ≡ false) ys x young y) in
        rw y (es ∙ append_assoc ys (x ∷ []) (keep (λ e. not (old e)) xs), k)
  ]

  remove_each-disk :
      (es : List (Entry P M)) (q : Queue P M) (n : ℕ) (id : String)
      → read_file id (remove_each same es q n).0.disk
        ≡ (if any (λ e. str_eq e.job_id id) es then none else read_file id q.disk)
  unfolding remove_each
  remove_each-disk [] q n id = refl
  remove_each-disk (e ∷ es) q n id = ground (
    arith,
    remove_each-disk es
        (record q {
          entries = remove_entry same e q.entries;
          disk = remove_persisted e.job_id q.disk;
        })
        (n + 1) id,
    read_file-remove_persisted e.job_id id q.disk,
  )

  -- With an equality of entries that decides their being equal, `cleanup` leaves exactly the
  -- entries within the retention period, in their order, returns the number of the others, and
  -- unlinks the files under the job ids of the others and no more.
  cleanup_lem :
      (now : ℕ) (q : Queue P M)
      → ((cleanup same now q).0.entries ≡ keep (λ e. not (is_old now q.retention_days e)) q.entries)
        × ((cleanup same now q).1 ≡ count_if (is_old now q.retention_days) q.entries)
        × ((id : String)
            → read_file id (cleanup same now q).0.disk ≡ (
                if any (λ e. str_eq e.job_id id) (keep (is_old now q.retention_days) q.entries)
                then none
                else read_file id q.disk))
  unfolding cleanup
  cleanup_lem now q =
      let old = is_old now q.retention_days in
      let (es, n) = remove_each-entries old [] q.entries q 0 refl tt in
      (
        es,
        omega (arith, length-keep-eq-count_if old q.entries),
        λ id. remove_each-disk (keep old q.entries) q 0 id,
      )

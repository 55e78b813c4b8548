-- ===== src/Channel/Latest.antt =====
-- A reader gets the last payload that was written, once.
use comfyui_engine.Prelude.{
  ℕ, zero, suc, ◌+◌, ◌%◌, ◌≤◌, ◌<◌, ◌≡◌, ◌≢◌, refl, ◌∙◌, ap, inl, inr, Option, none, some, List, [],
  ◌∷◌, ◌++◌, arith, length, take, take-append, drop, replicate, All, ltb, ◌==◌, Bool-cases,
}
use comfyui_engine.Channel.{
  Shm, seq_mod, write, read_if_new, write_all, write_maybe, or_later, aread,
}

-- The payload that a reader finds after a payload and the ones after it.
abbrev pub last_of : List ℕ → List (List ℕ) → List ℕ
last_of p [] = p
last_of p (q ∷ qs) = last_of q qs

-- The slot holds a payload, and the counters are in their range.
pub record Holds (s : Shm) (payload : List ℕ) : Type 0 where
  pub slot : take s.data_len s.bytes ≡ payload
  pub in_range : s.write_seq < seq_mod

length-overwrite :
    (p bytes : List ℕ)
    → length p ≤ length bytes
    → length (p ++ drop (length p) bytes) ≡ length bytes
length-overwrite [] bytes h = refl
length-overwrite (x ∷ p) [] h = absurd (omega (arith, h))
length-overwrite (x ∷ p) (b ∷ bytes) h = omega (arith, length-overwrite p bytes (omega (arith, h)))

module _ (size : ℕ) where
  -- A payload is no longer than the data size and than the bytes of the segment.
  abbrev pub Fits : ℕ → List ℕ → Type 0
  Fits n q = (length q ≤ size) × (length q ≤ n)

  write_lem :
      (p : List ℕ) (s : Shm)
      → length p ≤ size
      → length p ≤ length s.bytes
      → write size p s
        ≡ some (record {
          write_seq = (s.write_seq + 1) % seq_mod;
          read_seq = s.read_seq;
          data_len = length p;
          bytes = p ++ drop (length p) s.bytes;
        })
  unfolding write
  write_lem p s h room = elim (Bool-cases (ltb size (length p))) [
    | inl big ↦ absurd (ground arith)
    | inr fits ↦ elim (Bool-cases (ltb (length s.bytes) (length p))) [
      | inl longer ↦ absurd (ground arith)
      | inr inside ↦ rw (fits, inside) refl
    ]
  ]

  write_all_from :
      (n : ℕ) (p : List ℕ) (ps : List (List ℕ)) (s : Shm)
      → All (Fits n) (p ∷ ps)
      → n ≤ length s.bytes
      → (s' : Shm) × (write_all size (p ∷ ps) s ≡ some s')
        × Holds s' (last_of p ps)
        × (s'.write_seq ≡ (s.write_seq + suc (length ps)) % seq_mod)
        × (s'.read_seq ≡ s.read_seq)
  unfolding write_all
  write_all_from n p [] s fits room = (
    _,
    rw (write_lem p s fits.0.0 (omega (arith, fits.0.1)), write_all) refl,
    record { slot = take-append p (drop (length p) s.bytes); in_range = omega arith },
    refl,
    refl,
  )
  write_all_from n p (q ∷ qs) s fits room =
      let first : Shm = record {
        write_seq = (s.write_seq + 1) % seq_mod;
        read_seq = s.read_seq;
        data_len = length p;
        bytes = p ++ drop (length p) s.bytes;
      } in
      let (s', e, h, w, r) =
        write_all_from n q qs first fits.1
          (omega (arith, room, length-overwrite p s.bytes (omega (arith, fits.0.1)))) in
      (s', rw (write_lem p s fits.0.0 (omega (arith, fits.0.1)), write_all) e, h, omega arith, r)

  read_new :
      (s : Shm) (p : List ℕ)
      → Holds s p
      → s.write_seq ≢ s.read_seq
      → read_if_new s ≡ (some p, record s { read_seq = s.write_seq })
  unfolding read_if_new
  read_new s p h ne = elim (Bool-cases (s.write_seq == s.read_seq)) [
    | inl same ↦ absurd (ground arith)
    | inr new ↦ rw (new, h.slot) refl
  ]

  read_old : (s : Shm) → s.write_seq ≡ s.read_seq → read_if_new s ≡ (none, s)
  unfolding read_if_new
  read_old s e = elim (Bool-cases (s.write_seq == s.read_seq)) [
    | inl same ↦ simp same
    | inr new ↦ absurd (ground arith)
  ]

  -- On a channel with nothing new, any number of writes of payloads that are no longer than the data
  -- size and than the segment all succeed. Unless their number
  -- is a multiple of 2 ^ 64, the next `read_if_new` gives the last payload whole, and the one after
  -- it gives nothing; if it is, the counter has come round and `read_if_new` gives nothing.
  pub read-write_all :
      (p : List ℕ) (ps : List (List ℕ)) (s : Shm)
      → All (Fits (length s.bytes)) (p ∷ ps)
      → s.write_seq ≡ s.read_seq
      → s.write_seq < seq_mod
      → (s' : Shm) × (write_all size (p ∷ ps) s ≡ some s')
        × (suc (length ps) % seq_mod ≢ 0
            → ((read_if_new s').0 ≡ some (last_of p ps))
              × (read_if_new (read_if_new s').1 ≡ (none, (read_if_new s').1)))
        × (suc (length ps) % seq_mod ≡ 0 → read_if_new s' ≡ (none, s'))
  read-write_all p ps s fits drained range =
      let (s', e, h, w, r) = write_all_from (length s.bytes) p ps s fits (omega arith) in
      (
        s',
        e,
        λ ne.
            let got = read_new s' (last_of p ps) h (λ same. ne (omega arith)) in
            rw got (refl, read_old (record s' { read_seq = s'.write_seq }) refl),
        λ round. read_old s' (omega arith),
      )

  write_maybe_lem :
      (p : List ℕ) (s : Shm)
      → length p ≤ size
      → length p ≤ length s.bytes
      → write_maybe size (some p) s ≡ record {
        write_seq = (s.write_seq + 1) % seq_mod;
        read_seq = s.read_seq;
        data_len = length p;
        bytes = p ++ drop (length p) s.bytes;
      }
  unfolding write_maybe
  write_maybe_lem p s fits room = rw (write_lem p s fits room, write_maybe) refl

  aread_idle :
      (polls : List (Option (List ℕ))) (s : Shm)
      → s.write_seq ≡ s.read_seq
      → aread size (none ∷ polls) s ≡ aread size polls s
  unfolding aread
  aread_idle polls s e = ap (λ r. or_later r.0 (aread size polls r.1)) (read_old s e)

  aread_found :
      (p : List ℕ) (polls : List (Option (List ℕ))) (s : Shm)
      → length p ≤ size
      → length p ≤ length s.bytes
      → s.write_seq ≡ s.read_seq
      → s.write_seq < seq_mod
      → aread size (some p ∷ polls) s ≡ some p
  unfolding aread
  aread_found p polls s fits room drained range =
      let written : Shm = record {
        write_seq = (s.write_seq + 1) % seq_mod;
        read_seq = s.read_seq;
        data_len = length p;
        bytes = p ++ drop (length p) s.bytes;
      } in
      let holds : Holds written p = record {
        slot = take-append p (drop (length p) s.bytes);
        in_range = omega arith;
      } in
      ap (λ r. or_later r.0 (aread size polls r.1))
        (ap read_if_new (write_maybe_lem p s fits room) ∙ read_new written p holds (omega arith))

  -- On a channel with nothing new, a waiting reader polls past every poll before which nothing is
  -- written, and returns the first payload that is written (and fits), whatever comes after it.
  aread_lem :
      (idle : ℕ) (p : List ℕ) (polls : List (Option (List ℕ))) (s : Shm)
      → length p ≤ size
      → length p ≤ length s.bytes
      → s.write_seq ≡ s.read_seq
      → s.write_seq < seq_mod
      → aread size (replicate idle none ++ some p ∷ polls) s ≡ some p
  aread_lem zero p polls s fits room drained range = aread_found p polls s fits room drained range
  aread_lem (suc idle) p polls s fits room drained range =
      aread_idle (replicate idle none ++ some p ∷ polls) s drained
      ∙ aread_lem idle p polls s fits room drained range

-- ===== src/Security/Window.antt =====
-- The limit of requests in every window.
use comfyui_engine.Prelude.{
  ℕ, ◌+◌, ◌≡◌, ◌≤◌, ◌<◌, refl, ap, sym, ◌∙◌, inl, inr, arith, Bool, true, false, Option, none, some,
  List, [], ◌∷◌, ◌++◌, String, length, keep, leb, str_eq, eq_iff, if◌then◌else◌, lookup,
  lookup-insert, keep-append, length-append, append_assoc, append-nil, Bool-cases,
}
use text.Mathlib.TextPositions.{eq_refl}
use comfyui_engine.Security.RateLimit.{
  Limiter, Verdict, requests_of, in_window, set_requests, refuse, is_allowed,
}

keep-later :
    (w last now : ℕ) (ts : List ℕ)
    → last ≤ now
    → keep (in_window w now) (keep (in_window w last) ts) ≡ keep (in_window w now) ts
keep-later w last now [] h = refl
keep-later w last now (t ∷ ts) h = ground (arith, h, keep-later w last now ts h)

length-keep-later :
    (w last now : ℕ) (ts : List ℕ)
    → last ≤ now
    → length (keep (in_window w now) ts) ≤ length (keep (in_window w last) ts)
length-keep-later w last now [] h = omega arith
length-keep-later w last now (t ∷ ts) h = ground (arith, h, length-keep-later w last now ts h)

requests_of-set_requests :
    (k key : String) (ts : List ℕ) (l : Limiter)
    → requests_of k (set_requests key ts l) ≡ (if str_eq key k then ts else requests_of k l)
unfolding requests_of set_requests
requests_of-set_requests k key ts l = ground (arith, lookup-insert key k ts l.requests)

-- The requests that count at a time, and whether they fill the window.
abbrev recent : ℕ → String → Limiter → List ℕ
recent now key l = keep (in_window l.window_size now) (requests_of key l)

abbrev is_full : ℕ → String → Limiter → Bool
is_full now key l = leb l.max_requests (length (recent now key l))

is_allowed-limiter :
    (now : ℕ) (key : String) (l : Limiter)
    → (is_allowed now key l).0
      ≡ set_requests key (recent now key l ++ (if is_full now key l then [] else now ∷ [])) l
unfolding is_allowed
is_allowed-limiter now key l = elim (Bool-cases (is_full now key l)) [
  | inl e ↦ rw (is_allowed, e, append-nil (recent now key l)) refl
  | inr e ↦ rw (is_allowed, e) refl
]

-- A request was allowed.
unfoldable pub was_allowed : Option Verdict → Bool
was_allowed none = false
was_allowed (some v) = v.0

was_allowed-refuse : (w now : ℕ) (ts : List ℕ) → was_allowed (refuse w now ts) ≡ false
unfolding refuse was_allowed
was_allowed-refuse w now [] = refl
was_allowed-refuse w now (t ∷ ts) = refl

was_allowed-is_allowed :
    (now : ℕ) (key : String) (l : Limiter)
    → was_allowed (is_allowed now key l).1 ≡ (if is_full now key l then false else true)
unfolding is_allowed was_allowed
was_allowed-is_allowed now key l = elim (Bool-cases (is_full now key l)) [
  | inl e ↦ rw (is_allowed, e) (was_allowed-refuse l.window_size now (recent now key l))
  | inr e ↦ rw (is_allowed, e) refl
]

-- The times at which requests under a key were allowed, along a sequence of requests.
unfoldable pub granted : String → List (String × ℕ) → Limiter → List ℕ
unfolding is_allowed was_allowed
granted k [] l = []
granted k ((key, now) ∷ rs) l =
    let rest = granted k rs (is_allowed now key l).0 in
    if str_eq key k
    then (if was_allowed (is_allowed now key l).1 then now ∷ rest else rest)
    else rest

unfoldable pub run : List (String × ℕ) → Limiter → Limiter
unfolding is_allowed
run [] l = l
run ((key, now) ∷ rs) l = run rs (is_allowed now key l).0

-- The times do not fall, from one time to another.
abbrev pub IsOrdered : ℕ → List (String × ℕ) → ℕ → Type 0
IsOrdered t [] end = t ≤ end
IsOrdered t ((key, now) ∷ rs) end = (t ≤ now) × IsOrdered now rs end

-- The limiter holds, of the times allowed under the key, those in the window of a time.
abbrev pub Tracks : ℕ → ℕ → String → ℕ → List ℕ → Limiter → Type 0
Tracks w max k last history l =
    (l.window_size ≡ w)
    × (l.max_requests ≡ max)
    × (requests_of k l ≡ keep (in_window w last) history)
    × (length (keep (in_window w last) history) ≤ max)

-- The requests under the key after one more request under it.
requests_of-is_allowed :
    (now : ℕ) (k : String) (l : Limiter)
    → requests_of k (is_allowed now k l).0
      ≡ recent now k l ++ (if is_full now k l then [] else now ∷ [])
requests_of-is_allowed now k l =
    ap (requests_of k) (is_allowed-limiter now k l)
    ∙ requests_of-set_requests k k (recent now k l ++ (if is_full now k l then [] else now ∷ [])) l
    ∙ rw (eq_refl k) refl

is_allowed-limits :
    (now : ℕ) (key : String) (l : Limiter)
    → ((is_allowed now key l).0.window_size ≡ l.window_size)
      × ((is_allowed now key l).0.max_requests ≡ l.max_requests)
unfolding set_requests
is_allowed-limits now key l = rw (is_allowed-limiter now key l) (refl, refl)

recent-Tracks :
    (w max : ℕ) (k : String) (last now : ℕ) (history : List ℕ) (l : Limiter)
    → last ≤ now
    → Tracks w max k last history l
    → recent now k l ≡ keep (in_window w now) history
unfolding requests_of
recent-Tracks w max k last now history l h tracks =
    rw (tracks.0, tracks.2) (keep-later w last now history h)

keep-in_window-now : (w now : ℕ) → 0 < w → keep (in_window w now) (now ∷ []) ≡ now ∷ []
keep-in_window-now w now positive = ground (arith, positive)

has_room : (max n : ℕ) → leb max n ≡ false → n + 1 ≤ max
has_room max n e = ground (arith, e)

Tracks-same_key :
    (w max : ℕ) (k : String) (last now : ℕ) (history : List ℕ) (l : Limiter)
    → 0 < w
    → last ≤ now
    → Tracks w max k last history l
    → Tracks w max k now
        (history ++ (if is_full now k l then [] else now ∷ []))
        (is_allowed now k l).0
Tracks-same_key w max k last now history l positive h tracks =
    let same = recent-Tracks w max k last now history l h tracks in
    elim (Bool-cases (is_full now k l)) [
      | inl e ↦ (
        (is_allowed-limits now k l).0 ∙ tracks.0,
        (is_allowed-limits now k l).1 ∙ tracks.1,
        requests_of-is_allowed now k l
            ∙ rw (e, same, append-nil (keep (in_window w now) history), append-nil history) refl,
        rw (e, append-nil history)
            (omega (arith, length-keep-later w last now history h, tracks.3)),
      )
      | inr e ↦ (
        (is_allowed-limits now k l).0 ∙ tracks.0,
        (is_allowed-limits now k l).1 ∙ tracks.1,
        requests_of-is_allowed now k l
            ∙ rw
                (
                  e,
                  same,
                  keep-append (in_window w now) history (now ∷ []),
                  keep-in_window-now w now positive,
                )
                refl,
        rw
            (
              e,
              keep-append (in_window w now) history (now ∷ []),
              keep-in_window-now w now positive,
              length-append (keep (in_window w now) history) (now ∷ []),
            )
            (has_room max (length (keep (in_window w now) history))
              (rw (sym tracks.1, sym same) e)),
      )
    ]

Tracks-other_key :
    (w max : ℕ) (k key : String) (last now : ℕ) (history : List ℕ) (l : Limiter)
    → str_eq key k ≡ false
    → Tracks w max k last history l
    → Tracks w max k last history (is_allowed now key l).0
Tracks-other_key w max k key last now history l other tracks = (
  (is_allowed-limits now key l).0 ∙ tracks.0,
  (is_allowed-limits now key l).1 ∙ tracks.1,
  ap (requests_of k) (is_allowed-limiter now key l)
      ∙ requests_of-set_requests k key
          (recent now key l ++ (if is_full now key l then [] else now ∷ [])) l
      ∙ rw other tracks.2,
  tracks.3,
)

IsOrdered-earlier :
    (s t end : ℕ) (rs : List (String × ℕ)) → s ≤ t → IsOrdered t rs end → IsOrdered s rs end
IsOrdered-earlier s t end [] h ordered = omega (arith, h, ordered)
IsOrdered-earlier s t end ((key, now) ∷ rs) h ordered = (omega (arith, h, ordered.0), ordered.1)

granted-same_key :
    (k : String) (now : ℕ) (rs : List (String × ℕ)) (l : Limiter)
    → granted k ((k, now) ∷ rs) l
      ≡ (if is_full now k l then [] else now ∷ []) ++ granted k rs (is_allowed now k l).0
unfolding granted
granted-same_key k now rs l =
    rw (eq_refl k, was_allowed-is_allowed now k l)
      (elim (Bool-cases (is_full now k l)) [ inl e ↦ rw e refl | inr e ↦ rw e refl ])

-- The limiter after a request under the key, with the times allowed so far.
Tracks-granted :
    (w max : ℕ) (k : String) (last end : ℕ) (history : List ℕ) (rs : List (String × ℕ))
    (l : Limiter)
    → 0 < w
    → IsOrdered last rs end
    → Tracks w max k last history l
    → length (keep (in_window w end) (history ++ granted k rs l)) ≤ max
unfolding granted
Tracks-granted w max k last end history [] l positive h tracks =
    rw (append-nil history) (omega (arith, length-keep-later w last end history h, tracks.3))
Tracks-granted w max k last end history ((key, now) ∷ rs) l positive h tracks =
    elim (Bool-cases (str_eq key k)) [
      | inl e ↦
          rw
            (
              (eq_iff key k).0 e,
              granted-same_key k now rs l,
              sym (
                  append_assoc history (if is_full now k l then [] else now ∷ [])
                    (granted k rs (is_allowed now k l).0)),
            )
            (Tracks-granted w max k now end (history ++ (if is_full now k l then [] else now ∷ []))
              rs (is_allowed now k l).0 positive h.1
              (Tracks-same_key w max k last now history l positive h.0 tracks))
      | inr e ↦ rw e (
          Tracks-granted w max k last end history rs (is_allowed now key l).0 positive
            (IsOrdered-earlier last now end rs h.0 h.1)
            (Tracks-other_key w max k key last now history l e tracks))
    ]

-- In a run of requests from an empty limiter, at times that do not fall and end no later than
-- `end`, no more requests under a key than the limit are allowed in the window that ends at `end`.
pub granted_lem :
    (k : String) (end : ℕ) (rs : List (String × ℕ)) (l : Limiter)
    → 0 < l.window_size
    → l.requests ≡ []
    → IsOrdered 0 rs end
    → length (keep (in_window l.window_size end) (granted k rs l)) ≤ l.max_requests
unfolding requests_of lookup
granted_lem k end rs l positive empty h =
    Tracks-granted l.window_size l.max_requests k 0 end [] rs l positive h
      (refl, refl, rw empty refl, omega arith)

-- ===== src/Bus/Query/Cache.antt =====
-- What the cache saves and what it forgets.
use text.Mathlib.TextPositions.{eq_refl}
use comfyui_engine.Prelude.{
  ◌≡◌, refl, false, none, some, String, arith, str_eq, lookup, erase, lookup-insert, lookup-erase,
}
use comfyui_engine.Bus.Query.{Bus, ask, store, ask_cached, invalidate}

module _ {Q R : Type 0} where
  -- After a cached query gave a result, asking under the same key again, with whatever query, gives
  -- that result, runs no handler and changes nothing; under the other keys the cache says what it
  -- said before.
  pub ask_cached_again :
      (t t' key : String) (query query' : Q) (bus : Bus Q R) {result : R}
      → (ask_cached t query key bus).0 ≡ some result
      → (ask_cached t' query' key (ask_cached t query key bus).1
          ≡ (some result, (ask_cached t query key bus).1))
        × ((other : String)
            → str_eq key other ≡ false
            → lookup other (ask_cached t query key bus).1.cache ≡ lookup other bus.cache)
  unfolding ask_cached
  ask_cached_again t t' key query query' bus {result} h = (
    ground (arith, lookup-insert key key result bus.cache, eq_refl key),
    λ other ne. ground (arith, lookup-insert key other result bus.cache),
  )

  ask_missing :
      (t key : String) (query : Q) (bus : Bus Q R)
      → lookup key bus.cache ≡ none
      → ask_cached t query key bus ≡ store key (ask t query bus)
  unfolding ask_cached
  ask_missing t key query bus h = rw (h, ask_cached) refl

  -- After `invalidate` the next cached query under the key asks the handler anew, also where it had
  -- a result before; the other keys keep theirs.
  pub ask_cached-invalidate :
      (t key : String) (query : Q) (bus : Bus Q R)
      → (ask_cached t query key (invalidate key bus) ≡ store key (ask t query (invalidate key bus)))
        × ((other : String)
            → str_eq key other ≡ false
            → lookup other (invalidate key bus).cache ≡ lookup other bus.cache)
  unfolding invalidate
  ask_cached-invalidate t key query bus = (
    ask_missing t key query (record bus { cache = erase key bus.cache })
        (rw (lookup-erase key key bus.cache, eq_refl) refl),
    λ other ne. rw (lookup-erase key other bus.cache) (rw ne refl),
  )

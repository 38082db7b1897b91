-- ===== src/TtlCache/Tests.antt =====
-- A cache of numbers that lives for ten ticks.
use aura_tracker_gcp.Prelude.{
  ℕ, ◌+◌, ◌≤◌, ◌<◌, String, none, some, List, [], ◌∷◌, ◌++◌, ◌≡◌, ◌⊎◌, refl, arith, string_eq, All,
  length,
}
use aura_tracker_gcp.GoMap.{GoMap, Distinct, lookup, insert, delete, delete_where}
use aura_tracker_gcp.TtlCache.{
  TtlEntry, new_ttl_cache, default_cache_max_entries, read, reread, get, make_room, set,
}
use aura_tracker_gcp.TtlCache.Steps.{Step, sets, rereads, after_steps, step, overwrites}
use aura_tracker_gcp.TtlCache.Bounds.{after_new-IsBounded, new_ttl_cache-IsBounded}
use aura_tracker_gcp.TtlCache.Freshness.{IsFresh, get-IsFresh}
use aura_tracker_gcp.TtlCache.Retention.{
  IsQuiet, EntryAt, HasNames, IsEarliest, get_after_set, make_room_evicts,
}

abbrev history : List (Step ℕ)
history = sets "b" 8 3 ∷ rereads "a" 2 ∷ sets "a" 7 1 ∷ []

abbrev refresh : List (Step ℕ)
refresh = sets "a" 9 12 ∷ []

-- The read lock finds an entry past its deadline, and the write lock the value of another caller.
refreshed :
    (get "a" 11 13 (λ c. after_steps c refresh) (after_steps (new_ttl_cache 10) history)).0 ≡ some 9
unfolding get after_steps step set reread new_ttl_cache read lookup insert delete_where
    default_cache_max_entries
refreshed = refl

get-IsFresh_example : IsFresh 10 "a" 9 11 history ⊎ IsFresh 10 "a" 9 13 (refresh ++ history)
get-IsFresh_example = get-IsFresh 10 "a" 9 11 13 refresh history refreshed

new_ttl_cache-IsBounded_example :
    Distinct (after_steps (new_ttl_cache 10) (refresh ++ history)).entries
    × ((after_steps (new_ttl_cache 10) (refresh ++ history)).capacity ≡ 1024)
    × (length (after_steps (new_ttl_cache 10) (refresh ++ history)).entries ≤ 1024)
new_ttl_cache-IsBounded_example = new_ttl_cache-IsBounded 10 (refresh ++ history)

spare :
    length (after_steps (new_ttl_cache {V = ℕ} 10) []).entries + 1 + 2
    ≤ (after_steps (new_ttl_cache {V = ℕ} 10) []).capacity
unfolding after_steps new_ttl_cache default_cache_max_entries
spare = omega arith

quiet :
    All
      (IsQuiet {V = ℕ} "a" (1 + (after_steps (new_ttl_cache {V = ℕ} 10) []).ttl))
      (sets "b" 8 3 ∷ rereads "a" 2 ∷ [])
unfolding after_steps new_ttl_cache overwrites
quiet = ((refl, omega arith), ((refl, omega arith), tt))

in_time : 5 < 1 + (after_steps (new_ttl_cache {V = ℕ} 10) []).ttl
unfolding after_steps new_ttl_cache
in_time = omega arith

get_after_set_example :
    (get {V = ℕ} "a" 5 5
      (λ c. c)
      (after_steps
        (set "a" 7 1 (after_steps (new_ttl_cache 10) []))
        (sets "b" 8 3 ∷ rereads "a" 2 ∷ []))).0
    ≡ some 7
get_after_set_example =
    get_after_set "a" 7 1 5 5 (λ c. c) (after_steps (new_ttl_cache 10) [])
      (sets "b" 8 3 ∷ rereads "a" 2 ∷ []) (after_new-IsBounded 10 []) quiet spare in_time

abbrev full : GoMap String (TtlEntry ℕ)
full =
    ("a", record { value = 7; expires_at = 11 }) ∷ ("b", record { value = 8; expires_at = 5 }) ∷ []

full_keys : (lookup "c" full ≡ none) × HasNames full × Distinct full
unfolding lookup
full_keys = (
  refl,
  (ground (arith, string_eq.equals_iff "a" ""), (ground (arith, string_eq.equals_iff "b" ""), tt)),
  (refl, (refl, tt)),
)

make_room_evicts_example :
    (k : String) × (t : ℕ) × (make_room "c" 2 full ≡ delete k full)
    × EntryAt k t full
    × IsEarliest t full
make_room_evicts_example =
    make_room_evicts "c" 2 full full_keys.0 (omega arith) (omega arith) full_keys.1 full_keys.2

-- ===== src/TtlCache.antt =====
-- `ttlCache` of internal/gcp/cache.go: answers of the cloud kept for a time. Each part of a method that
-- a lock protects reads the clock once, and the reading is an argument.
pub mod Steps
pub mod Bounds
pub mod Freshness
pub mod Retention
mod Tests
use aura_tracker_gcp.Prelude.{
  ℕ, ◌+◌, String, ◌&&◌, ◌||◌, Bool, true, false, Option, none, some, List, [], ◌∷◌, ◌==◌, string_eq,
  ltb, leb, if◌then◌else◌, length,
}
use aura_tracker_gcp.GoMap.{GoMap, lookup, insert, delete, delete_where}

unfoldable pub default_cache_max_entries : ℕ
default_cache_max_entries = 1024

pub record TtlEntry (V : Type 0) : Type 0 where
  pub value : V
  pub expires_at : ℕ

pub record TtlCache (V : Type 0) : Type 0 where
  pub entries : GoMap String (TtlEntry V)
  pub ttl : ℕ
  pub capacity : ℕ

-- What `get` finds under the read lock.
pub data Reading (V : Type 0) : Type 0 where
  absent : Reading V
  found : V → Reading V
  stale : Reading V

-- now.After(e.expiresAt)
abbrev pub outlived : {V : Type 0} → ℕ → TtlEntry V → Bool
outlived now e = ltb e.expires_at now

abbrev is_none : {A : Type 0} → Option A → Bool
is_none none = true
is_none (some a) = false

module _ {V : Type 0} where
  unfoldable pub new_ttl_cache : ℕ → TtlCache V
  new_ttl_cache ttl = record { entries = []; ttl = ttl; capacity = default_cache_max_entries }

  unfoldable pub read : String → ℕ → TtlCache V → Reading V
  read key now c = elim (lookup key c.entries) [
    | none ↦ absent
    | some e ↦ if ltb now e.expires_at then found e.value else stale
  ]

  -- Under the write lock, the entry read again.
  unfoldable pub reread : String → ℕ → TtlCache V → Option V × TtlCache V
  reread key now c = elim (lookup key c.entries) [
    | none ↦ (none, c)
    | some e ↦
        if ltb now e.expires_at
        then (some e.value, c)
        else (none, record c { entries = delete key c.entries })
  ]

  -- `between` is what other callers do to the cache after the read lock and before the write lock.
  unfoldable pub get :
      String → ℕ → ℕ → (TtlCache V → TtlCache V) → TtlCache V → Option V × TtlCache V
  unfolding read reread
  get key first second between c = elim (read key first c) [
    | absent ↦ (none, c)
    | found v ↦ (some v, c)
    | stale ↦ reread key second (between c)
  ]

  -- The loop for the key with the earliest deadline; a key "" that it has picked counts as none.
  unfoldable pub oldest : String → ℕ → GoMap String (TtlEntry V) → String
  oldest oldest_key oldest_expiry [] = oldest_key
  oldest oldest_key oldest_expiry ((k, e) ∷ rest) =
      let kept = oldest oldest_key oldest_expiry rest in
      let picked = oldest k e.expires_at rest in
      if oldest_key == "" || ltb e.expires_at oldest_expiry then picked else kept

  unfoldable pub make_room : String → ℕ → GoMap String (TtlEntry V) → GoMap String (TtlEntry V)
  unfolding oldest
  make_room key capacity entries =
      if is_none (lookup key entries) && leb capacity (length entries)
      then delete (oldest "" 0 entries) entries
      else entries

  unfoldable pub set : String → V → ℕ → TtlCache V → TtlCache V
  unfolding make_room
  set key v now c =
      let live = delete_where (outlived now) c.entries in
      record c {
        entries =
            insert key (record { value = v; expires_at = now + c.ttl })
              (make_room key c.capacity live);
      }

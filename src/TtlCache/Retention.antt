-- ===== src/TtlCache/Retention.antt =====
-- How long a TTL cache keeps a value, and which entry makes room for another.
use aura_tracker_gcp.Prelude.{
  ℕ, ◌+◌, ◌≤◌, ◌<◌, String, false, none, some, List, [], ◌∷◌, ◌≡◌, ◌≢◌, refl, ◌∙◌, sym, arith, ◌==◌,
  string_eq, ◌⊎◌, inl, inr, ltb, Bool-cases, length, All,
}
use aura_tracker_gcp.GoMap.{
  GoMap, lookup, delete, delete_where, Distinct, lookup-insert, lookup-delete, lookup-delete_where,
  length-insert-le, length-delete-le, length-delete_where-le,
}
use aura_tracker_gcp.TtlCache.{
  TtlEntry, TtlCache, outlived, read, reread, get, oldest, make_room, set,
}
use aura_tracker_gcp.TtlCache.Steps.{Step, sets, rereads, step, after_steps, overwrites}
use aura_tracker_gcp.TtlCache.Bounds.{IsBounded, set-IsBounded, after_steps-IsBounded}

abbrev pub time : {V : Type 0} → Step V → ℕ
time (sets key v now) = now
time (rereads key now) = now

-- The step comes before the deadline and sets no value under the key.
abbrev pub IsQuiet : {V : Type 0} → String → ℕ → Step V → Type 0
IsQuiet key deadline s = (overwrites key s ≡ false) × (time s < deadline)

module _ {V : Type 0} where
  make_room-spare :
      (key : String) (capacity : ℕ) (m : GoMap String (TtlEntry V))
      → length m < capacity
      → make_room key capacity m ≡ m
  unfolding make_room
  make_room-spare key capacity m h = ground arith

  set-keeps :
      (k key : String) (v : V) (now : ℕ) (e : TtlEntry V) (c : TtlCache V)
      → IsBounded c
      → length c.entries < c.capacity
      → lookup k c.entries ≡ some e
      → key == k ≡ false
      → now < e.expires_at
      → (lookup k (set key v now c).entries ≡ some e)
        × (length (set key v now c).entries ≤ length c.entries + 1)
  unfolding set
  set-keeps k key v now e c b spare h other early =
      let live = delete_where (outlived now) c.entries in
      let entry : TtlEntry V = record { value = v; expires_at = now + c.ttl } in
      let fewer = length-delete_where-le (outlived now) c.entries in
      let kept : lookup k live ≡ some e =
        ground (arith, lookup-delete_where (outlived now) k c.entries b.distinct) in
      rw (make_room-spare key c.capacity live (omega (arith, fewer))) (
        ground (arith, lookup-insert key k entry live),
        omega (arith, fewer, length-insert-le key entry live),
      )

  -- The second look of `get` deletes no entry that is not past its deadline.
  pub reread-keeps :
      (k key : String) (now : ℕ) (e : TtlEntry V) (c : TtlCache V)
      → lookup k c.entries ≡ some e
      → now < e.expires_at
      → (lookup k (reread key now c).1.entries ≡ some e)
        × (length (reread key now c).1.entries ≤ length c.entries)
        × ((reread key now c).1.capacity ≡ c.capacity)
  unfolding reread
  reread-keeps k key now e c h early = ground (
    arith,
    lookup-delete key k c.entries,
    length-delete-le key c.entries,
    string_eq.equals_iff key k,
  )

  steps-keep :
      (k : String) (e : TtlEntry V) (c : TtlCache V) (steps : List (Step V))
      → IsBounded c
      → lookup k c.entries ≡ some e
      → All (IsQuiet k e.expires_at) steps
      → length c.entries + length steps ≤ c.capacity
      → (lookup k (after_steps c steps).entries ≡ some e)
        × (length (after_steps c steps).entries ≤ length c.entries + length steps)
        × ((after_steps c steps).capacity ≡ c.capacity)
  unfolding after_steps step overwrites set
  steps-keep k e c [] b h q room = (h, omega arith, refl)
  steps-keep k e c (sets key v now ∷ steps) b h q room =
      let d = after_steps c steps in
      let (there, size, same) = steps-keep k e c steps b h q.1 (omega arith) in
      let (there', size') =
        set-keeps k key v now e d (after_steps-IsBounded c steps b) (omega arith) there q.0.0
          q.0.1 in
      (there', omega arith, same)
  steps-keep k e c (rereads key now ∷ steps) b h q room =
      let d = after_steps c steps in
      let (there, size, same) = steps-keep k e c steps b h q.1 (omega arith) in
      let (there', size', same') = reread-keeps k key now e d there q.0.1 in
      (there', omega arith, same' ∙ same)

  set-length-le :
      (key : String) (v : V) (now : ℕ) (c : TtlCache V)
      → length (set key v now c).entries ≤ length c.entries + 1
  unfolding set make_room
  set-length-le key v now c =
      let live = delete_where (outlived now) c.entries in
      let entry : TtlEntry V = record { value = v; expires_at = now + c.ttl } in
      omega (
        arith,
        length-delete_where-le (outlived now) c.entries,
        length-insert-le key entry (make_room key c.capacity live),
        make_room-le key c.capacity live,
      )
    where
      make_room-le :
          (key : String) (capacity : ℕ) (m : GoMap String (TtlEntry V))
          → length (make_room key capacity m) ≤ length m
      make_room-le key capacity m = ground (arith, length-delete-le (oldest "" 0 m) m)

  lookup-set :
      (key : String) (v : V) (now : ℕ) (c : TtlCache V)
      → lookup key (set key v now c).entries ≡ some (record { value = v; expires_at = now + c.ttl })
  unfolding set
  lookup-set key v now c =
      let entry : TtlEntry V = record { value = v; expires_at = now + c.ttl } in
      let m = make_room key c.capacity (delete_where (outlived now) c.entries) in
      ground (arith, lookup-insert key key entry m, string_eq.equals_iff key key)

  set-capacity :
      (key : String) (v : V) (now : ℕ) (c : TtlCache V) → (set key v now c).capacity ≡ c.capacity
  unfolding set
  set-capacity key v now c = refl

  -- In a cache within its bounds, a value is found by `get` at every moment before the time to live
  -- has passed, whatever the steps since that do not set its key, as long as each came before that
  -- deadline too and the cache has room for one entry more for each step.
  pub get_after_set :
      (key : String) (v : V) (now first second : ℕ) (between : TtlCache V → TtlCache V)
      (c : TtlCache V) (steps : List (Step V))
      → IsBounded c
      → All (IsQuiet key (now + c.ttl)) steps
      → length c.entries + 1 + length steps ≤ c.capacity
      → first < now + c.ttl
      → (get key first second between (after_steps (set key v now c) steps)).0 ≡ some v
  unfolding get read
  get_after_set key v now first second between c steps b q room early =
      let d = set key v now c in
      let e : TtlEntry V = record { value = v; expires_at = now + c.ttl } in
      let (there, size, same) =
        steps-keep key e d steps (set-IsBounded key v now c b) (lookup-set key v now c) q
          (omega (arith, set-length-le key v now c, set-capacity key v now c)) in
      ground arith

  -- The deadline is no later than any entry's.
  abbrev pub IsEarliest : ℕ → GoMap String (TtlEntry V) → Type 0
  IsEarliest deadline [] = Unit
  IsEarliest deadline ((k, e) ∷ m) = (deadline ≤ e.expires_at) × IsEarliest deadline m

  abbrev pub HasNames : GoMap String (TtlEntry V) → Type 0
  HasNames [] = Unit
  HasNames ((k, e) ∷ m) = (k ≢ "") × HasNames m

  -- The entry under the key, with the deadline.
  abbrev pub EntryAt : String → ℕ → GoMap String (TtlEntry V) → Type 0
  EntryAt key deadline m = (e : TtlEntry V) × (lookup key m ≡ some e) × (e.expires_at ≡ deadline)

  EntryAt-head :
      (j k : String) (e : TtlEntry V) (t : ℕ) (m : GoMap String (TtlEntry V))
      → j ≡ k
      → t ≡ e.expires_at
      → EntryAt j t ((k, e) ∷ m)
  unfolding lookup
  EntryAt-head j k e t m same deadline = (e, ground (arith, string_eq.equals_iff k j), sym deadline)

  EntryAt-tail :
      (j k : String) (e : TtlEntry V) (t : ℕ) (m : GoMap String (TtlEntry V))
      → lookup k m ≡ none
      → EntryAt j t m
      → EntryAt j t ((k, e) ∷ m)
  unfolding lookup
  EntryAt-tail j k e t m new (w, at, deadline) =
      (w, ground (arith, string_eq.equals_iff k j), deadline)

  -- The loop's key is the one it began with or the map's, and its deadline is the earliest.
  oldest-IsEarliest :
      (key : String) (expiry : ℕ) (m : GoMap String (TtlEntry V))
      → key ≢ ""
      → HasNames m
      → Distinct m
      → (t : ℕ) × (t ≤ expiry)
        × IsEarliest t m
        × (((oldest key expiry m ≡ key) × (t ≡ expiry)) ⊎ EntryAt (oldest key expiry m) t m)
  unfolding oldest
  oldest-IsEarliest key expiry [] named names d = (expiry, omega arith, tt, inl (refl, refl))
  oldest-IsEarliest key expiry ((k, e) ∷ m) named names d =
      let unnamed : key == "" ≡ false = ground (arith, string_eq.equals_iff key "") in
      elim (Bool-cases (ltb e.expires_at expiry)) [
        | inl earlier ↦
            let (t, below, least, which) = oldest-IsEarliest k e.expires_at m names.0 names.1 d.1 in
            (
              t,
              ground arith,
              (below, least),
              rw unnamed (
                  rw earlier (elim which [
                    | inl (same, deadline) ↦
                        inr (EntryAt-head (oldest k e.expires_at m) k e t m same deadline)
                    | inr held ↦ inr (EntryAt-tail (oldest k e.expires_at m) k e t m d.0 held)
                  ])),
            )
        | inr later ↦
            let (t, below, least, which) = oldest-IsEarliest key expiry m named names.1 d.1 in
            (
              t,
              below,
              (ground arith, least),
              rw unnamed (
                  rw later (elim which [
                    | inl own ↦ inl own
                    | inr held ↦ inr (EntryAt-tail (oldest key expiry m) k e t m d.0 held)
                  ])),
            )
      ]

  evicted-IsEarliest :
      (m : GoMap String (TtlEntry V))
      → HasNames m
      → Distinct m
      → 0 < length m
      → (t : ℕ) × IsEarliest t m × EntryAt (oldest "" 0 m) t m
  unfolding oldest
  evicted-IsEarliest [] names d pos = ground arith
  evicted-IsEarliest ((k, e) ∷ m) names d pos =
      let (t, below, least, which) = oldest-IsEarliest k e.expires_at m names.0 names.1 d.1 in
      (
        t,
        (below, least),
        elim which [
          | inl (same, deadline) ↦ EntryAt-head (oldest k e.expires_at m) k e t m same deadline
          | inr held ↦ EntryAt-tail (oldest k e.expires_at m) k e t m d.0 held
        ],
      )

  -- In a full map with no empty key, and without the key that is set, one entry is deleted: one with
  -- the earliest deadline of all.
  pub make_room_evicts :
      (key : String) (capacity : ℕ) (m : GoMap String (TtlEntry V))
      → lookup key m ≡ none
      → capacity ≤ length m
      → 0 < length m
      → HasNames m
      → Distinct m
      → (k : String) × (t : ℕ) × (make_room key capacity m ≡ delete k m)
        × EntryAt k t m
        × IsEarliest t m
  unfolding make_room
  make_room_evicts key capacity m new full pos names d =
      let (t, least, entry) = evicted-IsEarliest m names d pos in
      (oldest "" 0 m, t, ground arith, entry, least)

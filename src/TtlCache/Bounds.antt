-- ===== src/TtlCache/Bounds.antt =====
-- The size of a TTL cache.
use aura_tracker_gcp.Prelude.{
  ℕ, ◌+◌, ◌≤◌, ◌<◌, String, none, some, List, [], ◌∷◌, ◌≡◌, refl, sym, ◌∙◌, subst, arith, ◌==◌,
  string_eq, length, ◌⊎◌, inl, inr, ltb, ◌||◌, Option-cases, Bool-cases,
}
use aura_tracker_gcp.GoMap.{
  GoMap, lookup, delete, insert, delete_where, Distinct, insert-Distinct, delete-Distinct,
  delete_where-Distinct, length-insert-le, length-insert_present, length-delete-le,
  length-delete_where-le,
}
use aura_tracker_gcp.TtlCache.{
  TtlEntry, TtlCache, default_cache_max_entries, new_ttl_cache, outlived, reread, oldest, make_room,
  set,
}
use aura_tracker_gcp.TtlCache.Steps.{Step, sets, rereads, step, after_steps}

module _ {V : Type 0} where
  abbrev Holds : String → GoMap String (TtlEntry V) → Type 0
  Holds key m = (e : TtlEntry V) × (lookup key m ≡ some e)

  Holds-head : (k : String) (e : TtlEntry V) (m : GoMap String (TtlEntry V)) → Holds k ((k, e) ∷ m)
  unfolding lookup
  Holds-head k e m = (e, ground (arith, string_eq.equals_iff k k))

  Holds-tail :
      (j k : String) (e : TtlEntry V) (m : GoMap String (TtlEntry V))
      → Holds j m
      → Holds j ((k, e) ∷ m)
  unfolding lookup
  Holds-tail j k e m h = elim (Bool-cases (k == j)) [
    | inl eq ↦ (e, ground arith)
    | inr neq ↦ (h.0, ground (arith, h.1))
  ]

  -- The loop ends with the key it began with or one of the map's.
  oldest_held :
      (key : String) (expiry : ℕ) (m : GoMap String (TtlEntry V))
      → (oldest key expiry m ≡ key) ⊎ Holds (oldest key expiry m) m
  unfolding oldest
  oldest_held key expiry [] = inl refl
  oldest_held key expiry ((k, e) ∷ m) = elim (Bool-cases (key == "" || ltb e.expires_at expiry)) [
    | inl earlier ↦ rw earlier (inr (picked_held k e m (oldest_held k e.expires_at m)))
    | inr later ↦ rw later (elim (oldest_held key expiry m) [
      | inl same ↦ inl same
      | inr held ↦ inr (Holds-tail (oldest key expiry m) k e m held)
    ])
  ]
    where
      picked_held :
          (k : String) (e : TtlEntry V) (m : GoMap String (TtlEntry V))
          → (oldest k e.expires_at m ≡ k) ⊎ Holds (oldest k e.expires_at m) m
          → Holds (oldest k e.expires_at m) ((k, e) ∷ m)
      picked_held k e m (inl same) = subst (λ j. Holds j ((k, e) ∷ m)) (sym same) (Holds-head k e m)
      picked_held k e m (inr held) = Holds-tail (oldest k e.expires_at m) k e m held

  oldest-Holds :
      (k : String) (e : TtlEntry V) (m : GoMap String (TtlEntry V))
      → Holds (oldest "" 0 ((k, e) ∷ m)) ((k, e) ∷ m)
  unfolding oldest
  oldest-Holds k e m = elim (oldest_held k e.expires_at m) [
    | inl same ↦ rw same (Holds-head k e m)
    | inr held ↦ Holds-tail (oldest k e.expires_at m) k e m held
  ]

  length-delete_present :
      (k : String) (e : TtlEntry V) (m : GoMap String (TtlEntry V))
      → lookup k m ≡ some e
      → length (delete k m) < length m
  unfolding lookup delete
  length-delete_present k e [] h = ground arith
  length-delete_present k e ((j, w) ∷ m) h =
      ground (arith, length-delete_present k e m, length-delete-le k m)

  -- Where the map is full, a key of it makes room.
  make_room-fits :
      (key : String) (capacity : ℕ) (m : GoMap String (TtlEntry V))
      → 0 < capacity
      → length m ≤ capacity
      → (lookup key m ≡ none)
      → length (make_room key capacity m) < capacity
  unfolding make_room
  make_room-fits key capacity [] pos h new = ground arith
  make_room-fits key capacity ((k, e) ∷ m) pos h new =
      let (w, at) = oldest-Holds k e m in
      ground (arith, length-delete_present (oldest "" 0 ((k, e) ∷ m)) w ((k, e) ∷ m) at)

  make_room-Distinct :
      (key : String) (capacity : ℕ) (m : GoMap String (TtlEntry V))
      → Distinct m
      → Distinct (make_room key capacity m)
  unfolding make_room
  make_room-Distinct key capacity m d = ground (arith, delete-Distinct (oldest "" 0 m) m d)

  pub record IsBounded (c : TtlCache V) : Type 0 where
    pub distinct : Distinct c.entries
    pub bounded : length c.entries ≤ c.capacity
    pub positive : 0 < c.capacity

  -- A key that the map has needs no room.
  pub make_room_present :
      (key : String) (capacity : ℕ) (m : GoMap String (TtlEntry V)) (e : TtlEntry V)
      → lookup key m ≡ some e
      → make_room key capacity m ≡ m
  unfolding make_room
  make_room_present key capacity m e h = rw h refl

  set-length :
      (key : String) (entry : TtlEntry V) (capacity : ℕ) (m : GoMap String (TtlEntry V))
      → 0 < capacity
      → length m ≤ capacity
      → length (insert key entry (make_room key capacity m)) ≤ capacity
  set-length key entry capacity m pos h = elim (Option-cases (lookup key m)) [
    | inl new ↦ omega (
      arith,
      make_room-fits key capacity m pos h new,
      length-insert-le key entry (make_room key capacity m),
    )
    | inr (e, old) ↦
        rw (make_room_present key capacity m e old)
          (omega (arith, length-insert_present key entry e m old))
  ]

  pub set-IsBounded :
      (key : String) (v : V) (now : ℕ) (c : TtlCache V) → IsBounded c → IsBounded (set key v now c)
  unfolding set
  set-IsBounded key v now c b =
      let live = delete_where (outlived now) c.entries in
      let entry : TtlEntry V = record { value = v; expires_at = now + c.ttl } in
      record {
        distinct = insert-Distinct key entry (make_room key c.capacity live) (
            make_room-Distinct key c.capacity live
              (delete_where-Distinct (outlived now) c.entries b.distinct));
        bounded =
            set-length key entry c.capacity live b.positive
              (omega (arith, b.bounded, length-delete_where-le (outlived now) c.entries));
        positive = b.positive;
      }

  reread-IsBounded :
      (key : String) (now : ℕ) (c : TtlCache V) → IsBounded c → IsBounded (reread key now c).1
  unfolding reread
  reread-IsBounded key now c b =
      ground (arith, delete-Distinct key c.entries b.distinct, length-delete-le key c.entries)

  pub after_steps-IsBounded :
      (c : TtlCache V) (history : List (Step V)) → IsBounded c → IsBounded (after_steps c history)
  unfolding after_steps step
  after_steps-IsBounded c [] b = b
  after_steps-IsBounded c (sets key v now ∷ history) b =
      set-IsBounded key v now (after_steps c history) (after_steps-IsBounded c history b)
  after_steps-IsBounded c (rereads key now ∷ history) b =
      reread-IsBounded key now (after_steps c history) (after_steps-IsBounded c history b)

  pub after_new-IsBounded :
      (ttl : ℕ) (history : List (Step V)) → IsBounded (after_steps (new_ttl_cache ttl) history)
  unfolding new_ttl_cache default_cache_max_entries
  after_new-IsBounded ttl history =
      after_steps-IsBounded (new_ttl_cache ttl) history
        (record { distinct = tt; bounded = omega arith; positive = omega arith })

  reread-capacity :
      (key : String) (now : ℕ) (c : TtlCache V) → (reread key now c).1.capacity ≡ c.capacity
  unfolding reread
  reread-capacity key now c = ground arith

  after_steps-capacity :
      (c : TtlCache V) (history : List (Step V)) → (after_steps c history).capacity ≡ c.capacity
  unfolding after_steps step set
  after_steps-capacity c [] = refl
  after_steps-capacity c (sets key v now ∷ history) = after_steps-capacity c history
  after_steps-capacity c (rereads key now ∷ history) =
      reread-capacity key now (after_steps c history) ∙ after_steps-capacity c history

  -- From a new cache, whatever steps follow, no key stands twice, the capacity stays the 1,024 of
  -- `defaultCacheMaxEntries`, and there are never more entries than that.
  pub new_ttl_cache-IsBounded :
      (ttl : ℕ) (history : List (Step V))
      → let c = after_steps (new_ttl_cache {V = V} ttl) history in
        Distinct c.entries × (c.capacity ≡ 1024) × (length c.entries ≤ 1024)
  unfolding new_ttl_cache default_cache_max_entries
  new_ttl_cache-IsBounded ttl history =
      let b = after_new-IsBounded ttl history in
      let same = after_steps-capacity (new_ttl_cache {V = V} ttl) history in
      (
        b.distinct,
        same,
        subst (λ n. length (after_steps (new_ttl_cache ttl) history).entries ≤ n) same b.bounded,
      )

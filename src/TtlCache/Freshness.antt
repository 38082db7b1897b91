-- ===== src/TtlCache/Freshness.antt =====
-- Which values a TTL cache returns.
use aura_tracker_gcp.Prelude.{
  ℕ, ◌+◌, ◌<◌, String, false, some, List, [], ◌∷◌, ◌++◌, ◌≡◌, refl, ◌∙◌, ap₂, sym, subst, ap, arith,
  ◌==◌, string_eq, ◌⊎◌, inl, inr, Option-cases, Bool-cases,
}
use aura_tracker_gcp.GoMap.{
  GoMap, lookup, delete_where, Distinct, lookup-insert, lookup-delete, lookup-delete_where,
}
use aura_tracker_gcp.TtlCache.{
  TtlEntry, TtlCache, new_ttl_cache, outlived, Reading, read, found, absent, stale, reread, get,
  oldest, make_room, set,
}
use aura_tracker_gcp.TtlCache.Steps.{
  Step, sets, rereads, step, after_steps, after_steps-append, overwrites,
}
use aura_tracker_gcp.TtlCache.Bounds.{after_new-IsBounded}

module _ {V : Type 0} where
  -- In a history, the latest step first, the last value set under the key, and when.
  abbrev pub IsLatest : String → V → ℕ → List (Step V) → Type 0
  IsLatest key v t [] = ⊥
  IsLatest key v t (s ∷ history) =
      (s ≡ sets key v t) ⊎ ((overwrites key s ≡ false) × IsLatest key v t history)

  make_room-some :
      (k key : String) (capacity : ℕ) (m : GoMap String (TtlEntry V)) (e : TtlEntry V)
      → lookup k (make_room key capacity m) ≡ some e
      → lookup k m ≡ some e
  unfolding make_room
  make_room-some k key capacity m e h = ground (arith, lookup-delete (oldest "" 0 m) k m)

  live-some :
      (k : String) (now : ℕ) (m : GoMap String (TtlEntry V)) (e : TtlEntry V)
      → Distinct m
      → lookup k (delete_where (outlived now) m) ≡ some e
      → lookup k m ≡ some e
  live-some k now m e d h = ground (arith, lookup-delete_where (outlived now) k m d)

  -- An entry of the cache after `set` is the new one or was there before under another key.
  set-some :
      (k key : String) (v : V) (now : ℕ) (c : TtlCache V) (e : TtlEntry V)
      → Distinct c.entries
      → lookup k (set key v now c).entries ≡ some e
      → ((key ≡ k) × (e ≡ record { value = v; expires_at = now + c.ttl }))
        ⊎ ((key == k ≡ false) × (lookup k c.entries ≡ some e))
  unfolding set
  set-some k key v now c e d h =
      let live = delete_where (outlived now) c.entries in
      let roomy = make_room key c.capacity live in
      let entry : TtlEntry V = record { value = v; expires_at = now + c.ttl } in
      elim (Bool-cases (key == k)) [
        | inl eq ↦ inl (
          ground (arith, string_eq.equals_iff key k),
          ground (arith, lookup-insert key k entry roomy),
        )
        | inr neq ↦ inr (
          neq,
          live-some k now c.entries e d (
              make_room-some k key c.capacity live e
                (ground (arith, lookup-insert key k entry roomy))),
        )
      ]

  reread-some :
      (k key : String) (now : ℕ) (c : TtlCache V) (e : TtlEntry V)
      → lookup k (reread key now c).1.entries ≡ some e
      → lookup k c.entries ≡ some e
  unfolding reread
  reread-some k key now c e h = ground (arith, lookup-delete key k c.entries)

  reread-ttl : (key : String) (now : ℕ) (c : TtlCache V) → (reread key now c).1.ttl ≡ c.ttl
  unfolding reread
  reread-ttl key now c = ground arith

  after_steps-ttl : (c : TtlCache V) (history : List (Step V)) → (after_steps c history).ttl ≡ c.ttl
  unfolding after_steps step set
  after_steps-ttl c [] = refl
  after_steps-ttl c (sets key v now ∷ history) = after_steps-ttl c history
  after_steps-ttl c (rereads key now ∷ history) =
      reread-ttl key now (after_steps c history) ∙ after_steps-ttl c history

  entry-IsLatest :
      (ttl : ℕ) (k : String) (e : TtlEntry V) (history : List (Step V))
      → lookup k (after_steps (new_ttl_cache ttl) history).entries ≡ some e
      → (t : ℕ) × IsLatest k e.value t history × (e.expires_at ≡ t + ttl)
  unfolding after_steps step new_ttl_cache lookup overwrites
  entry-IsLatest ttl k e [] h = ground arith
  entry-IsLatest ttl k e (sets key v now ∷ history) h =
      let c = after_steps (new_ttl_cache ttl) history in
      elim (set-some k key v now c e (after_new-IsBounded ttl history).distinct h) [
        | inl (same, new) ↦ (
          now,
          inl (ap₂ (λ j w. sets j w now) same (sym (ap (λ (x : TtlEntry V). x.value) new))),
          ap (λ (x : TtlEntry V). x.expires_at) new
              ∙ ap (λ l. now + l) (after_steps-ttl (new_ttl_cache ttl) history),
        )
        | inr (other, old) ↦
            let (t, latest, deadline) = entry-IsLatest ttl k e history old in
            (t, inr (other, latest), deadline)
      ]
  entry-IsLatest ttl k e (rereads key now ∷ history) h =
      let (t, latest, deadline) =
        entry-IsLatest ttl k e history
          (reread-some k key now (after_steps (new_ttl_cache ttl) history) e h) in
      (t, inr (refl, latest), deadline)

  -- The last value set under the key, at a time that is less than `ttl` before the clock.
  abbrev pub IsFresh : ℕ → String → V → ℕ → List (Step V) → Type 0
  IsFresh ttl key v now history = (t : ℕ) × IsLatest key v t history × (now < t + ttl)

  entry-IsFresh :
      (ttl : ℕ) (key : String) (e : TtlEntry V) (now : ℕ) (history : List (Step V))
      → lookup key (after_steps (new_ttl_cache ttl) history).entries ≡ some e
      → now < e.expires_at
      → IsFresh ttl key e.value now history
  entry-IsFresh ttl key e now history h before =
      let (t, latest, deadline) = entry-IsLatest ttl key e history h in
      (t, latest, omega (arith, deadline))

  read-IsFresh :
      (ttl : ℕ) (key : String) (v : V) (now : ℕ) (history : List (Step V))
      → read key now (after_steps (new_ttl_cache ttl) history) ≡ found v
      → IsFresh ttl key v now history
  unfolding read
  read-IsFresh ttl key v now history h =
      let c = after_steps (new_ttl_cache ttl) history in
      elim (Option-cases (lookup key c.entries)) [
        | inl new ↦ ground arith
        | inr (e, at) ↦
            let before : now < e.expires_at = ground arith in
            let value : e.value ≡ v = ground arith in
            subst (λ w. IsFresh ttl key w now history) value
              (entry-IsFresh ttl key e now history at before)
      ]

  reread-IsFresh :
      (ttl : ℕ) (key : String) (v : V) (now : ℕ) (history : List (Step V))
      → (reread key now (after_steps (new_ttl_cache ttl) history)).0 ≡ some v
      → IsFresh ttl key v now history
  unfolding reread
  reread-IsFresh ttl key v now history h =
      let c = after_steps (new_ttl_cache ttl) history in
      elim (Option-cases (lookup key c.entries)) [
        | inl new ↦ ground arith
        | inr (e, at) ↦
            let before : now < e.expires_at = ground arith in
            let value : e.value ≡ v = ground arith in
            subst (λ w. IsFresh ttl key w now history) value
              (entry-IsFresh ttl key e now history at before)
      ]

  reading_cases : (r : Reading V) → (r ≡ absent) ⊎ ((v : V) × (r ≡ found v)) ⊎ (r ≡ stale)
  reading_cases absent = inl refl
  reading_cases (found v) = inr (inl (v, refl))
  reading_cases stale = inr (inr refl)

  get_cases :
      (key : String) (v : V) (first second : ℕ) (between : TtlCache V → TtlCache V) (c : TtlCache V)
      → (get key first second between c).0 ≡ some v
      → (read key first c ≡ found v) ⊎ ((reread key second (between c)).0 ≡ some v)
  unfolding get
  get_cases key v first second between c h = elim (reading_cases (read key first c)) [
    | inl nothing ↦ ground arith
    | inr (inl (w, there)) ↦ inl (ground arith)
    | inr (inr old) ↦ inr (ground arith)
  ]

  -- A value that `get` returns is the last one set under its key in the history of the cache, less
  -- than the time to live before the clock: as the read lock is held, or, with the steps that other
  -- callers make between the locks, as the write lock is held.
  pub get-IsFresh :
      (ttl : ℕ) (key : String) (v : V) (first second : ℕ) (between history : List (Step V))
      → (get key first second
          (λ c. after_steps c between)
          (after_steps (new_ttl_cache ttl) history)).0
        ≡ some v
      → IsFresh ttl key v first history ⊎ IsFresh ttl key v second (between ++ history)
  get-IsFresh ttl key v first second between history h =
      let c = after_steps (new_ttl_cache ttl) history in
      elim (get_cases key v first second (λ d. after_steps d between) c h) [
        | inl there ↦ inl (read-IsFresh ttl key v first history there)
        | inr again ↦ inr (
            reread-IsFresh ttl key v second (between ++ history) (
              subst (λ d. (reread key second d).0 ≡ some v)
                (after_steps-append (new_ttl_cache ttl) between history) again))
      ]

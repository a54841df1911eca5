-- ===== src/Supervisor/Cache.antt =====
-- The cache forgets what is outdated, and only that.
use faststream.Prelude.{
  ℕ, ◌+◌, ◌≤◌, ◌≡◌, refl, Bool, true, false, ◌&&◌, ◌||◌, List, [], ◌∷◌, ◌++◌, ◌==◌, ltb→lt, lt→ltb,
  Bool-cases, inl, inr, arith,
}
use faststream.Supervisor.{SupervisorCache, is_recent, delete_outdated, cleanup, has_key, add}

-- An entry for the key that is recent at the time `t`.
abbrev pub live : ℕ → ℕ → ℕ → List (ℕ × ℕ) → Bool
live ttl key t [] = false
live ttl key t ((k, v) ∷ cache) = ((k == key) && is_recent ttl t v) || live ttl key t cache

-- The times of the cache rise from `low` to `high`.
abbrev pub Rising : ℕ → ℕ → SupervisorCache → Type 0
Rising low high [] = low ≤ high
Rising low high ((k, v) ∷ cache) = (low ≤ v) × Rising v high cache

module _ (ttl : ℕ) where
  recent_after :
      (now low high key : ℕ) (cache : SupervisorCache)
      → Rising low high cache
      → is_recent ttl now low ≡ true
      → has_key key cache ≡ live ttl key now cache
  recent_after now low high key [] r h = refl
  recent_after now low high key ((k, v) ∷ cache) (l, r) h =
      let before = ltb→lt now (low + ttl) h in
      let later : is_recent ttl now v ≡ true = lt→ltb now (v + ttl) (omega (arith, before, l)) in
      let rest = recent_after now v high key cache r later in ground (arith, later, rest)

  delete_outdated-live :
      (now low high key : ℕ) (cache : SupervisorCache)
      → Rising low high cache
      → has_key key (delete_outdated ttl now cache) ≡ live ttl key now cache
  unfolding delete_outdated
  delete_outdated-live now low high key [] r = refl
  delete_outdated-live now low high key ((k, v) ∷ cache) (l, r) =
      elim (Bool-cases (is_recent ttl now v)) [
        | inl recent ↦
            let rest = recent_after now v high key cache r recent in ground (arith, recent, rest)
        | inr outdated ↦
            let rest = delete_outdated-live now v high key cache r in ground (arith, outdated, rest)
      ]

  stale : (now t v : ℕ) → now ≤ t → is_recent ttl now v ≡ false → is_recent ttl t v ≡ false
  stale now t v le h = ground (arith, h, le)

  Rising-lower :
      (low v high : ℕ) (cache : SupervisorCache)
      → low ≤ v
      → Rising v high cache
      → Rising low high cache
  Rising-lower low v high [] l r = omega (arith, l, r)
  Rising-lower low v high ((k, u) ∷ cache) l (m, r) = (omega (arith, l, m), r)

  delete_outdated-later :
      (now t key : ℕ) (cache : SupervisorCache)
      → now ≤ t
      → live ttl key t (delete_outdated ttl now cache) ≡ live ttl key t cache
  unfolding delete_outdated
  delete_outdated-later now t key [] le = refl
  delete_outdated-later now t key ((k, v) ∷ cache) le = elim (Bool-cases (is_recent ttl now v)) [
    | inl recent ↦ ground (arith, recent)
    | inr outdated ↦
        let rest = delete_outdated-later now t key cache le in
        let still = stale now t v le outdated in ground (arith, outdated, rest, still)
  ]

  delete_outdated-Rising :
      (now low high : ℕ) (cache : SupervisorCache)
      → Rising low high cache
      → Rising low high (delete_outdated ttl now cache)
  unfolding delete_outdated
  delete_outdated-Rising now low high [] r = r
  delete_outdated-Rising now low high ((k, v) ∷ cache) (l, r) =
      elim (Bool-cases (is_recent ttl now v)) [
        | inl recent ↦ rw (recent, delete_outdated) (l, r)
        | inr outdated ↦
            rw (outdated, delete_outdated)
              (Rising-lower low v high (delete_outdated ttl now cache) l
                (delete_outdated-Rising now v high cache r))
      ]

  pub cleanup-delete_outdated :
      (now : ℕ) (cache : SupervisorCache) → cleanup ttl now cache ≡ delete_outdated ttl now cache
  unfolding cleanup delete_outdated
  cleanup-delete_outdated now [] = refl
  cleanup-delete_outdated now ((k, v) ∷ cache) = ground arith

  -- What the supervisor asks of the cache, and what it keeps for later.
  pub record Cleaned (now low : ℕ) (cache cleaned : SupervisorCache) : Type 0 where
    pub known : (key : ℕ) → has_key key cleaned ≡ live ttl key now cache
    pub kept : (key t : ℕ) → now ≤ t → live ttl key t cleaned ≡ live ttl key t cache
    pub rising : Rising low now cleaned

  pub Rising-upper :
      (low high now : ℕ) (cache : SupervisorCache)
      → high ≤ now
      → Rising low high cache
      → Rising low now cache
  Rising-upper low high now [] le r = omega (arith, le, r)
  Rising-upper low high now ((k, v) ∷ cache) le (l, r) = (l, Rising-upper v high now cache le r)

  pub cleanup-Cleaned :
      (now low high : ℕ) (cache : SupervisorCache)
      → high ≤ now
      → Rising low high cache
      → Cleaned now low cache (cleanup ttl now cache)
  cleanup-Cleaned now low high cache le r = rw (cleanup-delete_outdated now cache) (record {
    known = λ key. delete_outdated-live now low high key cache r;
    kept = λ key t. delete_outdated-later now t key cache;
    rising = delete_outdated-Rising now low now cache (Rising-upper low high now cache le r);
  })

  add_new :
      (key now : ℕ) (cache : SupervisorCache)
      → has_key key cache ≡ false
      → add key now cache ≡ cache ++ (key, now) ∷ []
  unfolding add
  add_new key now [] h = refl
  add_new key now ((k, v) ∷ cache) h = elim (Bool-cases (k == key)) [
    | inl same ↦ absurd (ground arith)
    | inr other ↦ let rest = add_new key now cache (ground arith) in ground (arith, other, rest)
  ]

  live_append :
      (key t now k : ℕ) (cache : List (ℕ × ℕ))
      → live ttl key t (cache ++ (k, now) ∷ [])
        ≡ (((k == key) && is_recent ttl t now) || live ttl key t cache)
  live_append key t now k [] = ground arith
  live_append key t now k ((j, v) ∷ cache) =
      let rest = live_append key t now k cache in ground (arith, rest)

  append_last-Rising :
      (low now k : ℕ) (cache : SupervisorCache)
      → Rising low now cache
      → Rising low now (cache ++ (k, now) ∷ [])
  append_last-Rising low now k [] r = (r, omega arith)
  append_last-Rising low now k ((j, v) ∷ cache) (l, r) = (l, append_last-Rising v now k cache r)

  pub add-live :
      (key now : ℕ) (cache : SupervisorCache)
      → has_key key cache ≡ false
      → (k t : ℕ)
      → live ttl k t (add key now cache)
        ≡ (((key == k) && is_recent ttl t now) || live ttl k t cache)
  add-live key now cache h k t = rw (add_new key now cache h) (live_append k t now key cache)

  pub add-Rising :
      (low key now : ℕ) (cache : SupervisorCache)
      → has_key key cache ≡ false
      → Rising low now cache
      → Rising low now (add key now cache)
  add-Rising low key now cache h r =
      rw (add_new key now cache h) (append_last-Rising low now key cache r)

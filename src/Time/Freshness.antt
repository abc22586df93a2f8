-- ===== src/Time/Freshness.antt =====
-- The time that the extract shows is never old.
use rinha.Prelude.{
  ℕ, ◌+◌, ◌≤◌, ◌≡◌, refl, ◌⊎◌, inl, inr, false, ◌||◌, ltb, ◌==◌, get_or, Bool-cases, arith,
}
use rinha.Time.{Clock, TimeCache, k_calculate_interval, strncpy, get_time}

module _ {W : Type 0} (clock : Clock W) where
  -- A text that is in use is that of the last update.
  abbrev pub Shows : TimeCache → Type 0
  Shows cache = cache.time_str ≡ strncpy 20 (clock.format_time cache.last_update)

  kept :
      (t : ℕ) (cache : TimeCache)
      → (ltb (cache.last_update + k_calculate_interval) t || get_or cache.time_str 0 0 == b'a')
        ≡ false
      → (get_or cache.time_str 0 0 ≡ b'a') ⊎ Shows cache
      → Shows cache × (t ≤ cache.last_update + k_calculate_interval)
  kept t cache old (inl first) = absurd (ground (arith, old, first))
  kept t cache old (inr shows) = (shows, ground (arith, old))

  -- Where the clock does not go back between its two readings, and the text is unset or that of the
  -- last update, the text behind a call is that of the last update, which lies at most half a minute
  -- before the call.
  pub get_time-Shows :
      (cache : TimeCache) (w : W)
      → (get_or cache.time_str 0 0 ≡ b'a') ⊎ Shows cache
      → (clock.now w).0 ≤ (clock.now (clock.now w).1).0
      → Shows (get_time clock cache w).0
        × ((clock.now w).0 ≤ (get_time clock cache w).0.last_update + k_calculate_interval)
  unfolding get_time
  get_time-Shows cache w before forward =
      elim (Bool-cases (
        ltb (cache.last_update + k_calculate_interval) (clock.now w).0
        || get_or cache.time_str 0 0 == b'a')) [
          | inl update ↦ rw update (refl, omega arith)
          | inr keep ↦ rw keep (kept (clock.now w).0 cache keep before)
        ]

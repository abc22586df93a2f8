-- ===== src/Time.antt =====
-- rinha/time.cc: the time of the extract, kept for half a minute by each thread.
pub mod Freshness
use rinha.Prelude.{
  ℕ, zero, suc, ◌+◌, ◌*◌, ◌^◌, ◌||◌, [], ◌∷◌, Bytes, ltb, ◌==◌, if◌then◌else◌, get_or, replicate,
}

-- The clock of Abseil, in nanoseconds, and `absl::FormatTime` by the program's format.
pub record Clock (W : Type 0) : Type 0 where
  pub now : W → ℕ × W
  pub format_time : ℕ → Bytes

-- The thread's `time_str`, 20 bytes, and `last_update`.
pub record TimeCache : Type 0 where
  pub time_str : Bytes
  pub last_update : ℕ

abbrev pub k_calculate_interval : ℕ
k_calculate_interval = 30 * 10 ^ 9

-- `strncpy(dst, src, n)`: up to the zero byte that ends `src`, and then zeros.
abbrev pub strncpy : ℕ → Bytes → Bytes
strncpy zero s = []
strncpy (suc n) [] = replicate (suc n) 0
strncpy (suc n) (c ∷ s) = if c == 0 then replicate (suc n) 0 else c ∷ strncpy n s

module _ {W : Type 0} (clock : Clock W) where
  -- The update: the clock is read once more.
  abbrev pub refresh : W → TimeCache × W
  refresh w =
      let (t, w') = clock.now w in
      (record { time_str = strncpy 20 (clock.format_time t); last_update = t }, w')

  unfoldable pub get_time : TimeCache → W → TimeCache × W
  get_time cache w =
      let (t, w') = clock.now w in
      if ltb (cache.last_update + k_calculate_interval) t || get_or cache.time_str 0 0 == b'a'
      then refresh w'
      else (cache, w')

-- ===== src/Go/Time.antt =====
-- Package time: instants, durations in nanoseconds as int64, the clock, RFC 3339 text.
use platform_service_gitops.Prelude.{ℕ, ◌*◌, String, if◌then◌else◌}
use platform_service_gitops.Go.Error.{Result}
use platform_service_gitops.Go.Eff.{Eff}
use platform_service_gitops.Go.Int.{ℤ, pos, ◌-ℤ◌, ltb_ℤ, wrap64, saturate64}

-- An instant, in nanoseconds since the zero time (1 January of year 1, UTC).
abbrev pub Time : Type 0
Time = ℤ

-- time.Time{}
abbrev pub zero_time : Time
zero_time = pos 0

-- A time.Duration, an int64.
abbrev pub Duration : Type 0
Duration = ℤ

abbrev pub second : ℕ
second = 1_000_000_000

abbrev pub minute : ℕ
minute = 60 * second

-- t.Sub(now), which saturates; `time.Until(t)` is this at the clock's time.
unfoldable pub until : Time → Time → Duration
unfolding ◌-ℤ◌ saturate64
until t now = saturate64 (t -ℤ now)

-- The `-` of two durations, which wraps.
unfoldable pub sub_duration : Duration → Duration → Duration
unfolding ◌-ℤ◌ wrap64
sub_duration a b = wrap64 (a -ℤ b)

-- The built-in max.
unfoldable pub max_duration : Duration → Duration → Duration
max_duration a b = if ltb_ℤ a b then b else a

-- time.Now, and Format and Parse with time.RFC3339.
pub record Clock (W : Type 0) : Type 0 where
  pub now : Eff W Time
  pub format_rfc3339 : Time → String
  pub parse_rfc3339 : String → Result Time

-- ===== src/Time.antt =====
-- Durations and machine words. A `Duration` is its number of nanoseconds, an `Instant` the number
-- of nanoseconds on the monotonic clock.
use oxinit.Prelude.{ℕ, ◌+◌, ◌-◌, ◌*◌, ◌/◌, ◌%◌, min}

abbrev pub Duration : Type 0
Duration = ℕ

abbrev pub Instant : Type 0
Instant = ℕ

abbrev pub nanos_per_sec : ℕ
nanos_per_sec = 1_000_000_000

abbrev pub from_secs : ℕ → Duration
from_secs s = s * 1_000_000_000

abbrev pub from_millis : ℕ → Duration
from_millis m = m * 1_000_000

abbrev pub from_micros : ℕ → Duration
from_micros m = m * 1000

abbrev pub as_secs : Duration → ℕ
as_secs d = d / 1_000_000_000

abbrev pub subsec_nanos : Duration → ℕ
subsec_nanos d = d % 1_000_000_000

abbrev pub u32_max : ℕ
u32_max = 4_294_967_295

abbrev pub u64_max : ℕ
u64_max = 18_446_744_073_709_551_615

-- `Duration::MAX`.
abbrev pub max_duration : Duration
max_duration = 18_446_744_073_709_551_615_999_999_999

-- `Duration::saturating_mul`.
abbrev pub saturating_mul : Duration → ℕ → Duration
saturating_mul d n = min (d * n) max_duration

-- `u32::saturating_add` and `u64::saturating_add`.
abbrev pub saturating_add32 : ℕ → ℕ → ℕ
saturating_add32 a b = min (a + b) u32_max

abbrev pub saturating_add64 : ℕ → ℕ → ℕ
saturating_add64 a b = min (a + b) u64_max

-- Plain `u64` arithmetic, which wraps in a release build.
abbrev pub add64 : ℕ → ℕ → ℕ
add64 a b = (a + b) % 18_446_744_073_709_551_616

abbrev pub sub64 : ℕ → ℕ → ℕ
sub64 a b = (a + 18_446_744_073_709_551_616 - b) % 18_446_744_073_709_551_616

-- `Instant::elapsed` at the moment `now`; it is 0 where the clock went back.
abbrev pub elapsed : Instant → Instant → Duration
elapsed since now = now - since

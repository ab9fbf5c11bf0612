-- ===== src/Common/Times.antt =====
-- `time.Time` and `time.Duration`. An instant is a number of nanoseconds since an epoch long ago;
-- a duration is signed. Instants stay clear of both ends of the type, so nothing saturates.
use Prim.Native.Nat.{suc, ℕ, ◌+◌, ◌-◌}
use mathlib.Core.Bool.{Bool}
use nodemanager.Common.Tests.{if◌then◌else◌, leb, ltb}

-- `negsuc n` is -(n + 1) nanoseconds.
pub data Duration : Type 0 where
  pos : ℕ → Duration
  negsuc : ℕ → Duration

abbrev pub second : ℕ
second = 1000000000

-- `time.Until(t)` at the instant `now`
abbrev pub until : ℕ → ℕ → Duration
until now t = if leb now t then pos (t - now) else negsuc (now - t - 1)

-- `now.Sub(t) < d`, the test behind `time.Since(t) < d`
abbrev pub since_lt : ℕ → ℕ → Duration → Bool
since_lt now t (pos d) = ltb now (t + d)
since_lt now t (negsuc d) = ltb (now + suc d) t

-- `t.Add(d).Before(now)`
abbrev pub add_before : ℕ → Duration → ℕ → Bool
add_before t (pos d) now = ltb (t + d) now
add_before t (negsuc d) now = ltb t (now + suc d)

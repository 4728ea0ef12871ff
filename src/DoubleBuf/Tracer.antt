-- ===== src/DoubleBuf/Tracer.antt =====
-- double_buf_get/tracer.h: the stop watch of the clients. A `long` is the 64 bits that stand for it,
-- and `now` is what `gettimeofday` gives.
use multiport_network.Base.{ℕ, ◌+◌, ◌-◌, ◌*◌, ◌^◌, ◌<◌, ◌≡◌, refl, List, [], ◌∷◌, arith}
use multiport_network.Protocol.{u64}

pub record Timeval : Type 0 where
  pub tv_sec : ℕ
  pub tv_usec : ℕ

pub record Tracer : Type 0 where
  pub beg_time : Timeval
  pub end_time : Timeval
  pub duration : ℕ

-- The microseconds from `begun` to `ended`.
unfoldable pub microseconds : Timeval → Timeval → ℕ
microseconds begun ended = u64 (
    u64 ((ended.tv_sec + (2 ^ 64 - begun.tv_sec)) * 1000000)
    + ended.tv_usec
    + (2 ^ 64 - begun.tv_usec))

unfoldable pub start_time : Tracer → Timeval → Tracer
start_time t now = record t { beg_time = now }

unfoldable pub get_run_time : Tracer → Timeval → ℕ × Tracer
get_run_time t now =
    let passed = microseconds t.beg_time now in
    (passed, record t { end_time = now; duration = passed; beg_time = now })

unfoldable pub fetch_time : Tracer → Timeval → ℕ × Tracer
fetch_time t now =
    let passed = microseconds t.beg_time now in
    (passed, record t { end_time = now; duration = passed })

-- The sum of what `get_run_time` returns at these times, one after the other, and the watch then.
unfoldable pub laps : Tracer → List Timeval → ℕ × Tracer
laps t [] = (0, t)
laps t (now ∷ later) =
    let (passed, t') = get_run_time t now in
    let (sum, t'') = laps t' later in (u64 (passed + sum), t'')

-- A time of day: its fields are in their ranges.
pub record IsTime (v : Timeval) : Type 0 where
  pub seconds : v.tv_sec < 2 ^ 63
  pub below_second : v.tv_usec < 1000000

abbrev pub AllTimes : List Timeval → Type 0
AllTimes [] = Unit {0}
AllTimes (v ∷ vs) = IsTime v × AllTimes vs

-- The last of these readings, or where there is none the start.
abbrev pub last_reading : Timeval → List Timeval → Timeval
last_reading v [] = v
last_reading v (now ∷ later) = last_reading now later

microseconds_lem :
    (a b : Timeval)
    → IsTime a
    → IsTime b
    → u64 (microseconds a b + (a.tv_sec * 1000000 + a.tv_usec))
      ≡ u64 (b.tv_sec * 1000000 + b.tv_usec)
unfolding microseconds
microseconds_lem a b v w = omega arith

-- The laps of a watch add up, however often it is read: added to the microseconds of its start,
-- with 1000000 of them in a second, their sum gives the microseconds of the last reading, modulo
-- 2^64, and the watch goes on from there.
pub laps_add_up :
    (t : Tracer) (times : List Timeval)
    → IsTime t.beg_time
    → AllTimes times
    → let start = t.beg_time in
      let end = last_reading start times in
      (u64 ((laps t times).0 + (start.tv_sec * 1000000 + start.tv_usec))
        ≡ u64 (end.tv_sec * 1000000 + end.tv_usec))
      × ((laps t times).1.beg_time ≡ end)
unfolding laps get_run_time
laps_add_up t [] v h = (omega arith, refl)
laps_add_up t (now ∷ later) v (w, h) =
    let (e, x) = laps_add_up (get_run_time t now).1 later w h in
    (omega (arith, e, microseconds_lem t.beg_time now v w), x)

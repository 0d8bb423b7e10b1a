-- ===== src/Go/Time.antt =====
-- `time.Time`, in UTC: nanoseconds since the start of the year 0.
use go_microservices_chat.Prelude.{ℕ, ◌+◌, ◌-◌, ◌*◌, ◌^◌, ◌%◌, ◌<◌, ◌≤◌, ◌≡◌, arith}

abbrev pub Time : Type 0
Time = ℕ

abbrev pub second : ℕ
second = 10 ^ 9

-- the zero `time.Time`: the start of the year 1 (the year 0 has 366 days)
abbrev pub zero_time : Time
zero_time = 31622400 * 10 ^ 9

-- the start of the year 1970
abbrev pub unix_epoch : Time
unix_epoch = 62167219200 * 10 ^ 9

-- `t.UnixNano()`, an `int64` that wraps around. The nanoseconds since 1970 are raised by 2^63, so that
-- `<` on `int64` is `<` on ℕ; 8 * 2^64 keeps the subtraction from stopping at 0.
unfoldable pub unix_nano : Time → ℕ
unix_nano t = (t + 8 * 2 ^ 64 + 2 ^ 63 - unix_epoch) % 2 ^ 64

-- the times that an `int64` can hold: the years 1678 to 2262
abbrev pub InRange : Time → Type 0
InRange t = (unix_epoch ≤ t + 2 ^ 63) × (t < unix_epoch + 2 ^ 63)

pub unix_nano_lem : (t : Time) → InRange t → unix_nano t + unix_epoch ≡ t + 2 ^ 63
unfolding unix_nano
unix_nano_lem t h = omega arith

-- ===== src/Clock.antt =====
-- `now_unix` of backend/src/db.rs and `now_ms` of backend/src/dns/mono.rs: the two readings of the
-- system's clock.
use denis.Base.Int.{ℤ, pos, as_signed}
use denis.Base.{ℕ, ◌/◌, ◌%◌, ◌^◌, ◌<◌, Option, none, some, ltb, true, ◌∙◌, ◌≡◌, refl, ap, arith}

-- The nanoseconds of `duration_since(UNIX_EPOCH)`; `none` is a clock before that time.
abbrev pub Since : Type 0
Since = Option ℕ

abbrev or_default : Since → ℕ
or_default none = 0
or_default (some nanos) = nanos

-- `as_secs() as i64`
unfoldable pub now_unix : Since → ℤ
now_unix since = as_signed 64 (or_default since / 1_000_000_000)

-- `as_millis() as u64`
unfoldable pub now_ms : Since → ℕ
now_ms since = or_default since / 1_000_000 % 2 ^ 64

as_signed-small : (n : ℕ) → n < 2 ^ 63 → as_signed 64 n ≡ pos n
as_signed-small n h =
    let low : n % 2 ^ 64 ≡ n = omega (arith, h) in
    let small : ltb n (2 ^ 63) ≡ true = ground (arith, h) in rw (low, small) refl

-- Where the milliseconds are less than 2 ^ 63, the seconds that are stored with users, tokens and
-- rows are the whole seconds of the milliseconds that events carry, where both read the clock at
-- once.
now_unix-now_ms :
    (since : Since)
    → or_default since / 1_000_000 < 2 ^ 63
    → now_unix since ≡ pos (now_ms since / 1_000)
unfolding now_unix now_ms
now_unix-now_ms since h =
    let n = or_default since in
    as_signed-small (n / 1_000_000_000) (omega (arith, h)) ∙ ap pos (omega (arith, h))

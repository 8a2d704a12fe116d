-- ===== src/Access/TimePoint.antt =====
-- gno.land/p/onbloc/access/manager: timepoint.gno and access.gno. A TimePoint is an int64: here its
-- 64-bit pattern, a number below 2 ^ 64, compared as the signed integer that it stands for.
use gno_ibc.Prelude.{ℕ, ◌+◌, ◌%◌, ◌^◌, Bool, false, not, ltb, eqb, if◌then◌else◌}

abbrev pub TimePoint : Type 0
TimePoint = ℕ

-- The pattern's place in the order of the signed integers.
abbrev pub signed_rank : TimePoint → ℕ
signed_rank t = (t + 2 ^ 63) % 2 ^ 64

-- `TimePoint.After`
abbrev pub after : TimePoint → TimePoint → Bool
after t other = ltb (signed_rank other) (signed_rank t)

-- `TimePoint.IsZero`
abbrev pub is_zero : TimePoint → Bool
is_zero t = eqb t 0

-- int64 addition
abbrev pub add_time : TimePoint → ℕ → TimePoint
add_time t d = (t + d) % 2 ^ 64

pub record Access : Type 0 where
  pub since : TimePoint

-- `NewAccessWithDelay`
abbrev pub new_access_with_delay : TimePoint → ℕ → Access
new_access_with_delay since delay =
    if is_zero since then record { since = 0 } else record { since = add_time since delay }

-- `Access.isActiveAt`
abbrev pub is_active_at : Access → TimePoint → Bool
is_active_at access now = if is_zero access.since then false else not (after access.since now)

-- ===== src/Access/Delay.antt =====
-- gno.land/p/onbloc/access/manager/delay.gno: a value that changes only after a setback.
use gno_ibc.Prelude.{ℕ, ◌+◌, ◌-◌, ◌^◌, ◌≤◌, ◌<◌, ◌≡◌, arith, ltb, if◌then◌else◌}
use gno_ibc.Access.TimePoint.{TimePoint, after, add_time}

pub record Delay : Type 0 where
  pub effect_date : TimePoint
  pub value_before : ℕ
  pub value_after : ℕ

-- `NewDelay`
abbrev pub new_delay : ℕ → Delay
new_delay delay = record { effect_date = 0; value_before = 0; value_after = delay }

-- `Delay.Get`
unfoldable pub get : Delay → TimePoint → ℕ
get d timestamp = if after d.effect_date timestamp then d.value_before else d.value_after

-- The setback that `WithUpdate` computes.
unfoldable pub setback : ℕ → ℕ → ℕ → ℕ
setback value new_value min_setback =
    if ltb new_value value
    then (let diff = value - new_value in if ltb min_setback diff then diff else min_setback)
    else min_setback

-- `Delay.WithUpdate`
unfoldable pub with_update : Delay → TimePoint → ℕ → ℕ → Delay × TimePoint
unfolding setback
with_update d timestamp new_value min_setback =
    let value = get d timestamp in
    let effect = add_time timestamp (setback value new_value min_setback) in
    (record { effect_date = effect; value_before = value; value_after = new_value }, effect)

-- For times whose sums with 32-bit delays stay below 2 ^ 63: a request made under the updated delay
-- at any later time is never due before one made under the old delay at the time of the update.
pub with_update_no_shortcut :
    (d : Delay) (now later new_value min_setback : ℕ)
    → now < 2 ^ 62
    → later < 2 ^ 62
    → now ≤ later
    → get d now < 2 ^ 32
    → min_setback < 2 ^ 32
    → now + get d now ≤ later + get (with_update d now new_value min_setback).0 later
unfolding with_update get
with_update_no_shortcut d now later new_value min_setback hn hl le hv hm = ground arith

-- The value before the effect time is the old one, and from the effect time on the new one; the
-- effect is at least the minimal setback away.
pub with_update_schedule :
    (d : Delay) (now later new_value min_setback : ℕ)
    → now < 2 ^ 62
    → later < 2 ^ 62
    → get d now < 2 ^ 32
    → min_setback < 2 ^ 32
    → (now + min_setback ≤ (with_update d now new_value min_setback).1)
      × (get (with_update d now new_value min_setback).0 later ≡ (
          if ltb later (with_update d now new_value min_setback).1 then get d now else new_value))
unfolding with_update get
with_update_schedule d now later new_value min_setback hn hl hv hm = (ground arith, ground arith)

-- ===== src/Access/State/Calls.antt =====
-- Authorisation of calls: what `CanCall` decides after targets are configured.
use gno_ibc.Prelude.{
  ℕ, ◌≡◌, refl, Bool, true, false, List, [], ◌∷◌, Bytes, arith, ◌||◌, if◌then◌else◌, ◌↔◌,
}
use gno_ibc.Prelude.Map
use gno_ibc.Prelude.Map.{lookup-insert}
use gno_ibc.Prelude.Eq.{◌==◌, ==_sound, bytes_eq}
use gno_ibc.Access.TimePoint.{TimePoint}
use gno_ibc.Access.Target
use gno_ibc.Access.Target.{TargetConfig}
use gno_ibc.Access.State.{
  State, can_call, is_target_closed, has_role, get_target_function_role, set_target_function_roles,
  ensured_target, put_target,
}

-- Membership in a list of selectors.
abbrev pub elem : Bytes → List Bytes → Bool
elem x [] = false
elem x (y ∷ ys) = y == x || elem x ys

-- A call is authorised exactly when the target is open and the caller has the role that the
-- target requires of the selector.
pub can_call_iff :
    (st : State) (now : TimePoint) (caller target selector : Bytes)
    → (can_call st now caller target selector ≡ true) ↔ (
        (is_target_closed st target ≡ false)
        × (has_role st now (get_target_function_role st target selector) caller ≡ true))
unfolding can_call
can_call_iff st now caller target selector = ground arith

function_role-set_function_role :
    (t : TargetConfig) (x : Bytes) (role : ℕ) (s : Bytes)
    → Target.function_role (Target.set_function_role t x role) s
      ≡ (if x == s then role else Target.function_role t s)
unfolding Target.set_function_role Target.function_role
function_role-set_function_role t x role s = ground (arith, lookup-insert x s role t.function_roles)

function_role-set_function_roles :
    (t : TargetConfig) (selectors : List Bytes) (role : ℕ) (s : Bytes)
    → Target.function_role (Target.set_function_roles t selectors role) s
      ≡ (if elem s selectors then role else Target.function_role t s)
unfolding Target.set_function_roles
function_role-set_function_roles t [] role s = refl
function_role-set_function_roles t (x ∷ xs) role s = ground (
  arith,
  function_role-set_function_roles (Target.set_function_role t x role) xs role s,
  function_role-set_function_role t x role s,
)

function_role-ensured_target :
    (st : State) (target s : Bytes)
    → Target.function_role (ensured_target st target) s ≡ get_target_function_role st target s
unfolding get_target_function_role Target.function_role Map.lookup
function_role-ensured_target st target s = ground arith

get_target_function_role-put_target :
    (st : State) (target : Bytes) (t : TargetConfig) (target' s : Bytes)
    → get_target_function_role (put_target st target t) target' s ≡ (
        if target == target'
        then Target.function_role t s
        else get_target_function_role st target' s)
unfolding get_target_function_role
get_target_function_role-put_target st target t target' s =
    ground (arith, lookup-insert target target' t st.targets)

closed-set_function_roles :
    (t : TargetConfig) (selectors : List Bytes) (role : ℕ)
    → (Target.set_function_roles t selectors role).closed ≡ t.closed
unfolding Target.set_function_roles Target.set_function_role
closed-set_function_roles t [] role = refl
closed-set_function_roles t (x ∷ xs) role =
    closed-set_function_roles (Target.set_function_role t x role) xs role

is_target_closed-put_target :
    (st : State) (target : Bytes) (t : TargetConfig) (target' : Bytes)
    → is_target_closed (put_target st target t) target'
      ≡ (if target == target' then t.closed else is_target_closed st target')
unfolding is_target_closed
is_target_closed-put_target st target t target' =
    ground (arith, lookup-insert target target' t st.targets)

closed-ensured_target :
    (st : State) (target : Bytes) → (ensured_target st target).closed ≡ is_target_closed st target
unfolding is_target_closed Map.lookup
closed-ensured_target st target = ground arith

is_target_closed-set_target_function_roles :
    (st : State) (target : Bytes) (selectors : List Bytes) (role : ℕ) (target' : Bytes)
    → is_target_closed (set_target_function_roles st target selectors role) target'
      ≡ is_target_closed st target'
unfolding set_target_function_roles
is_target_closed-set_target_function_roles st target selectors role target' = ground (
  arith,
  is_target_closed-put_target st target
      (Target.set_function_roles (ensured_target st target) selectors role) target',
  closed-set_function_roles (ensured_target st target) selectors role,
  closed-ensured_target st target,
  ==_sound target target',
)

set_target_function_roles_role :
    (st : State) (target : Bytes) (selectors : List Bytes) (role : ℕ) (target' s : Bytes)
    → get_target_function_role (set_target_function_roles st target selectors role) target' s ≡ (
        if target == target'
        then (if elem s selectors then role else get_target_function_role st target s)
        else get_target_function_role st target' s)
unfolding set_target_function_roles
set_target_function_roles_role st target selectors role target' s = ground (
  arith,
  get_target_function_role-put_target st target
      (Target.set_function_roles (ensured_target st target) selectors role) target' s,
  function_role-set_function_roles (ensured_target st target) selectors role s,
  function_role-ensured_target st target s,
)

-- After a batch of selectors is configured, each of them requires the given role, and every other
-- selector and every other target requires what it required before; every target is as open or
-- closed as it was; and the roles, with their members, admins and delays, are the same.
pub set_target_function_roles_effect :
    (st : State) (target : Bytes) (selectors : List Bytes) (role : ℕ) (target' s : Bytes)
    → (get_target_function_role (set_target_function_roles st target selectors role) target' s ≡ (
        if target == target'
        then (if elem s selectors then role else get_target_function_role st target s)
        else get_target_function_role st target' s))
      × (is_target_closed (set_target_function_roles st target selectors role) target'
          ≡ is_target_closed st target')
      × ((set_target_function_roles st target selectors role).roles ≡ st.roles)
unfolding set_target_function_roles
set_target_function_roles_effect st target selectors role target' s = (
  set_target_function_roles_role st target selectors role target' s,
  is_target_closed-set_target_function_roles st target selectors role target',
  refl,
)

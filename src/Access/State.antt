-- ===== src/Access/State.antt =====
-- gno.land/p/onbloc/access/manager/state.gno: roles and targets. Each method takes the state and the
-- current time point, and returns the new state with its result; a panic is an error.
pub mod Calls
pub mod Admins
pub mod Grants
use gno_ibc.Prelude.{
  ℕ, Bool, true, false, not, ◌&&◌, ◌||◌, Option, none, some, List, [], Bytes, if◌then◌else◌,
}
use gno_ibc.Prelude.Map
use gno_ibc.Prelude.Map.{Map}
use gno_ibc.Prelude.Result.{Result, ok, ◌>>=◌, ◌>>◌, fail_if}
use gno_ibc.Prelude.Eq.{◌==◌, nat_eq, bytes_eq}
use gno_ibc.Access.TimePoint.{TimePoint, is_active_at}
use gno_ibc.Access.Role
use gno_ibc.Access.Role.{RoleConfig, new_role_config, admin_role, public_role, has_member}
use gno_ibc.Access.Target
use gno_ibc.Access.Target.{TargetConfig, new_target_config}

-- errors.gno of the package and of the realm that wraps it
pub data AccessError : Type 0 where
  locked_role bad_confirmation last_admin : AccessError
  unauthorized_account unauthorized_call spoofed_realm : AccessError

pub record State : Type 0 where
  pub roles : Map ℕ RoleConfig
  pub targets : Map Bytes TargetConfig

abbrev pub new_state : State
new_state = record { roles = []; targets = [] }

-- `State.getRole`, `State.getTarget`: nil is `none`.
abbrev pub get_role : State → ℕ → Option RoleConfig
get_role st role = Map.lookup role st.roles

abbrev pub get_target : State → Bytes → Option TargetConfig
get_target st target = Map.lookup target st.targets

-- The role that a pointer from `getRole` reaches after `ensureRole`.
abbrev pub ensured_role : State → ℕ → RoleConfig
ensured_role st role = elim (get_role st role) [ some r ↦ r | none ↦ new_role_config admin_role 0 ]

abbrev pub ensured_target : State → Bytes → TargetConfig
ensured_target st target = elim (get_target st target) [
  | some t ↦ t
  | none ↦ new_target_config false
]

-- Writing through a pointer that the map holds.
abbrev pub put_role : State → ℕ → RoleConfig → State
put_role st role r = record st { roles = Map.insert role r st.roles }

abbrev pub put_target : State → Bytes → TargetConfig → State
put_target st target t = record st { targets = Map.insert target t st.targets }

-- `State.HasRole`
unfoldable pub has_role : State → TimePoint → ℕ → Bytes → Bool
has_role st now role account =
    if role == public_role
    then true
    else elim (get_role st role) [ none ↦ false | some r ↦ has_member r account now ]

-- `State.GetRoleMemberSince`
unfoldable pub get_role_member_since : State → ℕ → Bytes → TimePoint
get_role_member_since st role account = elim (get_role st role) [
  | none ↦ 0
  | some r ↦ elim (Map.lookup account r.members) [ none ↦ 0 | some access ↦ access.since ]
]

-- `State.GetRoleAdmin`
unfoldable pub get_role_admin : State → ℕ → ℕ
get_role_admin st role = elim (get_role st role) [ none ↦ admin_role | some r ↦ r.admin ]

-- `State.GetRoleGrantDelay`
unfoldable pub get_role_grant_delay : State → TimePoint → ℕ → ℕ
get_role_grant_delay st now role = elim (get_role st role) [
  | none ↦ 0
  | some r ↦ Role.grant_delay r now
]

-- `State.GetRoleGrantDelayEffect`
unfoldable pub get_role_grant_delay_effect : State → ℕ → TimePoint
get_role_grant_delay_effect st role = elim (get_role st role) [
  | none ↦ 0
  | some r ↦ r.grant_delay.effect_date
]

-- `State.GetTargetFunctionRole`
unfoldable pub get_target_function_role : State → Bytes → Bytes → ℕ
get_target_function_role st target selector = elim (get_target st target) [
  | none ↦ admin_role
  | some t ↦ Target.function_role t selector
]

-- `State.IsTargetClosed`
unfoldable pub is_target_closed : State → Bytes → Bool
is_target_closed st target = elim (get_target st target) [ none ↦ false | some t ↦ t.closed ]

-- `State.CanCall`; its result record has the one field `Immediate`.
unfoldable pub can_call : State → TimePoint → Bytes → Bytes → Bytes → Bool
can_call st now caller target selector =
    if is_target_closed st target
    then false
    else if not (has_role st now (get_target_function_role st target selector) caller)
    then false
    else true

-- `State.GrantRole`
unfoldable pub grant_role : State → TimePoint → ℕ → Bytes → Result AccessError (State × Bool)
grant_role st now role account = do
  fail_if (role == public_role) AccessError.locked_role
  let (r, is_new) = Role.grant (ensured_role st role) account now
  ok (put_role st role r, is_new)

-- `State.isLastAdmin`
unfoldable pub is_last_admin : State → TimePoint → Bytes → Bool
is_last_admin st now account = elim (get_role st admin_role) [
  | none ↦ false
  | some r ↦
      if not (has_member r account now)
      then false
      else if Map.any r.members
          (λ member access. not (member == account) && is_active_at access now)
      then false
      else true
]

-- `State.RevokeRole`
unfoldable pub revoke_role : State → TimePoint → ℕ → Bytes → Result AccessError (State × Bool)
revoke_role st now role account = do
  fail_if (role == public_role) AccessError.locked_role
  let st' = put_role st role (ensured_role st role)
  fail_if (role == admin_role && is_last_admin st' now account) AccessError.last_admin
  let (r, revoked) = Role.revoke (ensured_role st role) account
  ok (put_role st' role r, revoked)

-- `State.RenounceRole`
unfoldable pub renounce_role :
    State → TimePoint → ℕ → Bytes → Bytes → Result AccessError (State × Bool)
renounce_role st now role account confirmation = do
  fail_if (not (account == confirmation)) AccessError.bad_confirmation
  revoke_role st now role account

-- `RequireUnlockedConfigRole` of requires.gno
abbrev pub require_unlocked_config_role : ℕ → Result AccessError (Unit {0})
require_unlocked_config_role role =
    fail_if (role == admin_role || role == public_role) AccessError.locked_role

-- `State.SetRoleAdmin`
unfoldable pub set_role_admin : State → ℕ → ℕ → Result AccessError State
set_role_admin st role admin = do
  require_unlocked_config_role role
  ok (put_role st role (Role.set_admin (ensured_role st role) admin))

-- `State.SetGrantDelay`
unfoldable pub set_grant_delay : State → TimePoint → ℕ → ℕ → Result AccessError State
set_grant_delay st now role delay = do
  fail_if (role == public_role) AccessError.locked_role
  ok (put_role st role (Role.set_grant_delay (ensured_role st role) now delay))

-- `State.SetTargetFunctionRole`
unfoldable pub set_target_function_role : State → Bytes → Bytes → ℕ → State
set_target_function_role st target selector role =
    put_target st target (Target.set_function_role (ensured_target st target) selector role)

-- `State.SetTargetFunctionRoles`
unfoldable pub set_target_function_roles : State → Bytes → List Bytes → ℕ → State
set_target_function_roles st target selectors role =
    put_target st target (Target.set_function_roles (ensured_target st target) selectors role)

-- `State.SetTargetClosed`
unfoldable pub set_target_closed : State → Bytes → Bool → State
set_target_closed st target closed =
    put_target st target (Target.set_closed (ensured_target st target) closed)

-- `State.CanAdminRole`
unfoldable pub can_admin_role : State → TimePoint → ℕ → Bytes → Bool
can_admin_role st now role caller = has_role st now (get_role_admin st role) caller

-- `State.CanManageTarget`
unfoldable pub can_manage_target : State → TimePoint → Bytes → Bool
can_manage_target st now caller = has_role st now admin_role caller

-- ===== src/Access/Realm.antt =====
-- The realm gno.land/r/onbloc/ibc/union/access: access.gno, assert.gno and events.gno. A crossing call
-- takes the block time and the address of the previous realm; a panic reverts the transaction.
pub mod Safety
use gno_ibc.Prelude.{ℕ, Bool, true, false, not, List, [], ◌∷◌, ◌++◌, Bytes, map, if◌then◌else◌}
use gno_ibc.Prelude.Result.{Result, ok, ◌>>=◌, ◌>>◌, fail_if}
use gno_ibc.Access.TimePoint.{TimePoint}
use gno_ibc.Access.State.{
  AccessError, State, can_call, can_admin_role, can_manage_target, get_role_member_since,
  get_role_grant_delay_effect, require_unlocked_config_role,
}
use gno_ibc.Access.State

-- events.gno
pub data AccessEvent : Type 0 where
  role_label : ℕ → Bytes → AccessEvent
  role_granted : ℕ → Bytes → TimePoint → Bool → AccessEvent
  role_revoked : ℕ → Bytes → AccessEvent
  role_admin_changed : ℕ → ℕ → AccessEvent
  role_grant_delay_changed : ℕ → ℕ → TimePoint → AccessEvent
  target_closed : Bytes → Bool → AccessEvent
  target_function_role_updated : Bytes → Bytes → ℕ → AccessEvent

-- `accessState`, and the events emitted so far.
pub record Realm : Type 0 where
  pub access_state : State
  pub events : List AccessEvent

abbrev Outcome : Type 0 → Type 0
Outcome A = Result AccessError A

-- Store the new state and emit events.
abbrev commit : Realm → State → List AccessEvent → Realm
commit r st evs = record { access_state = st; events = r.events ++ evs }

-- `assertCanManageTarget` and `assertCanAdminRole`
abbrev assert_can_manage_target : Realm → TimePoint → Bytes → Outcome (Unit {0})
assert_can_manage_target r now caller =
    fail_if (not (can_manage_target r.access_state now caller)) AccessError.unauthorized_account

abbrev assert_can_admin_role : Realm → TimePoint → Bytes → ℕ → Outcome (Unit {0})
assert_can_admin_role r now caller role =
    fail_if (not (can_admin_role r.access_state now role caller)) AccessError.unauthorized_account

-- `AssertCanCall`: `target` is the package path of the calling realm.
unfoldable pub assert_can_call :
    State → TimePoint → Bool → Bytes → Bytes → Bytes → Outcome (Unit {0})
assert_can_call st now is_current caller target selector = do
  fail_if (not is_current) AccessError.spoofed_realm
  fail_if (not (can_call st now caller target selector)) AccessError.unauthorized_call

-- `GrantRole`
unfoldable pub grant_role : Realm → TimePoint → Bytes → ℕ → Bytes → Outcome (Realm × Bool)
grant_role r now caller role account = do
  assert_can_admin_role r now caller role
  (st, is_new) ← State.grant_role r.access_state now role account
  let since = get_role_member_since st role account
  ok (commit r st (AccessEvent.role_granted role account since is_new ∷ []), is_new)

abbrev revoked_events : Bool → ℕ → Bytes → List AccessEvent
revoked_events revoked role account =
    if revoked then AccessEvent.role_revoked role account ∷ [] else []

-- `RevokeRole`
unfoldable pub revoke_role : Realm → TimePoint → Bytes → ℕ → Bytes → Outcome (Realm × Bool)
revoke_role r now caller role account = do
  assert_can_admin_role r now caller role
  (st, revoked) ← State.revoke_role r.access_state now role account
  ok (commit r st (revoked_events revoked role account), revoked)

-- `RenounceRole`
unfoldable pub renounce_role : Realm → TimePoint → Bytes → ℕ → Bytes → Outcome (Realm × Bool)
renounce_role r now caller role confirmation = do
  (st, revoked) ← State.renounce_role r.access_state now role caller confirmation
  ok (commit r st (revoked_events revoked role caller), revoked)

-- `LabelRole`
unfoldable pub label_role : Realm → TimePoint → Bytes → ℕ → Bytes → Outcome Realm
label_role r now caller role label = do
  assert_can_manage_target r now caller
  require_unlocked_config_role role
  ok (commit r r.access_state (AccessEvent.role_label role label ∷ []))

-- `SetRoleAdmin`
unfoldable pub set_role_admin : Realm → TimePoint → Bytes → ℕ → ℕ → Outcome Realm
set_role_admin r now caller role admin = do
  assert_can_manage_target r now caller
  st ← State.set_role_admin r.access_state role admin
  ok (commit r st (AccessEvent.role_admin_changed role admin ∷ []))

-- `SetGrantDelay`
unfoldable pub set_grant_delay : Realm → TimePoint → Bytes → ℕ → ℕ → Outcome Realm
set_grant_delay r now caller role delay = do
  assert_can_manage_target r now caller
  st ← State.set_grant_delay r.access_state now role delay
  let effect = get_role_grant_delay_effect st role
  ok (commit r st (AccessEvent.role_grant_delay_changed role delay effect ∷ []))

-- `SetFunctionRole`
unfoldable pub set_function_role : Realm → TimePoint → Bytes → Bytes → Bytes → ℕ → Outcome Realm
set_function_role r now caller target selector role = do
  assert_can_manage_target r now caller
  let st = State.set_target_function_role r.access_state target selector role
  ok (commit r st (AccessEvent.target_function_role_updated target selector role ∷ []))

-- `SetFunctionRoles`
unfoldable pub set_function_roles :
    Realm → TimePoint → Bytes → Bytes → List Bytes → ℕ → Outcome Realm
set_function_roles r now caller target selectors role = do
  assert_can_manage_target r now caller
  let st = State.set_target_function_roles r.access_state target selectors role
  ok (commit r st (map (λ s. AccessEvent.target_function_role_updated target s role) selectors))

-- `SetTargetClosed`
unfoldable pub set_target_closed : Realm → TimePoint → Bytes → Bytes → Bool → Outcome Realm
set_target_closed r now caller target closed = do
  assert_can_manage_target r now caller
  let st = State.set_target_closed r.access_state target closed
  ok (commit r st (AccessEvent.target_closed target closed ∷ []))

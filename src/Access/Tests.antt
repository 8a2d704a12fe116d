-- ===== src/Access/Tests.antt =====
-- Concrete runs of the access manager, and its theorems at concrete inputs.
use gno_ibc.Prelude.{
  ℕ, ◌≡◌, ◌≤◌, ◌+◌, ◌<◌, ◌^◌, ◌↔◌, ◌&&◌, ltb, leb, refl, true, false, [], ◌∷◌, Bytes, arith,
  if◌then◌else◌,
}
use gno_ibc.Prelude.Map
use gno_ibc.Prelude.Eq.{◌==◌, nat_eq, bytes_eq}
use gno_ibc.Prelude.Result.{Result, ok, err}
use gno_ibc.Access.Delay
use gno_ibc.Access.Delay.{
  Delay, new_delay, with_update, with_update_no_shortcut, with_update_schedule,
}
use gno_ibc.Access.Role
use gno_ibc.Access.Role.{RoleConfig, admin_role, has_member, public_role}
use gno_ibc.Access.State
use gno_ibc.Access.State.{
  State, AccessError, has_role, can_call, is_target_closed, get_target_function_role,
  get_role_grant_delay, set_target_function_roles,
}
use gno_ibc.Access.State.Calls.{elem, can_call_iff, set_target_function_roles_effect}
use gno_ibc.Access.State.Admins.{HasAdmin, revoke_role-HasAdmin}
use gno_ibc.Access.State.Grants.{grant_role_activation, set_grant_delay_no_shortcut}
use gno_ibc.Access.Realm
use gno_ibc.Access.Realm.Safety
use gno_ibc.Access.Realm.Safety.{History-HasAdmin}

abbrev alice : Bytes
alice = 1 ∷ []

abbrev bob : Bytes
bob = 2 ∷ []

abbrev carol : Bytes
carol = 3 ∷ []

abbrev seven : ℕ
seven = 7

-- Alice and Bob are administrators; role 7 has a grant delay of 20.
abbrev state : State
state = record {
  roles =
      (
        admin_role,
        record {
          members = (alice, record { since = 5 }) ∷ (bob, record { since = 5 }) ∷ [];
          admin = admin_role;
          grant_delay = new_delay 0;
        },
      )
      ∷ (7, record { members = []; admin = admin_role; grant_delay = new_delay 20 })
      ∷ [];
  targets = [];
}

abbrev realm : Realm.Realm
realm = record { access_state = state; events = [] }

abbrev state_of : {A : Type 0} → Result AccessError (State × A) → State
state_of (ok (s, a)) = s
state_of (err e) = state

abbrev only_state_of : Result AccessError State → State
only_state_of (ok s) = s
only_state_of (err e) = state

abbrev realm_of : {A : Type 0} → Result AccessError (Realm.Realm × A) → Realm.Realm
realm_of (ok (r, a)) = r
realm_of (err e) = realm

alice-HasAdmin : HasAdmin state 10
unfolding has_role Map.lookup has_member
alice-HasAdmin = (alice, refl)

delay_20 : Delay.get (new_delay 20) 10 < 2 ^ 32
unfolding Delay.get
delay_20 = omega arith

with_update_no_shortcut_example :
    10 + Delay.get (new_delay 20) 10 ≤ 15 + Delay.get (with_update (new_delay 20) 10 3 5).0 15
with_update_no_shortcut_example =
    with_update_no_shortcut (new_delay 20) 10 15 3 5 (omega arith) (omega arith) (omega arith)
      delay_20 (omega arith)

with_update_schedule_example :
    (10 + 5 ≤ (with_update (new_delay 20) 10 3 5).1)
    × (Delay.get (with_update (new_delay 20) 10 3 5).0 15
        ≡ (if ltb 15 (with_update (new_delay 20) 10 3 5).1 then Delay.get (new_delay 20) 10 else 3))
with_update_schedule_example =
    with_update_schedule (new_delay 20) 10 15 3 5 (omega arith) (omega arith) delay_20 (omega arith)

can_call_iff_example : (can_call state 10 alice carol bob ≡ true) ↔ (
    (is_target_closed state carol ≡ false)
    × (has_role state 10 (get_target_function_role state carol bob) alice ≡ true))
can_call_iff_example = can_call_iff state 10 alice carol bob

set_target_function_roles_effect_example :
    (get_target_function_role (set_target_function_roles state carol (alice ∷ bob ∷ []) 7) carol bob
      ≡ (if carol == carol
          then (if elem bob (alice ∷ bob ∷ []) then 7 else get_target_function_role state carol bob)
          else get_target_function_role state carol bob))
    × (is_target_closed (set_target_function_roles state carol (alice ∷ bob ∷ []) 7) carol
        ≡ is_target_closed state carol)
    × ((set_target_function_roles state carol (alice ∷ bob ∷ []) 7).roles ≡ state.roles)
set_target_function_roles_effect_example =
    set_target_function_roles_effect state carol (alice ∷ bob ∷ []) 7 carol bob

revokes_bob :
    State.revoke_role state 10 admin_role bob
    ≡ ok (state_of (State.revoke_role state 10 admin_role bob), true)
unfolding State.revoke_role Map.lookup Map.insert Role.revoke State.is_last_admin has_member Map.any
revokes_bob = refl

revoke_role-HasAdmin_example : HasAdmin (state_of (State.revoke_role state 10 admin_role bob)) 10
revoke_role-HasAdmin_example =
    revoke_role-HasAdmin state (state_of (State.revoke_role state 10 admin_role bob)) 10 admin_role
      bob true alice-HasAdmin revokes_bob

grants_carol :
    State.grant_role state 10 7 carol ≡ ok (state_of (State.grant_role state 10 7 carol), true)
unfolding State.grant_role Map.lookup Map.insert Role.grant
grants_carol = refl

delay_of_7 : get_role_grant_delay state 10 7 ≡ 20
unfolding get_role_grant_delay Map.lookup Role.grant_delay Delay.get
delay_of_7 = refl

grant_role_activation_example :
    has_role (state_of (State.grant_role state 10 7 carol)) 30 7 carol ≡ (
      if true && (seven == seven && carol == carol)
      then leb (10 + get_role_grant_delay state 10 7) 30
      else has_role state 30 7 carol)
grant_role_activation_example =
    grant_role_activation state (state_of (State.grant_role state 10 7 carol)) 10 30 7 carol true 7
      carol (omega arith) (omega arith) (omega arith) (ground (arith, delay_of_7)) grants_carol

sets_delay :
    State.set_grant_delay state 10 7 3 ≡ ok (only_state_of (State.set_grant_delay state 10 7 3))
unfolding State.set_grant_delay Map.lookup Map.insert Role.set_grant_delay
sets_delay = refl

set_grant_delay_no_shortcut_example :
    10 + get_role_grant_delay state 10 7
    ≤ 15 + get_role_grant_delay (only_state_of (State.set_grant_delay state 10 7 3)) 15 7
set_grant_delay_no_shortcut_example =
    set_grant_delay_no_shortcut state (only_state_of (State.set_grant_delay state 10 7 3)) 10 15 7 3
      (omega arith) (omega arith) (omega arith) (ground (arith, delay_of_7)) sets_delay

realm_revokes_bob :
    Realm.revoke_role realm 10 alice admin_role bob
    ≡ ok (realm_of (Realm.revoke_role realm 10 alice admin_role bob), true)
unfolding Realm.revoke_role State.revoke_role Map.lookup Map.insert Role.revoke State.can_admin_role
    has_role State.get_role_admin has_member State.is_last_admin Map.any
realm_revokes_bob = refl

History-HasAdmin_example :
    HasAdmin (realm_of (Realm.revoke_role realm 10 alice admin_role bob)).access_state 10
History-HasAdmin_example =
    History-HasAdmin realm 10 10 (realm_of (Realm.revoke_role realm 10 alice admin_role bob))
      alice-HasAdmin
      (Safety.next Safety.here (omega arith) (omega arith)
        (Safety.revoke alice admin_role bob true realm_revokes_bob))

-- ===== src/Access/Role.antt =====
-- gno.land/p/onbloc/access/manager/state_role.gno: the members and the settings of one role.
use gno_ibc.Prelude.{ℕ, ◌*◌, Bool, true, false, none, some, [], Bytes}
use gno_ibc.Prelude.Map
use gno_ibc.Prelude.Map.{Map}
use gno_ibc.Prelude.Eq.{bytes_eq}
use gno_ibc.Access.TimePoint.{TimePoint, Access, new_access_with_delay, is_active_at}
use gno_ibc.Access.Delay
use gno_ibc.Access.Delay.{Delay, new_delay, with_update}

-- `AdminRole`, `PublicRole` and `MinSetback` of consts.gno
abbrev pub admin_role : ℕ
admin_role = 0

abbrev pub public_role : ℕ
public_role = 0xffff_ffff_ffff_ffff

abbrev pub min_setback : ℕ
min_setback = 5 * 24 * 60 * 60

pub record RoleConfig : Type 0 where
  pub members : Map Bytes Access
  pub admin : ℕ
  pub grant_delay : Delay

-- `NewRoleConfig`
abbrev pub new_role_config : ℕ → ℕ → RoleConfig
new_role_config admin delay = record { members = []; admin = admin; grant_delay = new_delay delay }

-- `RoleConfig.grantDelay`
unfoldable pub grant_delay : RoleConfig → TimePoint → ℕ
grant_delay r now = Delay.get r.grant_delay now

-- `RoleConfig.grant`: the updated role, and whether the account is a new member.
unfoldable pub grant : RoleConfig → Bytes → TimePoint → RoleConfig × Bool
grant r account now = elim (Map.lookup account r.members) [
  | some _ ↦ (r, false)
  | none ↦ (
    record r {
      members = Map.insert account (new_access_with_delay now (grant_delay r now)) r.members;
    },
    true,
  )
]

-- `RoleConfig.revoke`
unfoldable pub revoke : RoleConfig → Bytes → RoleConfig × Bool
revoke r account = elim (Map.lookup account r.members) [
  | some _ ↦ (record r { members = Map.erase account r.members }, true)
  | none ↦ (r, false)
]

-- `RoleConfig.hasMember`
unfoldable pub has_member : RoleConfig → Bytes → TimePoint → Bool
has_member r account now = elim (Map.lookup account r.members) [
  | some access ↦ is_active_at access now
  | none ↦ false
]

-- `RoleConfig.setAdmin`
unfoldable pub set_admin : RoleConfig → ℕ → RoleConfig
set_admin r admin = record r { admin = admin }

-- `RoleConfig.setGrantDelay`
unfoldable pub set_grant_delay : RoleConfig → TimePoint → ℕ → RoleConfig
set_grant_delay r now delay = record r {
  grant_delay = (with_update r.grant_delay now delay min_setback).0;
}

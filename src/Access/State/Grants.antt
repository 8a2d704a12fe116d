-- ===== src/Access/State/Grants.antt =====
-- When granted memberships become active, and that the grant delay cannot be side-stepped.
use gno_ibc.Prelude.{
  ℕ, ◌+◌, ◌^◌, ◌≤◌, ◌<◌, ◌≡◌, Bool, true, false, Bytes, arith, leb, if◌then◌else◌, ◌&&◌, eqb_iff,
}
use gno_ibc.Prelude.Map
use gno_ibc.Prelude.Map.{lookup-insert}
use gno_ibc.Prelude.Result.{ok}
use gno_ibc.Prelude.Eq.{◌==◌, nat_eq, bytes_eq, bytes_beq_iff}
use gno_ibc.Access.TimePoint.{TimePoint, new_access_with_delay}
use gno_ibc.Access.Delay.{with_update, with_update_no_shortcut}
use gno_ibc.Access.Delay
use gno_ibc.Access.Role
use gno_ibc.Access.Role.{RoleConfig, public_role, min_setback, has_member}
use gno_ibc.Access.State.{
  State, has_role, grant_role, set_grant_delay, get_role_grant_delay, ensured_role, put_role,
}

-- `has_role` of a role that is not public, through the role that `ensureRole` leaves.
has_role-ensured_role :
    (st : State) (t : TimePoint) (role : ℕ) (account : Bytes)
    → has_role st t role account
      ≡ (if role == public_role then true else has_member (ensured_role st role) account t)
unfolding has_role has_member Map.lookup
has_role-ensured_role st t role account = ground arith

get_role_grant_delay-ensured_role :
    (st : State) (t : TimePoint) (role : ℕ)
    → get_role_grant_delay st t role ≡ Role.grant_delay (ensured_role st role) t
unfolding get_role_grant_delay Role.grant_delay Delay.get
get_role_grant_delay-ensured_role st t role = ground arith

has_role-put_role :
    (st : State) (role : ℕ) (r : RoleConfig) (t : TimePoint) (role' : ℕ) (account : Bytes)
    → has_role (put_role st role r) t role' account ≡ (
        if role == role'
        then (if role' == public_role then true else has_member r account t)
        else has_role st t role' account)
unfolding has_role
has_role-put_role st role r t role' account = ground (arith, lookup-insert role role' r st.roles)

-- The membership of a new member is active from the end of the delay on.
has_member-grant :
    (r : RoleConfig) (account : Bytes) (now later : ℕ) (account' : Bytes)
    → 0 < now
    → now < 2 ^ 62
    → later < 2 ^ 62
    → Role.grant_delay r now < 2 ^ 32
    → (Role.grant r account now).1 ≡ true
    → has_member (Role.grant r account now).0 account' later ≡ (
        if account == account'
        then leb (now + Role.grant_delay r now) later
        else has_member r account' later)
unfolding Role.grant has_member
has_member-grant r account now later account' pos hn hl hd new = ground (
  arith,
  bytes_beq_iff account account',
  lookup-insert account account' (new_access_with_delay now (Role.grant_delay r now)) r.members,
)

grant_existing :
    (r : RoleConfig) (account : Bytes) (now : ℕ)
    → (Role.grant r account now).1 ≡ false
    → (Role.grant r account now).0 ≡ r
unfolding Role.grant
grant_existing r account now old = ground arith

-- A successful grant that reports a new member gives exactly that account exactly that role, from
-- the grant delay after `now` on; no other membership changes. A grant that reports an existing
-- member changes no membership.
pub grant_role_activation :
    (st st' : State) (now later role : ℕ) (account : Bytes) (is_new : Bool) (role' : ℕ)
    (account' : Bytes)
    → 0 < now
    → now < 2 ^ 62
    → later < 2 ^ 62
    → get_role_grant_delay st now role < 2 ^ 32
    → grant_role st now role account ≡ ok (st', is_new)
    → has_role st' later role' account' ≡ (
        if is_new && (role == role' && account == account')
        then leb (now + get_role_grant_delay st now role) later
        else has_role st later role' account')
unfolding grant_role
grant_role_activation st st' now later role account is_new role' account' pos hn hl hd done =
    ground (
      arith,
      has_role-put_role st role (Role.grant (ensured_role st role) account now).0 later role'
          account',
      has_role-ensured_role st later role account',
      get_role_grant_delay-ensured_role st now role,
      has_member-grant (ensured_role st role) account now later account' pos hn hl,
      grant_existing (ensured_role st role) account now,
    )

-- After the grant delay of a role is changed at `now`, a membership granted at any later time is
-- never active before one granted at `now` under the old delay would have been.
pub set_grant_delay_no_shortcut :
    (st st' : State) (now later role delay : ℕ)
    → now < 2 ^ 62
    → later < 2 ^ 62
    → now ≤ later
    → get_role_grant_delay st now role < 2 ^ 32
    → set_grant_delay st now role delay ≡ ok st'
    → now + get_role_grant_delay st now role ≤ later + get_role_grant_delay st' later role
unfolding set_grant_delay Role.set_grant_delay Role.grant_delay
set_grant_delay_no_shortcut st st' now later role delay hn hl le hd done = ground (
  arith,
  get_role_grant_delay-ensured_role st now role,
  get_role_grant_delay-ensured_role st' later role,
  lookup-insert role role (Role.set_grant_delay (ensured_role st role) now delay) st.roles,
  eqb_iff role role,
  with_update_no_shortcut (ensured_role st role).grant_delay now later delay min_setback,
)

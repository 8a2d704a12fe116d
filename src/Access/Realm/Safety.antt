-- ===== src/Access/Realm/Safety.antt =====
-- The access realm over any history of calls: it always keeps an active administrator.
use gno_ibc.Prelude.{ℕ, ◌^◌, ◌≤◌, ◌<◌, ◌≡◌, Bool, true, List, Bytes, arith}
use gno_ibc.Prelude.Map.{lookup-insert}
use gno_ibc.Prelude.Eq.{nat_eq, bytes_eq, bytes_beq_iff}
use gno_ibc.Prelude.Result.{ok}
use gno_ibc.Access.TimePoint.{TimePoint, new_access_with_delay}
use gno_ibc.Access.Role
use gno_ibc.Access.Role.{RoleConfig, admin_role, has_member}
use gno_ibc.Access.State
use gno_ibc.Access.State.{State, has_role, put_role, ensured_role}
use gno_ibc.Access.State.Admins.{HasAdmin, revoke_role-HasAdmin}
use gno_ibc.Access.Realm

-- One successful call of a public function of the realm, by some caller at some time.
pub data Step (now : TimePoint) (r r' : Realm.Realm) : Type 0 where
  grant :
      (caller : Bytes) (role : ℕ) (account : Bytes) (b : Bool)
      → Realm.grant_role r now caller role account ≡ ok (r', b)
      → Step now r r'
  revoke :
      (caller : Bytes) (role : ℕ) (account : Bytes) (b : Bool)
      → Realm.revoke_role r now caller role account ≡ ok (r', b)
      → Step now r r'
  renounce :
      (caller : Bytes) (role : ℕ) (confirmation : Bytes) (b : Bool)
      → Realm.renounce_role r now caller role confirmation ≡ ok (r', b)
      → Step now r r'
  label :
      (caller : Bytes) (role : ℕ) (text : Bytes)
      → Realm.label_role r now caller role text ≡ ok r'
      → Step now r r'
  set_admin :
      (caller : Bytes) (role admin : ℕ)
      → Realm.set_role_admin r now caller role admin ≡ ok r'
      → Step now r r'
  set_delay :
      (caller : Bytes) (role delay : ℕ)
      → Realm.set_grant_delay r now caller role delay ≡ ok r'
      → Step now r r'
  set_selector :
      (caller target selector : Bytes) (role : ℕ)
      → Realm.set_function_role r now caller target selector role ≡ ok r'
      → Step now r r'
  set_selectors :
      (caller target : Bytes) (selectors : List Bytes) (role : ℕ)
      → Realm.set_function_roles r now caller target selectors role ≡ ok r'
      → Step now r r'
  set_closed :
      (caller target : Bytes) (closed : Bool)
      → Realm.set_target_closed r now caller target closed ≡ ok r'
      → Step now r r'

-- A history of successful calls at times that never go back.
pub data History (r : Realm.Realm) (start : TimePoint) : TimePoint → Realm.Realm → Type 0 where
  here : History r start start r
  next :
      {t t' : TimePoint} {s s' : Realm.Realm}
      → History r start t s
      → t ≤ t'
      → t' < 2 ^ 62
      → Step t' s s'
      → History r start t' s'

has_role_later :
    (st : State) (t t' : TimePoint) (a : Bytes)
    → t ≤ t'
    → t' < 2 ^ 62
    → has_role st t admin_role a ≡ true
    → has_role st t' admin_role a ≡ true
unfolding has_role has_member
has_role_later st t t' a le small h = ground arith

-- An update of one role keeps an administrator, if the update keeps that role's members.
has_role-put_role :
    (st : State) (role : ℕ) (r : RoleConfig) (now : TimePoint) (a : Bytes)
    → (has_member (ensured_role st role) a now ≡ true → has_member r a now ≡ true)
    → has_role st now admin_role a ≡ true
    → has_role (put_role st role r) now admin_role a ≡ true
unfolding has_role
has_role-put_role st role r now a keep h =
    ground (arith, keep, lookup-insert role admin_role r st.roles)

has_member-grant :
    (r : RoleConfig) (account : Bytes) (now : TimePoint) (a : Bytes)
    → has_member r a now ≡ true
    → has_member (Role.grant r account now).0 a now ≡ true
unfolding has_member Role.grant
has_member-grant r account now a h = ground (
  arith,
  bytes_beq_iff account a,
  lookup-insert account a (new_access_with_delay now (Role.grant_delay r now)) r.members,
)

grant_role-HasAdmin :
    (st st' : State) (now : TimePoint) (role : ℕ) (account : Bytes) (b : Bool)
    → HasAdmin st now
    → State.grant_role st now role account ≡ ok (st', b)
    → HasAdmin st' now
unfolding State.grant_role
grant_role-HasAdmin st st' now role account b (a, h) done = (
  a,
  ground (
    arith,
    has_role-put_role st role (Role.grant (ensured_role st role) account now).0 now a
        (has_member-grant (ensured_role st role) account now a) h,
  ),
)

-- Changes of a role's settings and of targets leave the members alone.
set_role_admin-HasAdmin :
    (st st' : State) (now : TimePoint) (role admin : ℕ)
    → HasAdmin st now
    → State.set_role_admin st role admin ≡ ok st'
    → HasAdmin st' now
unfolding State.set_role_admin Role.set_admin has_member
set_role_admin-HasAdmin st st' now role admin (a, h) done = (
  a,
  ground (
    arith,
    has_role-put_role st role (Role.set_admin (ensured_role st role) admin) now a (λ m. m) h,
  ),
)

set_grant_delay-HasAdmin :
    (st st' : State) (now : TimePoint) (role delay : ℕ)
    → HasAdmin st now
    → State.set_grant_delay st now role delay ≡ ok st'
    → HasAdmin st' now
unfolding State.set_grant_delay Role.set_grant_delay has_member
set_grant_delay-HasAdmin st st' now role delay (a, h) done = (
  a,
  ground (
    arith,
    has_role-put_role st role (Role.set_grant_delay (ensured_role st role) now delay) now a (λ m. m)
        h,
  ),
)

module _ (r r' : Realm.Realm) (now : TimePoint) (h : HasAdmin r.access_state now) where
  grant-HasAdmin :
      (caller : Bytes) (role : ℕ) (account : Bytes) (b : Bool)
      → Realm.grant_role r now caller role account ≡ ok (r', b)
      → HasAdmin r'.access_state now
  unfolding Realm.grant_role
  grant-HasAdmin caller role account b done =
      grant_role-HasAdmin r.access_state r'.access_state now role account b h (ground (arith, done))

  revoke-HasAdmin :
      (caller : Bytes) (role : ℕ) (account : Bytes) (b : Bool)
      → Realm.revoke_role r now caller role account ≡ ok (r', b)
      → HasAdmin r'.access_state now
  unfolding Realm.revoke_role
  revoke-HasAdmin caller role account b done =
      revoke_role-HasAdmin r.access_state r'.access_state now role account b h
        (ground (arith, done))

  renounce-HasAdmin :
      (caller : Bytes) (role : ℕ) (confirmation : Bytes) (b : Bool)
      → Realm.renounce_role r now caller role confirmation ≡ ok (r', b)
      → HasAdmin r'.access_state now
  unfolding Realm.renounce_role State.renounce_role
  renounce-HasAdmin caller role confirmation b done =
      revoke_role-HasAdmin r.access_state r'.access_state now role caller b h (ground (arith, done))

  set_admin-HasAdmin :
      (caller : Bytes) (role admin : ℕ)
      → Realm.set_role_admin r now caller role admin ≡ ok r'
      → HasAdmin r'.access_state now
  unfolding Realm.set_role_admin
  set_admin-HasAdmin caller role admin done =
      set_role_admin-HasAdmin r.access_state r'.access_state now role admin h (ground (arith, done))

  set_delay-HasAdmin :
      (caller : Bytes) (role delay : ℕ)
      → Realm.set_grant_delay r now caller role delay ≡ ok r'
      → HasAdmin r'.access_state now
  unfolding Realm.set_grant_delay
  set_delay-HasAdmin caller role delay done =
      set_grant_delay-HasAdmin r.access_state r'.access_state now role delay h
        (ground (arith, done))

  -- Calls that leave the roles alone.
  same_roles-HasAdmin : r'.access_state.roles ≡ r.access_state.roles → HasAdmin r'.access_state now
  unfolding has_role
  same_roles-HasAdmin e = (h.0, ground (arith, h.1, e))

  -- Every step keeps an active administrator.
  Step-HasAdmin : Step now r r' → HasAdmin r'.access_state now
  unfolding Realm.label_role Realm.set_function_role Realm.set_function_roles
      Realm.set_target_closed State.set_target_function_role State.set_target_function_roles
      State.set_target_closed
  Step-HasAdmin (grant caller role account b done) = grant-HasAdmin caller role account b done
  Step-HasAdmin (revoke caller role account b done) = revoke-HasAdmin caller role account b done
  Step-HasAdmin (renounce caller role confirmation b done) =
      renounce-HasAdmin caller role confirmation b done
  Step-HasAdmin (label caller role text done) = same_roles-HasAdmin (ground (arith, done))
  Step-HasAdmin (set_admin caller role admin done) = set_admin-HasAdmin caller role admin done
  Step-HasAdmin (set_delay caller role delay done) = set_delay-HasAdmin caller role delay done
  Step-HasAdmin (set_selector caller target selector role done) =
      same_roles-HasAdmin (ground (arith, done))
  Step-HasAdmin (set_selectors caller target selectors role done) =
      same_roles-HasAdmin (ground (arith, done))
  Step-HasAdmin (set_closed caller target closed done) = same_roles-HasAdmin (ground (arith, done))

-- Whatever successful calls of the realm are made, by whomever, at times that never go back and stay
-- below 2 ^ 62: if some account was an active administrator at the start, some account is one at the
-- end.
pub History-HasAdmin :
    (r : Realm.Realm) (start now : TimePoint) (r' : Realm.Realm)
    → HasAdmin r.access_state start
    → History r start now r'
    → HasAdmin r'.access_state now
History-HasAdmin r start now r' h here = h
History-HasAdmin r start now r' h (next {t = t} {s = s} past le small step) =
    let before = History-HasAdmin r start t s h past in
    Step-HasAdmin s r' now
      (before.0, has_role_later s.access_state t now before.0 le small before.1) step

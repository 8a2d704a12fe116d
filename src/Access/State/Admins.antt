-- ===== src/Access/State/Admins.antt =====
-- The last active administrator cannot be removed.
use gno_ibc.Prelude.{
  ℕ, ◌≡◌, inl, inr, Bool, true, false, some, Bytes, arith, not, ◌&&◌, if◌then◌else◌, Bool-cases,
  eqb_iff,
}
use gno_ibc.Prelude.Map
use gno_ibc.Prelude.Map.{lookup-insert, lookup-erase, any_sound}
use gno_ibc.Prelude.Result.{ok}
use gno_ibc.Prelude.Eq.{◌==◌, nat_eq, bytes_eq, bytes_beq_iff}
use gno_ibc.Access.TimePoint.{TimePoint, Access, is_active_at}
use gno_ibc.Access.Role
use gno_ibc.Access.Role.{RoleConfig, admin_role, public_role, has_member}
use gno_ibc.Access.State.{
  State, has_role, is_last_admin, revoke_role, get_role, put_role, ensured_role,
}

has_member-revoke :
    (r : RoleConfig) (account a : Bytes) (now : TimePoint)
    → has_member (Role.revoke r account).0 a now
      ≡ (if account == a then false else has_member r a now)
unfolding has_member Role.revoke
has_member-revoke r account a now =
    ground (arith, bytes_beq_iff account a, lookup-erase account a r.members)

-- Some account holds the admin role at the time.
abbrev pub HasAdmin : State → TimePoint → Type 0
HasAdmin st now = (m : Bytes) × (has_role st now admin_role m ≡ true)

abbrev other_active : Bytes → TimePoint → Bytes → Access → Bool
other_active account now member access = not (member == account) && is_active_at access now

someone_else :
    (r : RoleConfig) (now : TimePoint) (account : Bytes)
    → Map.any r.members (other_active account now) ≡ true
    → (m : Bytes) × ((account == m) ≡ false) × (has_member r m now ≡ true)
unfolding has_member
someone_else r now account h =
    let (m, access, found, hit) = any_sound r.members (other_active account now) h in
    (
      m,
      ground (arith, hit, bytes_beq_iff account m, bytes_beq_iff m account),
      ground (arith, found, hit),
    )

-- If `account` is not the last administrator and there is one, there is one besides `account`.
other_admin :
    (r : RoleConfig) (st : State) (now : TimePoint) (account a : Bytes)
    → get_role st admin_role ≡ some r
    → has_member r a now ≡ true
    → is_last_admin st now account ≡ false
    → (m : Bytes) × ((account == m) ≡ false) × (has_member r m now ≡ true)
unfolding is_last_admin
other_admin r st now account a found active other = elim (Bool-cases (has_member r account now)) [
  | inl member ↦ someone_else r now account (ground (arith, found, other))
  | inr outsider ↦ (
    a,
    elim (Bool-cases (account == a)) [
      | inl same ↦ ground (arith, bytes_beq_iff account a)
      | inr differs ↦ differs
    ],
    active,
  )
]

has_role-admin_role :
    (st : State) (now : TimePoint) (m : Bytes)
    → has_role st now admin_role m ≡ has_member (ensured_role st admin_role) m now
unfolding has_role has_member Map.lookup
has_role-admin_role st now m = ground arith

has_role-put_role :
    (st : State) (role : ℕ) (r : RoleConfig) (now : TimePoint) (m : Bytes)
    → has_role (put_role st role r) now admin_role m
      ≡ (if role == admin_role then has_member r m now else has_role st now admin_role m)
unfolding has_role
has_role-put_role st role r now m = ground (arith, lookup-insert role admin_role r st.roles)

-- What a successful revocation has checked and written.
module _ (st st' : State) (now : TimePoint) (role : ℕ) (account : Bytes) (b : Bool)
    (done : revoke_role st now role account ≡ ok (st', b)) where
  revoked_state :
      st'
      ≡ put_role
          (put_role st role (ensured_role st role))
          role
          (Role.revoke (ensured_role st role) account).0
  unfolding revoke_role
  revoked_state = ground (arith, done)

  revoked_not_last :
      role ≡ admin_role
      → is_last_admin (put_role st role (ensured_role st role)) now account ≡ false
  unfolding revoke_role
  revoked_not_last e = ground (arith, done)

  has_role-revoke_role :
      (m : Bytes)
      → has_role st' now admin_role m
        ≡ (if role == admin_role && account == m then false else has_role st now admin_role m)
  has_role-revoke_role m = ground (
    arith,
    revoked_state,
    has_role-put_role st role (ensured_role st role) now m,
    has_role-put_role (put_role st role (ensured_role st role)) role
        (Role.revoke (ensured_role st role) account).0 now m,
    has_member-revoke (ensured_role st role) account m now,
    has_role-admin_role st now m,
  )

-- Revoking any role of any account leaves an active administrator, if there was one.
pub revoke_role-HasAdmin :
    (st st' : State) (now : TimePoint) (role : ℕ) (account : Bytes) (b : Bool)
    → HasAdmin st now
    → revoke_role st now role account ≡ ok (st', b)
    → HasAdmin st' now
revoke_role-HasAdmin st st' now role account b (a, admin) done =
    elim (Bool-cases (role == admin_role)) [
      | inr other ↦
          (a, ground (arith, admin, other, has_role-revoke_role st st' now role account b done a))
      | inl same ↦
          let e : role ≡ admin_role = (eqb_iff role admin_role).0 same in
          let (m, differs, active) =
            other_admin (ensured_role st role) (put_role st role (ensured_role st role)) now account
              a (ground (arith, lookup-insert role admin_role (ensured_role st role) st.roles, e))
              (ground (arith, has_role-admin_role st now a, e))
              (revoked_not_last st st' now role account b done e) in
          (
            m,
            ground (
              arith,
              has_role-revoke_role st st' now role account b done m,
              differs,
              active,
              has_role-admin_role st now m,
              e,
            ),
          )
    ]

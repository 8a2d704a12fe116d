-- ===== src/Access/Target.antt =====
-- gno.land/p/onbloc/access/manager/state_target.gno: the roles that one target's selectors require.
-- Selectors and targets are byte strings. A nil map of selectors reads as the empty map.
use gno_ibc.Prelude.{ℕ, Bool, none, some, List, [], ◌∷◌, Bytes}
use gno_ibc.Prelude.Map
use gno_ibc.Prelude.Map.{Map}
use gno_ibc.Prelude.Eq.{bytes_eq}
use gno_ibc.Access.Role.{admin_role}

pub record TargetConfig : Type 0 where
  pub function_roles : Map Bytes ℕ
  pub closed : Bool

-- `NewTargetConfig`
abbrev pub new_target_config : Bool → TargetConfig
new_target_config closed = record { function_roles = []; closed = closed }

-- `TargetConfig.setFunctionRole`
unfoldable pub set_function_role : TargetConfig → Bytes → ℕ → TargetConfig
set_function_role t selector role = record t {
  function_roles = Map.insert selector role t.function_roles;
}

-- `TargetConfig.setFunctionRoles`
unfoldable pub set_function_roles : TargetConfig → List Bytes → ℕ → TargetConfig
set_function_roles t [] role = t
set_function_roles t (selector ∷ selectors) role =
    set_function_roles (set_function_role t selector role) selectors role

-- `TargetConfig.functionRole`
unfoldable pub function_role : TargetConfig → Bytes → ℕ
function_role t selector = elim (Map.lookup selector t.function_roles) [
  | some role ↦ role
  | none ↦ admin_role
]

-- `TargetConfig.setClosed`
unfoldable pub set_closed : TargetConfig → Bool → TargetConfig
set_closed t closed = record t { closed = closed }

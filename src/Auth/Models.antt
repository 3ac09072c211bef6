-- ===== src/Auth/Models.antt =====
-- src/network_agent_rag/auth/models.py, users.py and context.py: roles, permissions and users.
use networkops_ai_agent.Base.{
  arith, String, ℕ, Option, List, [], ◌≡◌, Eq, eq_by_rank, length, has_duplicates, Result, raise_if,
  ◌>>◌, nat_beq, ◌∷◌, string_eq,
}

pub data Role : Type 0 where
  operator engineer embedded_engineer admin : Role

pub data Permission : Type 0 where
  view_incident view_trace create_repair_plan execute_repair approve_repair : Permission
  manage_system embedded_read embedded_generate embedded_simulate : Permission

abbrev pub role_rank : Role → ℕ
role_rank operator = 0
role_rank engineer = 1
role_rank embedded_engineer = 2
role_rank admin = 3

pub role_rank_injective : (a b : Role) → role_rank a ≡ role_rank b → a ≡ b
role_rank_injective a b h = ground arith

instance abbrev pub role_eq : Eq Role
role_eq = eq_by_rank role_rank role_rank_injective

abbrev pub permission_rank : Permission → ℕ
permission_rank view_incident = 0
permission_rank view_trace = 1
permission_rank create_repair_plan = 2
permission_rank execute_repair = 3
permission_rank approve_repair = 4
permission_rank manage_system = 5
permission_rank embedded_read = 6
permission_rank embedded_generate = 7
permission_rank embedded_simulate = 8

pub permission_rank_injective : (a b : Permission) → permission_rank a ≡ permission_rank b → a ≡ b
permission_rank_injective a b h = ground arith

instance abbrev pub permission_eq : Eq Permission
permission_eq = eq_by_rank permission_rank permission_rank_injective

-- The members of the enumeration, in the order of their definition.
abbrev pub all_permissions : List Permission
all_permissions =
    view_incident ∷ view_trace ∷ create_repair_plan ∷ execute_repair ∷ approve_repair
    ∷ manage_system ∷ embedded_read ∷ embedded_generate ∷ embedded_simulate ∷ []

pub data ValidationError : Type 0 where
  no_roles duplicate_roles : ValidationError

-- `Field(min_length=1)` and `reject_duplicate_roles`
pub check_roles : List Role → Result ValidationError (Unit {0})
check_roles roles = do
  raise_if (nat_beq (length roles) 0) no_roles
  raise_if (has_duplicates roles) duplicate_roles

pub record User : Type 0 where
  pub user_id : String
  pub username : String
  pub roles : List Role

pub record UserIdentity : Type 0 where
  pub user_id : String
  pub username : String
  pub email : Option String
  pub roles : List Role

-- `UserIdentity.to_user`
pub to_user : UserIdentity → User
to_user identity = record {
  user_id = identity.user_id;
  username = identity.username;
  roles = identity.roles;
}

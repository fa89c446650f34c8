-- ===== src/Auth/Roles.antt =====
-- The roles of apps/api/app/auth.py, and the guards of apps/api/app/main.py that ask for them.
use ai_jsunpack.Prelude.{
  ℕ, String, Bool, true, false, Option, none, some, List, [], ◌∷◌, leb, str_eq, contains,
  if◌then◌else◌,
}

pub data ProjectRole : Type 0 where
  viewer maintainer owner : ProjectRole

-- `ROLE_RANK`
unfoldable pub role_rank : ProjectRole → ℕ
role_rank viewer = 1
role_rank maintainer = 2
role_rank owner = 3

pub data TokenKind : Type 0 where
  user service : TokenKind

abbrev pub is_service : TokenKind → Bool
is_service user = false
is_service service = true

-- A dict of roles by project, its keys in order.
abbrev pub Projects : Type 0
Projects = List (String × ProjectRole)

unfoldable pub role_in : String → Projects → Option ProjectRole
role_in project [] = none
role_in project ((p, r) ∷ rest) = if str_eq project p then some r else role_in project rest

pub record AccessContext : Type 0 where
  pub subject : String
  pub kind : TokenKind
  pub projects : Projects
  pub service_roles : List String

abbrev pub has_rank : ProjectRole → Option ProjectRole → Bool
has_rank minimum_role none = false
has_rank minimum_role (some role) = leb (role_rank minimum_role) (role_rank role)

unfoldable pub has_project_role : AccessContext → String → ProjectRole → Bool
unfolding role_in role_rank
has_project_role access project minimum_role =
    has_rank minimum_role (role_in project access.projects)

unfoldable pub has_service_role : AccessContext → String → Bool
has_service_role access role = contains role access.service_roles

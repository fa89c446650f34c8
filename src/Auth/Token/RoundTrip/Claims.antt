-- ===== src/Auth/Token/RoundTrip/Claims.antt =====
-- The payload of `create_auth_token`, as `json.dumps` sorts it and `verify_auth_token` reads it.
use Prim.Native.Char.{code}
use Prim.Native.String.{compare}
use Prim.Native.Nat.{Ordering, compare as compare_ℕ}
use Prim.Native.Nat.compare.{zero-zero, suc-suc}
use Prim.Native.String.compare.{nil-nil, cons-cons}
use ai_jsunpack.Prelude.{
  ℕ, zero, suc, ◌≡◌, refl, ◌∙◌, ap, String, true, false, some, List, [], ◌∷◌, if◌then◌else◌, str_eq,
  str_eq_refl, strip, eq_iff, Bool-cases, inl, inr, leb,
}
use ai_jsunpack.Json.{field, text, get, Items}
use ai_jsunpack.Auth.Roles.{
  ProjectRole, viewer, maintainer, owner, TokenKind, user, service, Projects, role_in,
  AccessContext,
}
use ai_jsunpack.Auth.Codec.{key_le, insert_key, sort_fields, sort_items, sort_json}
use ai_jsunpack.Auth.Token.{
  granted, required_string, kind_of, expiry_of, is_over, check_expiry, role_of, roles_of_fields,
  project_roles, roles_of_items, service_roles_of, access_of, kind_text, role_text, projects_fields,
  text_items, service_role_fields, payload_of,
}

-- Project names that are not blank
abbrev pub AreNamed : Projects → Type 0
AreNamed [] = Unit
AreNamed ((p, r) ∷ rest) = (str_eq (strip p) "" ≡ false) × AreNamed rest

-- Service roles that are not empty
abbrev pub AreFilled : List String → Type 0
AreFilled [] = Unit
AreFilled (s ∷ rest) = (str_eq s "" ≡ false) × AreFilled rest

unfoldable pub insert_project : String → ProjectRole → Projects → Projects
insert_project k r [] = (k, r) ∷ []
insert_project k r ((j, w) ∷ rest) =
    let more = insert_project k r rest in
    if key_le k j then (k, r) ∷ (j, w) ∷ rest else (j, w) ∷ more

unfoldable pub sort_projects : Projects → Projects
unfolding insert_project
sort_projects [] = []
sort_projects ((p, r) ∷ rest) = insert_project p r (sort_projects rest)

insert_key-projects_fields :
    (k : String) (r : ProjectRole) (ps : Projects)
    → insert_key k (text (role_text r)) (projects_fields ps)
      ≡ projects_fields (insert_project k r ps)
unfolding insert_key projects_fields insert_project
insert_key-projects_fields k r [] = refl
insert_key-projects_fields k r ((j, w) ∷ rest) = elim (Bool-cases (key_le k j)) [
  | inl e ↦ rw e refl
  | inr e ↦ rw e (ap (field j (text (role_text w))) (insert_key-projects_fields k r rest))
]

sort_fields-projects_fields :
    (ps : Projects) → sort_fields (projects_fields ps) ≡ projects_fields (sort_projects ps)
unfolding sort_fields projects_fields sort_projects
sort_fields-projects_fields [] = refl
sort_fields-projects_fields ((p, r) ∷ rest) =
    rw (sort_fields-projects_fields rest) (insert_key-projects_fields p r (sort_projects rest))

insert_project-AreNamed :
    (k : String) (r : ProjectRole) (ps : Projects)
    → str_eq (strip k) "" ≡ false
    → AreNamed ps
    → AreNamed (insert_project k r ps)
unfolding insert_project
insert_project-AreNamed k r [] h hs = (h, tt)
insert_project-AreNamed k r ((j, w) ∷ rest) h hs = elim (Bool-cases (key_le k j)) [
  | inl e ↦ rw e (h, hs)
  | inr e ↦ rw e (hs.0, insert_project-AreNamed k r rest h hs.1)
]

sort_projects-AreNamed : (ps : Projects) → AreNamed ps → AreNamed (sort_projects ps)
unfolding sort_projects
sort_projects-AreNamed [] h = tt
sort_projects-AreNamed ((p, r) ∷ rest) h =
    insert_project-AreNamed p r (sort_projects rest) h.0 (sort_projects-AreNamed rest h.1)

role_of-role_text : (r : ProjectRole) → role_of (text (role_text r)) ≡ granted r
unfolding role_of role_text
role_of-role_text viewer = refl
role_of-role_text maintainer = refl
role_of-role_text owner = refl

kind_of-kind_text : (k : TokenKind) → kind_of (some (text (kind_text k))) ≡ granted k
unfolding kind_of kind_text
kind_of-kind_text user = refl
kind_of-kind_text service = refl

roles_of_fields-projects_fields :
    (ps : Projects) → AreNamed ps → roles_of_fields (projects_fields ps) ≡ granted ps
unfolding roles_of_fields projects_fields
roles_of_fields-projects_fields [] h = refl
roles_of_fields-projects_fields ((p, r) ∷ rest) h =
    rw h.0 (rw (role_of-role_text r) (rw (roles_of_fields-projects_fields rest h.1) refl))

roles_of_items-text_items :
    (ss : List String) → AreFilled ss → roles_of_items (text_items ss) ≡ granted ss
unfolding roles_of_items text_items
roles_of_items-text_items [] h = refl
roles_of_items-text_items (s ∷ rest) h = rw h.0 (rw (roles_of_items-text_items rest h.1) refl)

sort_items-text_items : (ss : List String) → sort_items (text_items ss) ≡ text_items ss
unfolding sort_items sort_json text_items
sort_items-text_items [] = refl
sort_items-text_items (s ∷ rest) = ap (Items.cons (text s)) (sort_items-text_items rest)

compare_ℕ_refl : (n : ℕ) → compare_ℕ n n ≡ Ordering.eq
compare_ℕ_refl zero = λ i. zero-zero i
compare_ℕ_refl (suc n) = (λ i. suc-suc n n i) ∙ compare_ℕ_refl n

compare_refl : (s : String) → compare s s ≡ Ordering.eq
compare_refl String.[] = λ i. nil-nil i
compare_refl (String.◌∷◌ c s) =
    (λ i. cons-cons c c s s i) ∙ rw (compare_ℕ_refl (code c), compare_refl s) refl

key_le_refl : (k : String) → key_le k k ≡ true
key_le_refl k = rw (compare_refl k, key_le) refl

later_key : (k j : String) → key_le k j ≡ false → str_eq j k ≡ false
later_key k j h = elim (Bool-cases (str_eq j k)) [
  | inr e ↦ e
  | inl e ↦ cc (rw ((eq_iff j k).0 e) at h, key_le_refl k)
]

swap :
    {A : Type 0} (q k j : String) (x y z : A)
    → str_eq j k ≡ false
    → (if str_eq q j then y else (if str_eq q k then x else z))
      ≡ (if str_eq q k then x else (if str_eq q j then y else z))
swap q k j x y z h = elim (Bool-cases (str_eq q j)) [
  | inr e ↦ rw e refl
  | inl e ↦ rw ((eq_iff q j).0 e, str_eq_refl j, h) refl
]

-- The role in a project, when one more project stands in front.
role_in-insert_project :
    (q k : String) (r : ProjectRole) (ps : Projects)
    → role_in q (insert_project k r ps) ≡ role_in q ((k, r) ∷ ps)
unfolding role_in insert_project
role_in-insert_project q k r [] = refl
role_in-insert_project q k r ((j, w) ∷ rest) = elim (Bool-cases (key_le k j)) [
  | inl e ↦ rw e refl
  | inr e ↦ rw e (
      ap (λ o. if str_eq q j then some w else o) (role_in-insert_project q k r rest)
      ∙ (swap q k j (some r) (some w) (role_in q rest) (later_key k j e)))
]

pub role_in-sort_projects :
    (q : String) (ps : Projects) → role_in q (sort_projects ps) ≡ role_in q ps
unfolding role_in sort_projects
role_in-sort_projects q [] = refl
role_in-sort_projects q ((p, r) ∷ rest) =
    role_in-insert_project q p r (sort_projects rest) ∙ rw (role_in-sort_projects q rest) refl

claims :
    (now expires_at : ℕ) (subject : String) (kind : TokenKind) (projects : Projects)
    (service_roles : List String)
    → str_eq (strip subject) "" ≡ false
    → AreNamed projects
    → AreFilled service_roles
    → leb expires_at now ≡ false
    → access_of now (
        sort_fields (
          payload_of
            (record {
              subject = subject;
              kind = kind;
              projects = projects;
              service_roles = service_roles;
            })
            expires_at))
      ≡ granted (record {
        subject = subject;
        kind = kind;
        projects = sort_projects projects;
        service_roles = service_roles;
      })
unfolding access_of payload_of sort_fields service_role_fields required_string get project_roles
    service_roles_of check_expiry expiry_of is_over
claims now expires_at subject kind projects [] named_s named filled early =
    rw (named_s, early)
      (rw (sort_fields-projects_fields projects) (
        rw (kind_of-kind_text kind) (
          rw
            (roles_of_fields-projects_fields (sort_projects projects)
              (sort_projects-AreNamed projects named))
            refl)))
claims now expires_at subject kind projects (s ∷ ss) named_s named filled early =
    rw (named_s, early)
      (rw (sort_fields-projects_fields projects) (
        rw (kind_of-kind_text kind) (
          rw
            (roles_of_fields-projects_fields (sort_projects projects)
              (sort_projects-AreNamed projects named))
            (rw (filled.0)
              (rw (sort_items-text_items ss) (rw (roles_of_items-text_items ss filled.1) refl))))))

abbrev pub sorted_access : AccessContext → AccessContext
sorted_access access = record {
  subject = access.subject;
  kind = access.kind;
  projects = sort_projects access.projects;
  service_roles = access.service_roles;
}

-- Claims that `verify_auth_token` takes.
pub record IsPresentable (now expires_at : ℕ) (access : AccessContext) : Type 0 where
  pub subject : str_eq (strip access.subject) "" ≡ false
  pub projects : AreNamed access.projects
  pub service_roles : AreFilled access.service_roles
  pub early : leb expires_at now ≡ false

pub access_of-sorted :
    (now expires_at : ℕ) (access : AccessContext)
    → IsPresentable now expires_at access
    → access_of now (sort_fields (payload_of access expires_at)) ≡ granted (sorted_access access)
access_of-sorted now expires_at access p =
    claims now expires_at access.subject access.kind access.projects access.service_roles p.subject
      p.projects p.service_roles p.early

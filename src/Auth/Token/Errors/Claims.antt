-- ===== src/Auth/Token/Errors/Claims.antt =====
-- Which claims of a payload raise an exception that is no AuthError.
use ai_jsunpack.Prelude.{
  ℕ, ◌≡◌, ◌⊎◌, refl, ap, String, Bool, true, false, ◌||◌, Option, none, some, str_eq, strip, arith,
  Bool-cases, inl, inr,
}
use ai_jsunpack.Json.{
  Json, null, bool, num, real, text, arr, obj, Items, nil, cons, Fields, end, field, get,
}
use ai_jsunpack.Auth.Token.{
  Verdict, granted, auth_error, configuration_error, other_error, ◌>>=◌, required_string, kind_of,
  expiry_of, check_expiry, role_of, roles_of_fields, project_roles, roles_of_items,
  service_roles_of, access_of,
}

-- A list or a dict, which has no hash
abbrev is_container : Json → Bool
is_container (arr _) = true
is_container (obj _) = true
is_container _ = false

-- One of the values is a list or a dict.
abbrev pub has_container : Fields → Bool
has_container end = false
has_container (field k v rest) = is_container v || has_container rest

abbrev pub is_other : {A : Type 0} → Verdict A → Bool
is_other other_error = true
is_other _ = false

-- A chain ends in another exception where one of its parts does.
pub >>=-eq-other_error :
    {A B : Type 0} (m : Verdict A) (f : A → Verdict B)
    → (m >>= f) ≡ other_error
    → (m ≡ other_error) ⊎ ((a : A) × (m ≡ granted a) × (f a ≡ other_error))
>>=-eq-other_error (granted a) f h = inr (a, refl, h)
>>=-eq-other_error (auth_error e) f h = cc h
>>=-eq-other_error configuration_error f h = cc h
>>=-eq-other_error other_error f h = inl refl

>>=-is_other :
    {A B : Type 0} (m : Verdict A) (f : A → Verdict B)
    → is_other m ≡ false
    → ((a : A) → is_other (f a) ≡ false)
    → is_other (m >>= f) ≡ false
>>=-is_other (granted a) f h k = k a
>>=-is_other (auth_error e) f h k = refl
>>=-is_other configuration_error f h k = refl
>>=-is_other other_error f h k = h

role_of-container : (v : Json) → role_of v ≡ other_error → is_container v ≡ true
unfolding role_of
role_of-container (text s) h = ground (arith, h)
role_of-container (arr _) h = refl
role_of-container (obj _) h = refl
role_of-container null h = cc h
role_of-container (bool _) h = cc h
role_of-container (num _) h = cc h
role_of-container (real _) h = cc h

roles_of_fields-container :
    (fs : Fields) → roles_of_fields fs ≡ other_error → has_container fs ≡ true
unfolding roles_of_fields
roles_of_fields-container end h = cc h
roles_of_fields-container (field project v rest) h = elim (Bool-cases (str_eq (strip project) "")) [
  | inl e ↦ cc (rw e at h)
  | inr e ↦ elim (>>=-eq-other_error (role_of v) _ (rw e at h)) [
    | inl bad ↦ ground (arith, role_of-container v bad)
    | inr (role, _, h1) ↦ elim (>>=-eq-other_error (roles_of_fields rest) _ h1) [
      | inl bad ↦ ground (arith, roles_of_fields-container rest bad)
      | inr (more, _, h2) ↦ cc h2
    ]
  ]
]

required_string-is_other : (fs : Fields) (key : String) → is_other (required_string fs key) ≡ false
unfolding required_string
required_string-is_other fs key = go (get key fs) refl
  where
    go : (o : Option Json) → get key fs ≡ o → is_other (required_string fs key) ≡ false
    go none e = rw (e, required_string) refl
    go (some (text s)) e = elim (Bool-cases (str_eq (strip s) "")) [
      | inl b ↦ rw (e, required_string) (rw b refl)
      | inr b ↦ rw (e, required_string) (rw b refl)
    ]
    go (some null) e = rw (e, required_string) refl
    go (some (bool _)) e = rw (e, required_string) refl
    go (some (num _)) e = rw (e, required_string) refl
    go (some (real _)) e = rw (e, required_string) refl
    go (some (arr _)) e = rw (e, required_string) refl
    go (some (obj _)) e = rw (e, required_string) refl

kind_of-is_other : (o : Option Json) → is_other (kind_of o) ≡ false
unfolding kind_of
kind_of-is_other (some (text s)) = ground arith
kind_of-is_other none = refl
kind_of-is_other (some null) = refl
kind_of-is_other (some (bool _)) = refl
kind_of-is_other (some (num _)) = refl
kind_of-is_other (some (real _)) = refl
kind_of-is_other (some (arr _)) = refl
kind_of-is_other (some (obj _)) = refl

expiry_of-is_other : (o : Option Json) → is_other (expiry_of o) ≡ false
unfolding expiry_of
expiry_of-is_other (some (bool true)) = refl
expiry_of-is_other (some (bool false)) = refl
expiry_of-is_other none = refl
expiry_of-is_other (some null) = refl
expiry_of-is_other (some (text _)) = refl
expiry_of-is_other (some (num _)) = refl
expiry_of-is_other (some (real _)) = refl
expiry_of-is_other (some (arr _)) = refl
expiry_of-is_other (some (obj _)) = refl

roles_of_items-is_other : (items : Items) → is_other (roles_of_items items) ≡ false
unfolding roles_of_items
roles_of_items-is_other nil = refl
roles_of_items-is_other (cons (text s) rest) = elim (Bool-cases (str_eq s "")) [
  | inl b ↦ rw b refl
  | inr b ↦ rw b (>>=-is_other (roles_of_items rest) _ (roles_of_items-is_other rest) λ more. refl)
]
roles_of_items-is_other (cons null rest) = refl
roles_of_items-is_other (cons (bool _) rest) = refl
roles_of_items-is_other (cons (num _) rest) = refl
roles_of_items-is_other (cons (real _) rest) = refl
roles_of_items-is_other (cons (arr _) rest) = refl
roles_of_items-is_other (cons (obj _) rest) = refl

service_roles_of-is_other : (o : Option Json) → is_other (service_roles_of o) ≡ false
unfolding service_roles_of
service_roles_of-is_other (some (arr items)) = roles_of_items-is_other items
service_roles_of-is_other none = refl
service_roles_of-is_other (some null) = refl
service_roles_of-is_other (some (bool _)) = refl
service_roles_of-is_other (some (num _)) = refl
service_roles_of-is_other (some (real _)) = refl
service_roles_of-is_other (some (text _)) = refl
service_roles_of-is_other (some (obj _)) = refl

-- A chain whose first part ends in no other exception
pub past :
    {A B : Type 0} (m : Verdict A) (f : A → Verdict B)
    → is_other m ≡ false
    → (m >>= f) ≡ other_error
    → (a : A) × (f a ≡ other_error)
past m f safe h = elim (>>=-eq-other_error m f h) [
  | inl bad ↦ absurd (cc (safe, ap is_other bad))
  | inr (a, _, more) ↦ (a, more)
]

project_roles-container :
    (o : Option Json)
    → project_roles o ≡ other_error
    → (roles : Fields) × (o ≡ some (obj roles)) × (has_container roles ≡ true)
unfolding project_roles
project_roles-container (some (obj fs)) h = (fs, refl, roles_of_fields-container fs h)
project_roles-container none h = cc h
project_roles-container (some null) h = cc h
project_roles-container (some (bool _)) h = cc h
project_roles-container (some (num _)) h = cc h
project_roles-container (some (real _)) h = cc h
project_roles-container (some (text _)) h = cc h
project_roles-container (some (arr _)) h = cc h

pub access_of-container :
    (now : ℕ) (payload : Fields)
    → access_of now payload ≡ other_error
    → (roles : Fields) × (get "projects" payload ≡ some (obj roles)) × (has_container roles ≡ true)
unfolding access_of check_expiry
access_of-container now payload h =
    let (subject, h1) = past _ _ (required_string-is_other payload "sub") h in
    let (kind, h2) = past _ _ (kind_of-is_other (get "kind" payload)) h1 in
    let (expires_at, h3) = past _ _ (expiry_of-is_other (get "exp" payload)) h2 in
    let (u, h4) = past (check_expiry now expires_at) _ (ground arith) h3 in
    elim (>>=-eq-other_error (project_roles (get "projects" payload)) _ h4) [
      | inl bad ↦ project_roles-container (get "projects" payload) bad
      | inr (projects, _, h5) ↦
          let (service_roles, h6) =
            past _ _ (service_roles_of-is_other (get "serviceRoles" payload)) h5 in
          absurd (cc h6)
    ]

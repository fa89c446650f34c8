-- ===== src/Auth/Token.antt =====
-- `create_auth_token`, `verify_auth_token` and `verify_authorization_header` of
-- apps/api/app/auth.py.
pub mod Encoding
pub mod Accepts
pub mod Errors
pub mod RoundTrip
use Prim.Native.Char.{Char, code}
use ai_jsunpack.Prelude.{
  ℕ, zero, suc, ◌+◌, ◌≡◌, String, text_append, Bool, true, false, not, ◌&&◌, ◌||◌, ◌==◌, Option,
  none, some, List, [], ◌∷◌, if◌then◌else◌, leb, ltb, str_eq, strip, given_or, is_some,
}
use ai_jsunpack.Prelude.Parts.{split}
use ai_jsunpack.Json.{
  ℤ, pos, negsuc, Json, num, bool, text, arr, obj, null, real, Items, nil, cons, Fields, end, field,
  get,
}
use ai_jsunpack.Auth.Roles.{
  ProjectRole, viewer, maintainer, owner, TokenKind, user, service, Projects, AccessContext,
}
use ai_jsunpack.Auth.Codec.{Codec, base64url_encode, base64url_json, decode_json_object, is_ascii}

-- How a verification ends: an access context, an AuthError, an AuthConfigurationError, or an
-- exception of another class, which the API does not turn into a refusal.
pub data Verdict (A : Type 0) : Type 0 where
  granted : A → Verdict A
  auth_error : String → Verdict A
  configuration_error : Verdict A
  other_error : Verdict A

infixl 5 ◌>>=◌
abbrev pub ◌>>=◌ : {A B : Type 0} → Verdict A → (A → Verdict B) → Verdict B
granted a >>= f = f a
auth_error e >>= f = auth_error e
configuration_error >>= f = configuration_error
other_error >>= f = other_error

abbrev pub token_algorithm : String
token_algorithm = "HS256"

abbrev pub token_type : String
token_type = "AI-JSUNPACK-AUTH"

-- The signature of `header.payload`
unfoldable pub signature : Codec → String → String → String
unfolding base64url_encode
signature c secret signing_input =
    base64url_encode c (c.hmac_sha256 (c.utf8 secret) (c.utf8 signing_input))

-- `value == text` of an optional JSON value
unfoldable pub is_text : Option Json → String → Bool
is_text (some (text s)) t = str_eq s t
is_text _ t = false

unfoldable pub required_string : Fields → String → Verdict String
unfolding get
required_string payload key = elim (get key payload) [
  | some (text s) ↦ if str_eq (strip s) "" then auth_error key else granted s
  | _ ↦ auth_error key
]

unfoldable pub kind_of : Option Json → Verdict TokenKind
kind_of (some (text s)) =
    if str_eq s "user"
    then granted user
    else if str_eq s "service"
    then granted service
    else auth_error "kind"
kind_of _ = auth_error "kind"

-- `isinstance(expires_at, int)`, which a Boolean is too
unfoldable pub expiry_of : Option Json → Verdict ℤ
expiry_of (some (num z)) = granted z
expiry_of (some (bool true)) = granted (pos 1)
expiry_of (some (bool false)) = granted (pos 0)
expiry_of _ = auth_error "exp"

-- `now >= expires_at`
unfoldable pub is_over : ℕ → ℤ → Bool
is_over now (pos t) = leb t now
is_over now (negsuc _) = true

unfoldable pub check_expiry : ℕ → ℤ → Verdict (Unit {0})
unfolding is_over
check_expiry now z = if is_over now z then auth_error "expired" else granted tt

-- `role not in ROLE_RANK`: a list or a dict has no hash.
unfoldable pub role_of : Json → Verdict ProjectRole
role_of (text s) =
    if str_eq s "viewer"
    then granted viewer
    else if str_eq s "maintainer"
    then granted maintainer
    else if str_eq s "owner"
    then granted owner
    else auth_error "role"
role_of (arr _) = other_error
role_of (obj _) = other_error
role_of _ = auth_error "role"

-- The loop of `_project_roles`
unfoldable pub roles_of_fields : Fields → Verdict Projects
unfolding role_of
roles_of_fields end = granted []
roles_of_fields (field project v rest) =
    if str_eq (strip project) ""
    then auth_error "project"
    else role_of v >>= λ role. roles_of_fields rest >>= λ more. granted ((project, role) ∷ more)

unfoldable pub project_roles : Option Json → Verdict Projects
unfolding roles_of_fields
project_roles (some (obj fs)) = roles_of_fields fs
project_roles _ = auth_error "projects"

unfoldable pub roles_of_items : Items → Verdict (List String)
roles_of_items nil = granted []
roles_of_items (cons (text s) rest) =
    if str_eq s ""
    then auth_error "serviceRoles"
    else roles_of_items rest >>= λ more. granted (s ∷ more)
roles_of_items (cons _ rest) = auth_error "serviceRoles"

unfoldable pub service_roles_of : Option Json → Verdict (List String)
unfolding roles_of_items
service_roles_of none = granted []
service_roles_of (some null) = granted []
service_roles_of (some (arr items)) = roles_of_items items
service_roles_of (some _) = auth_error "serviceRoles"

-- The claims of a payload whose signature was right.
unfoldable pub access_of : ℕ → Fields → Verdict AccessContext
unfolding required_string kind_of expiry_of check_expiry project_roles service_roles_of get
access_of now payload = required_string payload "sub" >>= λ subject.
    kind_of (get "kind" payload) >>= λ kind. expiry_of (get "exp" payload) >>= λ expires_at.
    check_expiry now expires_at >>= λ _. project_roles (get "projects" payload) >>= λ projects.
    service_roles_of (get "serviceRoles" payload) >>= λ service_roles.
    granted (record {
      subject = subject;
      kind = kind;
      projects = projects;
      service_roles = service_roles;
    })

unfoldable pub required_object : Option Fields → String → Verdict Fields
required_object none label = auth_error label
required_object (some fs) label = granted fs

unfoldable pub check_header : Fields → Verdict (Unit {0})
unfolding is_text get
check_header header =
    if is_text (get "alg" header) token_algorithm && is_text (get "typ" header) token_type
    then granted tt
    else auth_error "header"

-- The two parts, once the signature is right.
unfoldable pub decode_parts : Codec → ℕ → String → String → Verdict AccessContext
unfolding required_object decode_json_object check_header access_of
decode_parts c now header_b64 payload_b64 =
    required_object (decode_json_object c header_b64) "token header" >>= λ header.
    required_object (decode_json_object c payload_b64) "token payload" >>= λ payload.
    check_header header >>= λ _. access_of now payload

-- `encode("ascii")` raises a UnicodeEncodeError and `compare_digest` a TypeError, if a text is not
-- ASCII.
unfoldable pub verify_parts : Codec → String → ℕ → String → String → String → Verdict AccessContext
unfolding signature decode_parts
verify_parts c secret now header_b64 payload_b64 signature_b64 =
    let signing_input = text_append header_b64 (String.◌∷◌ "." payload_b64) in
    if not (is_ascii signing_input && is_ascii signature_b64)
    then other_error
    else if str_eq signature_b64 (signature c secret signing_input)
    then decode_parts c now header_b64 payload_b64
    else auth_error "signature"

abbrev pub is_blank : String → Bool
is_blank s = str_eq s ""

-- `len(parts) != 3 or not all(parts)`
unfoldable pub verify_split : Codec → String → ℕ → List String → Verdict AccessContext
unfolding verify_parts
verify_split c secret now (h ∷ p ∷ s ∷ []) =
    if is_blank h || is_blank p || is_blank s
    then auth_error "format"
    else verify_parts c secret now h p s
verify_split c secret now _ = auth_error "format"

unfoldable pub verify_auth_token : Codec → String → ℕ → String → Verdict AccessContext
unfolding verify_split split
verify_auth_token c secret now token = verify_split c secret now (split "." token)

unfoldable pub kind_text : TokenKind → String
kind_text user = "user"
kind_text service = "service"

unfoldable pub role_text : ProjectRole → String
role_text viewer = "viewer"
role_text maintainer = "maintainer"
role_text owner = "owner"

unfoldable pub projects_fields : Projects → Fields
unfolding role_text
projects_fields [] = end
projects_fields ((project, role) ∷ rest) =
    field project (text (role_text role)) (projects_fields rest)

unfoldable pub text_items : List String → Items
text_items [] = nil
text_items (s ∷ rest) = cons (text s) (text_items rest)

-- `if service_roles:`
unfoldable pub service_role_fields : List String → Fields
unfolding text_items
service_role_fields [] = end
service_role_fields (s ∷ rest) = field "serviceRoles" (arr (text_items (s ∷ rest))) end

unfoldable pub payload_of : AccessContext → ℕ → Fields
unfolding kind_text projects_fields service_role_fields
payload_of access expires_at = field "sub" (text access.subject) (
    field "kind" (text (kind_text access.kind)) (
      field "exp" (num (pos expires_at)) (
        field "projects" (obj (projects_fields access.projects))
          (service_role_fields access.service_roles))))

abbrev pub header_fields : Fields
header_fields = field "alg" (text token_algorithm) (field "typ" (text token_type) end)

-- `expires_at`, or else the clock and the time to live
unfoldable pub expires_at_of : Option ℕ → ℕ → ℕ → ℕ
expires_at_of expires_at clock ttl_seconds = given_or expires_at (clock + ttl_seconds)

unfoldable pub create_auth_token : Codec → String → AccessContext → ℕ → String
unfolding payload_of base64url_json signature
create_auth_token c secret access expires_at =
    let header_b64 = base64url_json c header_fields in
    let payload_b64 = base64url_json c (payload_of access expires_at) in
    let signing_input = text_append header_b64 (String.◌∷◌ "." payload_b64) in
    text_append signing_input (String.◌∷◌ "." (signature c secret signing_input))

-- `text.partition(" ")`
abbrev pub after_char : Char → String × Bool × String → String × Bool × String
after_char c (scheme, found, rest) = (String.◌∷◌ c scheme, found, rest)

unfoldable pub partition_space : String → String × Bool × String
partition_space String.[] = ("", false, "")
partition_space (String.◌∷◌ c s) =
    let rest = partition_space s in if code c == b' ' then ("", true, s) else after_char c rest

-- `scheme.lower() == word`, for a word of small ASCII letters
unfoldable pub lower_eq : String → String → Bool
lower_eq String.[] String.[] = true
lower_eq (String.◌∷◌ c s) (String.◌∷◌ d t) =
    let rest = lower_eq s t in
    ((if leb b'A' (code c) && leb (code c) b'Z' then code c + 32 else code c) == code d) && rest
lower_eq _ _ = false

-- An unset or empty secret is an AuthConfigurationError, which `auth_secret` raises before the token
-- is read.
unfoldable pub with_secret :
    Option String → (String → Verdict AccessContext) → Verdict AccessContext
with_secret none k = configuration_error
with_secret (some secret) k = if is_blank secret then configuration_error else k secret

unfoldable pub verify_bearer :
    Codec → Option String → ℕ → String × Bool × String → Verdict AccessContext
unfolding lower_eq verify_auth_token with_secret
verify_bearer c configured now (scheme, separator, token) =
    if not (lower_eq scheme "bearer") || not separator || is_blank (strip token)
    then auth_error "scheme"
    else with_secret configured λ secret. verify_auth_token c secret now (strip token)

unfoldable pub verify_authorization_header :
    Codec → Option String → ℕ → Option String → Verdict AccessContext
unfolding partition_space verify_bearer
verify_authorization_header c configured now none = auth_error "missing"
verify_authorization_header c configured now (some authorization) =
    if is_blank (strip authorization)
    then auth_error "missing"
    else verify_bearer c configured now (partition_space (strip authorization))

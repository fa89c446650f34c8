-- ===== src/Auth/Token/Errors.antt =====
-- Which tokens end `verify_auth_token` of apps/api/app/auth.py in an exception that is no AuthError.
pub mod Claims
use package.text.Mathlib.TextLemmas.{cons-append, nil-append}
use ai_jsunpack.Prelude.{
  ℕ, ◌≡◌, ◌⊎◌, refl, sym, ◌∙◌, ap, String, text_append, Bool, true, false, not, ◌&&◌, ◌||◌, Option,
  none, some, List, [], ◌∷◌, str_eq, strip, leb, arith, eq_iff, Bool-cases, inl, inr, if◌then◌else◌,
}
use ai_jsunpack.Prelude.Parts.{split, join, join-split}
use ai_jsunpack.Json.{
  Json, null, bool, num, real, text, arr, obj, Items, nil, cons, Fields, end, field, get,
}
use ai_jsunpack.Auth.Roles.{AccessContext, Projects}
use ai_jsunpack.Auth.Codec.{Codec, decode_json_object, is_ascii}
use ai_jsunpack.Auth.Token.{
  Verdict, granted, auth_error, configuration_error, other_error, ◌>>=◌, signature, required_string,
  kind_of, expiry_of, check_expiry, role_of, roles_of_fields, project_roles, roles_of_items,
  service_roles_of, access_of, required_object, check_header, decode_parts, verify_parts, is_blank,
  verify_split, verify_auth_token,
}
use ai_jsunpack.Auth.Token.Accepts.{required_object-eq}
use ai_jsunpack.Auth.Token.Errors.Claims.{
  has_container, is_other, >>=-eq-other_error, past, access_of-container,
}

-- A token that was signed with the secret, whose payload gives a project a list or a dict for a role
pub record HasUnhashableRole (c : Codec) (secret : String) (token : String) : Type 0 where
  pub header_b64 : String
  pub payload_b64 : String
  pub spelled :
      token
      ≡ text_append header_b64 (
          String.◌∷◌ "." (
            text_append payload_b64 (
              String.◌∷◌ "."
                (signature c secret (text_append header_b64 (String.◌∷◌ "." payload_b64))))))
  pub payload : Fields
  pub payload_read : decode_json_object c payload_b64 ≡ some payload
  pub roles : Fields
  pub projects : get "projects" payload ≡ some (obj roles)
  pub bad : has_container roles ≡ true

required_object-is_other :
    (o : Option Fields) (label : String) → is_other (required_object o label) ≡ false
unfolding required_object
required_object-is_other none label = refl
required_object-is_other (some fs) label = refl

is_ascii-append : (a b : String) → is_ascii (text_append a b) ≡ (is_ascii a && is_ascii b)
is_ascii-append String.[] b = rw (nil-append b) refl
is_ascii-append (String.◌∷◌ x a) b = rw (cons-append x a b) (ground (arith, is_ascii-append a b))

check_header-is_other : (header : Fields) → is_other (check_header header) ≡ false
unfolding check_header
check_header-is_other header = ground arith

decode_parts-payload :
    (c : Codec) (now : ℕ) (h p : String)
    → decode_parts c now h p ≡ other_error
    → (payload : Fields) × (decode_json_object c p ≡ some payload)
      × (access_of now payload ≡ other_error)
unfolding decode_parts
decode_parts-payload c now h p e =
    let read = required_object (decode_json_object c p) "token payload" in
    let (header, e1) =
      past (required_object (decode_json_object c h) "token header") _
        (required_object-is_other (decode_json_object c h) "token header") e in
    elim (>>=-eq-other_error read _ e1) [
      | inl bad ↦
          absurd (
            cc (required_object-is_other (decode_json_object c p) "token payload", ap is_other bad))
      | inr (payload, found, e2) ↦
          let (u, e3) = past (check_header header) _ (check_header-is_other header) e2 in
          (payload, required_object-eq (decode_json_object c p) "token payload" payload found, e3)
    ]

-- Why a token may end in another exception
abbrev HasEscaped : Codec → String → String → Type 0
HasEscaped c secret token = (is_ascii token ≡ false) ⊎ HasUnhashableRole c secret token

verify_parts-HasEscaped :
    (c : Codec) (secret : String) (now : ℕ) (h p s token : String)
    → token ≡ text_append h (String.◌∷◌ "." (text_append p (String.◌∷◌ "." s)))
    → verify_parts c secret now h p s ≡ other_error
    → HasEscaped c secret token
unfolding verify_parts
verify_parts-HasEscaped c secret now h p s token spelled e =
    let input = text_append h (String.◌∷◌ "." p) in
    elim (Bool-cases (not (is_ascii input && is_ascii s))) [
      | inl bad ↦ inl (
          rw spelled (
            ground (
              arith,
              bad,
              is_ascii-append h (String.◌∷◌ "." p),
              is_ascii-append h (String.◌∷◌ "." (text_append p (String.◌∷◌ "." s))),
              is_ascii-append p (String.◌∷◌ "." s),
            )))
      | inr ok ↦
          let e1 = rw ok at e in
          elim (Bool-cases (str_eq s (signature c secret input))) [
            | inr wrong ↦ cc (rw wrong at e1)
            | inl right ↦
                let e2 = rw right at e1 in
                let same : s ≡ signature c secret input =
                  (eq_iff s (signature c secret input)).0 right in
                let (payload, payload_read, e3) = decode_parts-payload c now h p e2 in
                let (roles, projects, bad) = access_of-container now payload e3 in
                inr (record {
                  header_b64 = h;
                  payload_b64 = p;
                  spelled =
                      spelled
                      ∙ ap (λ t. text_append h (String.◌∷◌ "." (text_append p (String.◌∷◌ "." t))))
                          same;
                  payload = payload;
                  payload_read = payload_read;
                  roles = roles;
                  projects = projects;
                  bad = bad;
                })
          ]
    ]

verify_split-HasEscaped :
    (c : Codec) (secret : String) (now : ℕ) (parts : List String) (token : String)
    → token ≡ join "." parts
    → verify_split c secret now parts ≡ other_error
    → HasEscaped c secret token
unfolding verify_split join
verify_split-HasEscaped c secret now (h ∷ p ∷ s ∷ []) token spelled e =
    elim (Bool-cases (is_blank h || is_blank p || is_blank s)) [
      | inl bad ↦ cc (rw bad at e)
      | inr ok ↦ verify_parts-HasEscaped c secret now h p s token spelled (rw ok at e)
    ]
verify_split-HasEscaped c secret now [] token spelled e = cc e
verify_split-HasEscaped c secret now (_ ∷ []) token spelled e = cc e
verify_split-HasEscaped c secret now (_ ∷ _ ∷ []) token spelled e = cc e
verify_split-HasEscaped c secret now (_ ∷ _ ∷ _ ∷ _ ∷ _) token spelled e = cc e

-- Where `verify_auth_token` ends in an exception that is neither an AuthError nor an
-- AuthConfigurationError, the token has a character that is not ASCII, or it is signed with the secret
-- and its payload gives some project a list or a dict for a role. Every other token is granted or
-- refused.
pub verify_auth_token-other_error :
    (c : Codec) (secret : String) (now : ℕ) (token : String)
    → verify_auth_token c secret now token ≡ other_error
    → (is_ascii token ≡ false) ⊎ HasUnhashableRole c secret token
unfolding verify_auth_token
verify_auth_token-other_error c secret now token e =
    verify_split-HasEscaped c secret now (split "." token) token (sym (join-split "." token)) e

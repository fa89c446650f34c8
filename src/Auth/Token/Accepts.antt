-- ===== src/Auth/Token/Accepts.antt =====
-- What a token has shown when it is accepted.
use Prim.Native.Char.{Char, code}
use text.Mathlib.TextLemmas.{cons-append, nil-append}
use text.Mathlib.TextEquality.{Char-path}
use ai_jsunpack.Prelude.{
  ◌==◌, ℕ, ◌≡◌, refl, sym, ◌∙◌, ap, String, text_append, Bool, true, false, not, ◌&&◌, ◌||◌, Option,
  none, some, List, [], ◌∷◌, str_eq, strip, arith, eq_iff, Bool-cases, inl, inr,
}
use ai_jsunpack.Prelude.Parts.{split, join, join-split}
use ai_jsunpack.Json.{ℤ, Fields, get}
use ai_jsunpack.Auth.Roles.{AccessContext}
use ai_jsunpack.Auth.Codec.{Codec, decode_json_object, is_ascii}
use ai_jsunpack.Auth.Token.{
  Verdict, granted, auth_error, configuration_error, other_error, ◌>>=◌, signature, is_text,
  required_string, kind_of, expiry_of, is_over, check_expiry, project_roles, service_roles_of,
  access_of, required_object, check_header, decode_parts, verify_parts, is_blank, verify_split,
  verify_auth_token, with_secret, verify_bearer, lower_eq, after_char, partition_space,
  verify_authorization_header, token_algorithm, token_type,
}

>>=-eq-granted :
    {A B : Type 0} (m : Verdict A) (f : A → Verdict B) {b : B}
    → (m >>= f) ≡ granted b
    → (a : A) × (m ≡ granted a) × (f a ≡ granted b)
>>=-eq-granted (granted a) f h = (a, refl, h)
>>=-eq-granted (auth_error e) f h = cc
>>=-eq-granted configuration_error f h = cc
>>=-eq-granted other_error f h = cc

granted_inj : {A : Type 0} (a b : A) → granted a ≡ granted b → a ≡ b
granted_inj a b h = cc h

-- The claims of a payload, as an access context states them.
pub record Claims (now : ℕ) (payload : Fields) (access : AccessContext) : Type 0 where
  pub subject : required_string payload "sub" ≡ granted access.subject
  pub kind : kind_of (get "kind" payload) ≡ granted access.kind
  pub expires_at : ℤ
  pub expiry : expiry_of (get "exp" payload) ≡ granted expires_at
  pub not_over : is_over now expires_at ≡ false
  pub projects : project_roles (get "projects" payload) ≡ granted access.projects
  pub service_roles : service_roles_of (get "serviceRoles" payload) ≡ granted access.service_roles

check_expiry-not_over :
    (now : ℕ) (z : ℤ) (u : Unit {0}) → check_expiry now z ≡ granted u → is_over now z ≡ false
unfolding check_expiry
check_expiry-not_over now z u h = elim (Bool-cases (is_over now z)) [
  | inl e ↦ cc (rw e at h)
  | inr e ↦ e
]

access_of-Claims :
    (now : ℕ) (payload : Fields) (access : AccessContext)
    → access_of now payload ≡ granted access
    → Claims now payload access
unfolding access_of
access_of-Claims now payload access h =
    let (subject, a, h1) = >>=-eq-granted (required_string payload "sub") _ h in
    let (kind, b, h2) = >>=-eq-granted (kind_of (get "kind" payload)) _ h1 in
    let (expires_at, c, h3) = >>=-eq-granted (expiry_of (get "exp" payload)) _ h2 in
    let (u, d, h4) = >>=-eq-granted (check_expiry now expires_at) _ h3 in
    let (projects, e, h5) = >>=-eq-granted (project_roles (get "projects" payload)) _ h4 in
    let (service_roles, f, h6) =
      >>=-eq-granted (service_roles_of (get "serviceRoles" payload)) _ h5 in
    let same = granted_inj _ access h6 in
    record {
      subject = a ∙ ap (λ (x : AccessContext). granted x.subject) same;
      kind = b ∙ ap (λ (x : AccessContext). granted x.kind) same;
      expires_at = expires_at;
      expiry = c;
      not_over = check_expiry-not_over now expires_at u d;
      projects = e ∙ ap (λ (x : AccessContext). granted x.projects) same;
      service_roles = f ∙ ap (λ (x : AccessContext). granted x.service_roles) same;
    }

-- A token that was signed with the secret, over a header and a payload that can be read.
pub record IsSigned (c : Codec) (secret : String) (now : ℕ) (token : String)
    (access : AccessContext) : Type 0 where
  pub header_b64 : String
  pub payload_b64 : String
  pub spelled :
      token
      ≡ text_append header_b64 (
          String.◌∷◌ "." (
            text_append payload_b64 (
              String.◌∷◌ "."
                (signature c secret (text_append header_b64 (String.◌∷◌ "." payload_b64))))))
  pub header : Fields
  pub header_read : decode_json_object c header_b64 ≡ some header
  pub algorithm : is_text (get "alg" header) token_algorithm ≡ true
  pub payload : Fields
  pub payload_read : decode_json_object c payload_b64 ≡ some payload
  pub claims : Claims now payload access

pub required_object-eq :
    (o : Option Fields) (label : String) (fs : Fields)
    → required_object o label ≡ granted fs
    → o ≡ some fs
unfolding required_object
required_object-eq none label fs h = cc
required_object-eq (some gs) label fs h = cc h

check_header-algorithm :
    (header : Fields) (u : Unit {0})
    → check_header header ≡ granted u
    → is_text (get "alg" header) token_algorithm ≡ true
unfolding check_header
check_header-algorithm header u h =
    elim (Bool-cases
      (is_text (get "alg" header) token_algorithm && is_text (get "typ" header) token_type)) [
        | inl e ↦ ground (arith, e)
        | inr e ↦ cc (rw e at h)
      ]

verify_parts-IsSigned :
    (c : Codec) (secret : String) (now : ℕ) (h p s token : String) (access : AccessContext)
    → token ≡ text_append h (String.◌∷◌ "." (text_append p (String.◌∷◌ "." s)))
    → verify_parts c secret now h p s ≡ granted access
    → IsSigned c secret now token access
unfolding verify_parts decode_parts
verify_parts-IsSigned c secret now h p s token access spelled e =
    let input = text_append h (String.◌∷◌ "." p) in
    elim (Bool-cases (not (is_ascii input && is_ascii s))) [
      | inl bad ↦ cc (rw bad at e)
      | inr ok ↦
          let e1 = rw ok at e in
          elim (Bool-cases (str_eq s (signature c secret input))) [
            | inr wrong ↦ cc (rw wrong at e1)
            | inl right ↦
                let e2 = rw right at e1 in
                let same : s ≡ signature c secret input =
                  (eq_iff s (signature c secret input)).0 right in
                let (header, a, e3) = >>=-eq-granted _ _ e2 in
                let (payload, b, e4) = >>=-eq-granted _ _ e3 in
                let (u, d, e5) = >>=-eq-granted _ _ e4 in
                record {
                  header_b64 = h;
                  payload_b64 = p;
                  spelled =
                      spelled
                      ∙ ap (λ t. text_append h (String.◌∷◌ "." (text_append p (String.◌∷◌ "." t))))
                          same;
                  header = header;
                  header_read = required_object-eq _ _ header a;
                  algorithm = check_header-algorithm header u d;
                  payload = payload;
                  payload_read = required_object-eq _ _ payload b;
                  claims = access_of-Claims now payload access e5;
                }
          ]
    ]

verify_split-IsSigned :
    (c : Codec) (secret : String) (now : ℕ) (parts : List String) (token : String)
    (access : AccessContext)
    → token ≡ join "." parts
    → verify_split c secret now parts ≡ granted access
    → IsSigned c secret now token access
unfolding verify_split join
verify_split-IsSigned c secret now (h ∷ p ∷ s ∷ []) token access spelled e =
    elim (Bool-cases (is_blank h || is_blank p || is_blank s)) [
      | inl bad ↦ cc (rw bad at e)
      | inr ok ↦ verify_parts-IsSigned c secret now h p s token access spelled (rw ok at e)
    ]
verify_split-IsSigned c secret now [] token access spelled e = cc
verify_split-IsSigned c secret now (_ ∷ []) token access spelled e = cc
verify_split-IsSigned c secret now (_ ∷ _ ∷ []) token access spelled e = cc
verify_split-IsSigned c secret now (_ ∷ _ ∷ _ ∷ _ ∷ _) token access spelled e = cc

-- A token that `verify_auth_token` accepts is a header and a payload with their own signature under
-- the secret; both can be read, the header names the algorithm, the claims of the payload are those
-- that are granted, and the token has not expired.
verify_auth_token-IsSigned :
    (c : Codec) (secret : String) (now : ℕ) (token : String) (access : AccessContext)
    → verify_auth_token c secret now token ≡ granted access
    → IsSigned c secret now token access
unfolding verify_auth_token
verify_auth_token-IsSigned c secret now token access e =
    verify_split-IsSigned c secret now (split "." token) token access (sym (join-split "." token)) e

after_char-eq :
    (c : Char) (p : String × Bool × String) (scheme rest : String)
    → after_char c p ≡ (scheme, true, rest)
    → (start : String) × (p ≡ (start, true, rest)) × (scheme ≡ String.◌∷◌ c start)
after_char-eq c (start, found, s) scheme rest h = (start, cc h, cc h)

-- A text up to its first space, and what follows that.
partition_space-spelled :
    (s scheme rest : String)
    → partition_space s ≡ (scheme, true, rest)
    → s ≡ text_append scheme (String.◌∷◌ " " rest)
unfolding partition_space
partition_space-spelled String.[] scheme rest h = cc h
partition_space-spelled (String.◌∷◌ c s) scheme rest h = elim (Bool-cases (code c == b' ')) [
  | inl e ↦
      let space : c ≡ " " = Char-path c " " (ground (arith, e)) in
      let parts : ("", true, s) ≡ (scheme, true, rest) = rw e at h in
      let empty : "" ≡ scheme = cc parts in
      let same : s ≡ rest = cc parts in rw (space, sym empty, sym same) (sym (nil-append _))
  | inr e ↦
      let parts : after_char c (partition_space s) ≡ (scheme, true, rest) = rw e at h in
      let (start, more, same) = after_char-eq c (partition_space s) scheme rest parts in
      rw same (
        ap (λ t. String.◌∷◌ c t) (partition_space-spelled s start rest more)
        ∙ sym (cons-append c start (String.◌∷◌ " " rest)))
]

-- The secret that is set, and the token of the header that was signed with it.
pub record IsConfigured (c : Codec) (configured : Option String) (now : ℕ)
    (authorization : Option String) (access : AccessContext) : Type 0 where
  pub secret : String
  pub is_set : configured ≡ some secret
  pub filled : is_blank secret ≡ false
  pub header : String
  pub is_given : authorization ≡ some header
  pub scheme : String
  pub token : String
  pub spelled : strip header ≡ text_append scheme (String.◌∷◌ " " token)
  pub is_bearer : lower_eq scheme "bearer" ≡ true
  pub signed : IsSigned c secret now (strip token) access

with_secret-eq-granted :
    (configured : Option String) (k : String → Verdict AccessContext) (access : AccessContext)
    → with_secret configured k ≡ granted access
    → (secret : String) × (configured ≡ some secret)
      × (is_blank secret ≡ false)
      × (k secret ≡ granted access)
unfolding with_secret
with_secret-eq-granted none k access h = cc
with_secret-eq-granted (some secret) k access h = elim (Bool-cases (is_blank secret)) [
  | inl e ↦ cc (rw e at h)
  | inr e ↦ (secret, refl, e, rw e at h)
]

verify_bearer-IsConfigured :
    (c : Codec) (configured : Option String) (now : ℕ) (header : String)
    (parts : String × Bool × String) (access : AccessContext)
    → partition_space (strip header) ≡ parts
    → verify_bearer c configured now parts ≡ granted access
    → IsConfigured c configured now (some header) access
unfolding verify_bearer
verify_bearer-IsConfigured c configured now header (scheme, separator, token) access at h =
    elim (Bool-cases (not (lower_eq scheme "bearer") || not separator || is_blank (strip token))) [
      | inl e ↦ cc (rw e at h)
      | inr e ↦
          let (secret, is_set, filled, accepted) =
            with_secret-eq-granted configured _ access (rw e at h) in
          let found : separator ≡ true = ground (arith, e) in
          record {
            secret = secret;
            is_set = is_set;
            filled = filled;
            header = header;
            is_given = refl;
            scheme = scheme;
            token = token;
            spelled = partition_space-spelled (strip header) scheme token (rw found at at);
            is_bearer = ground (arith, e);
            signed = verify_auth_token-IsSigned c secret now (strip token) access accepted;
          }
    ]

-- When `verify_authorization_header` grants access, the header is `Bearer`, in any case, and a token,
-- and a secret that is not empty is configured. The token is a header and a payload with their own
-- signature under that secret: both can be read, the header names the algorithm, the claims of the
-- payload are those that are granted, and the token has not expired.
pub verify_authorization_header-IsConfigured :
    (c : Codec) (configured : Option String) (now : ℕ) (authorization : Option String)
    (access : AccessContext)
    → verify_authorization_header c configured now authorization ≡ granted access
    → IsConfigured c configured now authorization access
unfolding verify_authorization_header
verify_authorization_header-IsConfigured c configured now none access h = cc
verify_authorization_header-IsConfigured c configured now (some authorization) access h =
    elim (Bool-cases (is_blank (strip authorization))) [
      | inl e ↦ cc (rw e at h)
      | inr e ↦
          verify_bearer-IsConfigured c configured now authorization
            (partition_space (strip authorization)) access refl (rw e at h)
    ]

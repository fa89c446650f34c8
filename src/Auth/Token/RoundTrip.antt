-- ===== src/Auth/Token/RoundTrip.antt =====
-- A token of `create_auth_token`, read by `verify_auth_token`.
pub mod Claims
use Prim.Native.String.{count}
use text.Mathlib.TextLemmas.{cons-append, nil-append, append_assoc}
use ai_jsunpack.Prelude.{
  ℕ, ◌≡◌, refl, sym, ◌∙◌, ap, String, text_append, Bool, true, false, not, ◌&&◌, ◌||◌, Option, none,
  some, List, [], ◌∷◌, if◌then◌else◌, str_eq, str_eq_refl, strip, arith, eq_iff, Bool-cases, inl,
  inr, leb,
}
use ai_jsunpack.Prelude.Parts.{split, split-append, split-Lacks}
use ai_jsunpack.Json.{obj, Fields}
use ai_jsunpack.Auth.Roles.{AccessContext, Projects, role_in, ProjectRole}
use ai_jsunpack.Auth.Codec.{
  Codec, IsBase64, IsReadBack, sort_fields, base64url_encode, base64url_json, decode_json_object,
  is_ascii,
}
use ai_jsunpack.Auth.Token.{
  Verdict, granted, signature, required_object, check_header, decode_parts, verify_parts, is_blank,
  verify_split, verify_auth_token, access_of, header_fields, payload_of, create_auth_token,
}
use ai_jsunpack.Auth.Token.Encoding.{
  IsBase64-ascii, IsBase64-Lacks, base64url_encode-IsBase64, decode_json_object-base64url_json,
}
use ai_jsunpack.Auth.Token.RoundTrip.Claims.{
  role_in-sort_projects, sorted_access, IsPresentable, access_of-sorted,
}

-- The same subject, kind and service roles, and the same role in every project.
pub record IsSameAccess (a b : AccessContext) : Type 0 where
  pub subject : a.subject ≡ b.subject
  pub kind : a.kind ≡ b.kind
  pub service_roles : a.service_roles ≡ b.service_roles
  pub role : (project : String) → role_in project a.projects ≡ role_in project b.projects

is_ascii-append :
    (s t : String) → is_ascii s ≡ true → is_ascii t ≡ true → is_ascii (text_append s t) ≡ true
is_ascii-append String.[] t h k = rw (nil-append t) k
is_ascii-append (String.◌∷◌ c s) t h k =
    rw (cons-append c s t) (ground (arith, h, is_ascii-append s t (ground (arith, h)) k))

signature-IsBase64 : (c : Codec) (secret input : String) → IsBase64 (signature c secret input)
unfolding signature
signature-IsBase64 c secret input =
    base64url_encode-IsBase64 c (c.hmac_sha256 (c.utf8 secret) (c.utf8 input))

base64url_json-IsBase64 : (c : Codec) (value : Fields) → IsBase64 (base64url_json c value)
unfolding base64url_json
base64url_json-IsBase64 c value =
    base64url_encode-IsBase64 c (c.utf8 (c.dumps (obj (sort_fields value))))

check_header-sorted : check_header (sort_fields header_fields) ≡ granted tt
unfolding check_header sort_fields
check_header-sorted = refl

is_ascii_input :
    (h p : String) → IsBase64 h → IsBase64 p → is_ascii (text_append h (String.◌∷◌ "." p)) ≡ true
is_ascii_input h p a b =
    is_ascii-append h (String.◌∷◌ "." p) (IsBase64-ascii h a) (ground (arith, IsBase64-ascii p b))

split-three :
    (h p s : String)
    → IsBase64 h
    → IsBase64 p
    → IsBase64 s
    → split "." (text_append (text_append h (String.◌∷◌ "." p)) (String.◌∷◌ "." s)) ≡ h ∷ p ∷ s ∷ []
split-three h p s a b d =
    rw (append_assoc h (String.◌∷◌ "." p) (String.◌∷◌ "." s), cons-append "." p (String.◌∷◌ "." s))
      (rw (split-append "." h (text_append p (String.◌∷◌ "." s)) (IsBase64-Lacks h a)) (
        rw (split-append "." p s (IsBase64-Lacks p b))
          (rw (split-Lacks "." s (IsBase64-Lacks s d)) refl)))

module _ (c : Codec) (secret : String) (now : ℕ) (header payload : String) where
  abbrev input : String
  input = text_append header (String.◌∷◌ "." payload)

  verify_split-signed :
      IsBase64 header
      → IsBase64 payload
      → is_blank header ≡ false
      → is_blank payload ≡ false
      → is_blank (signature c secret input) ≡ false
      → verify_split c secret now (header ∷ payload ∷ signature c secret input ∷ [])
        ≡ decode_parts c now header payload
  unfolding verify_split verify_parts
  verify_split-signed h p full_h full_p full_s =
      let ascii_s : is_ascii (signature c secret input) ≡ true =
        IsBase64-ascii (signature c secret input) (signature-IsBase64 c secret input) in
      rw (full_h, full_p, full_s)
        (rw (is_ascii_input header payload h p, ascii_s)
          (rw (str_eq_refl (signature c secret input)) refl))

-- The codec writes something for the header, the payload and the signature, and reads the first two
-- back.
pub record IsReadable (c : Codec) (secret : String) (access : AccessContext) (expires_at : ℕ)
    : Type 0 where
  pub header : IsReadBack c (obj (sort_fields header_fields))
  pub payload : IsReadBack c (obj (sort_fields (payload_of access expires_at)))
  pub filled_header : is_blank (base64url_json c header_fields) ≡ false
  pub filled_payload : is_blank (base64url_json c (payload_of access expires_at)) ≡ false
  pub filled_signature : (input : String) → is_blank (signature c secret input) ≡ false

-- A token that was created for an access context, whose subject and project names are not blank and
-- whose service roles are not empty, is granted before it expires, and what it grants has the
-- subject, kind and service roles of that context and its role in every project.
pub verify_auth_token-create_auth_token :
    (c : Codec) (secret : String) (now expires_at : ℕ) (access : AccessContext)
    → IsReadable c secret access expires_at
    → IsPresentable now expires_at access
    → (seen : AccessContext) × (verify_auth_token c secret now
          (create_auth_token c secret access expires_at)
        ≡ granted seen)
      × IsSameAccess seen access
unfolding verify_auth_token create_auth_token decode_parts required_object
verify_auth_token-create_auth_token c secret now expires_at access readable p =
    let h = base64url_json c header_fields in
    let b = base64url_json c (payload_of access expires_at) in
    let is_h = base64url_json-IsBase64 c header_fields in
    let is_b = base64url_json-IsBase64 c (payload_of access expires_at) in
    let input = text_append h (String.◌∷◌ "." b) in
    let s = signature c secret input in
    (
      sorted_access access,
      ap (verify_split c secret now)
            (split-three h b s is_h is_b (signature-IsBase64 c secret input))
          ∙ verify_split-signed c secret now h b is_h is_b readable.filled_header
              readable.filled_payload (readable.filled_signature input)
          ∙ rw
              (
                decode_json_object-base64url_json c header_fields readable.header,
                decode_json_object-base64url_json c (payload_of access expires_at) readable.payload,
                check_header-sorted,
              )
              (access_of-sorted now expires_at access p),
      record {
        subject = refl;
        kind = refl;
        service_roles = refl;
        role = λ project. role_in-sort_projects project access.projects;
      },
    )

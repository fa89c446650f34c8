-- ===== src/Auth/Tests.antt =====
-- Tokens of one user, in a codec that knows the texts of one token.
use ai_jsunpack.Prelude.{
  ℕ, ◌≡◌, ◌⊎◌, refl, false, String, Option, none, some, List, [], ◌∷◌, if◌then◌else◌, str_eq, strip,
  arith,
}
use ai_jsunpack.Json.{Json, obj, get}
use ai_jsunpack.Auth.Roles.{viewer, owner, user, AccessContext}
use ai_jsunpack.Auth.Codec.{
  Codec, Padded, sort_fields, rstrip_pads, missing_pads, pads, base64url_encode, base64url_json,
  decode_json_object, is_ascii,
}
use ai_jsunpack.Auth.Token.{
  granted, other_error, header_fields, payload_of, create_auth_token, verify_auth_token,
  verify_authorization_header, signature,
}
use ai_jsunpack.Auth.Token.Accepts.{IsConfigured, verify_authorization_header-IsConfigured}
use ai_jsunpack.Auth.Token.Errors.{HasUnhashableRole, verify_auth_token-other_error}
use ai_jsunpack.Auth.Token.RoundTrip.{IsReadable, IsSameAccess, verify_auth_token-create_auth_token}
use ai_jsunpack.Auth.Token.RoundTrip.Claims.{IsPresentable, sort_projects, sorted_access}

abbrev lin : AccessContext
lin = record {
  subject = "lin";
  kind = user;
  projects = ("web", owner) ∷ ("api", viewer) ∷ [];
  service_roles = "worker" ∷ [];
}

abbrev sorted_header : Json
sorted_header = obj (sort_fields header_fields)

abbrev sorted_payload : Json
sorted_payload = obj (sort_fields (payload_of lin 900))

abbrev text_bytes : String → List ℕ
text_bytes s = if str_eq s "H" then [] else if str_eq s "P" then 1 ∷ [] else 1 ∷ 1 ∷ []

abbrev encoded : List ℕ → String
encoded [] = "AAA="
encoded (_ ∷ []) = "BB=="
encoded _ = "CCCC"

abbrev decoded : String → Option (List ℕ)
decoded s = if str_eq s "AAA=" then some [] else if str_eq s "BB==" then some (1 ∷ []) else none

abbrev dumped : Json → String
dumped (obj fs) = elim (get "alg" fs) [ some _ ↦ "H" | none ↦ "P" ]
dumped _ = ""

abbrev loaded : List ℕ → Option Json
loaded [] = some sorted_header
loaded (_ ∷ []) = some sorted_payload
loaded _ = none

encoded-Padded : (b : List ℕ) → Padded (encoded b)
unfolding pads
encoded-Padded [] = record {
  body = "AAA";
  padding = 1;
  spelled = refl;
  alphabet = (refl, (refl, (refl, tt)));
  full = refl;
  short = omega arith;
}
encoded-Padded (_ ∷ []) = record {
  body = "BB";
  padding = 2;
  spelled = refl;
  alphabet = (refl, (refl, tt));
  full = refl;
  short = omega arith;
}
encoded-Padded (_ ∷ _ ∷ _) = record {
  body = "CCCC";
  padding = 0;
  spelled = refl;
  alphabet = (refl, (refl, (refl, (refl, tt))));
  full = refl;
  short = omega arith;
}

abbrev codec : Codec
codec = record {
  utf8 = text_bytes;
  hmac_sha256 = λ key message. 1 ∷ 1 ∷ [];
  urlsafe_b64encode = encoded;
  urlsafe_b64decode = decoded;
  dumps = dumped;
  loads = loaded;
  encode_padded = encoded-Padded;
}

lin-IsReadable : IsReadable codec "secret" lin 900
unfolding sort_fields payload_of get rstrip_pads base64url_json base64url_encode signature
lin-IsReadable = record {
  header = refl;
  payload = refl;
  filled_header = refl;
  filled_payload = refl;
  filled_signature = λ input. refl;
}

lin-IsPresentable : IsPresentable 899 900 lin
unfolding strip
lin-IsPresentable = record {
  subject = refl;
  projects = (refl, (refl, tt));
  service_roles = (refl, tt);
  early = refl;
}

create_auth_token-lin : create_auth_token codec "secret" lin 900 ≡ "AAA.BB.CCCC"
unfolding create_auth_token base64url_json base64url_encode signature payload_of get sort_fields
    rstrip_pads
create_auth_token-lin = refl

verify_auth_token-create_auth_token_example :
    (seen : AccessContext) × (verify_auth_token codec "secret" 899
        (create_auth_token codec "secret" lin 900)
      ≡ granted seen)
    × IsSameAccess seen lin
verify_auth_token-create_auth_token_example =
    verify_auth_token-create_auth_token codec "secret" 899 900 lin lin-IsReadable lin-IsPresentable

lin-granted :
    verify_authorization_header codec (some "secret") 899 (some "Bearer AAA.BB.CCCC")
    ≡ granted (sorted_access lin)
unfolding verify_authorization_header verify_auth_token decode_json_object missing_pads pads
    payload_of sort_fields base64url_encode rstrip_pads strip sort_projects
lin-granted = refl

verify_authorization_header-IsConfigured_example :
    IsConfigured codec (some "secret") 899 (some "Bearer AAA.BB.CCCC") (sorted_access lin)
verify_authorization_header-IsConfigured_example =
    verify_authorization_header-IsConfigured codec (some "secret") 899 (some "Bearer AAA.BB.CCCC")
      (sorted_access lin) lin-granted

beyond_ascii-other_error : verify_auth_token codec "secret" 0 "é.b.c" ≡ other_error
unfolding verify_auth_token
beyond_ascii-other_error = refl

verify_auth_token-other_error_example :
    (is_ascii "é.b.c" ≡ false) ⊎ HasUnhashableRole codec "secret" "é.b.c"
verify_auth_token-other_error_example =
    verify_auth_token-other_error codec "secret" 0 "é.b.c" beyond_ascii-other_error

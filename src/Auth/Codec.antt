-- ===== src/Auth/Codec.antt =====
-- What apps/api/app/auth.py uses of Python's `json`, `base64` and `hmac`, and its encoding of bytes
-- as text.
use Prim.Native.Char.{Char, code}
use Prim.Native.String.{count, compare}
use ai_jsunpack.Prelude.{
  ℕ, zero, suc, ◌+◌, ◌-◌, ◌≡◌, ◌≤◌, String, text_append, Bool, true, false, ◌&&◌, ◌||◌, ◌==◌,
  Option, none, some, List, if◌then◌else◌, leb, str_eq,
}
use Prim.Native.Nat.{◌%◌, Ordering}
use ai_jsunpack.Json.{Json, obj, arr, Items, nil, cons, Fields, end, field}

-- `"=" * n`
unfoldable pub pads : ℕ → String
pads zero = ""
pads (suc n) = String.◌∷◌ "=" (pads n)

-- `text.rstrip("=")`
unfoldable pub rstrip_pads : String → String
rstrip_pads String.[] = ""
rstrip_pads (String.◌∷◌ c s) =
    let rest = rstrip_pads s in if str_eq rest "" && (code c == b'=') then "" else String.◌∷◌ c rest

-- `(4 - len(value) % 4) % 4`
unfoldable pub missing_pads : ℕ → ℕ
missing_pads n = (4 - n % 4) % 4

-- The order of Python's `sorted` on texts.
abbrev pub key_le : String → String → Bool
key_le a b = elim (compare a b) [ Ordering.gt ↦ false | _ ↦ true ]

unfoldable pub insert_key : String → Json → Fields → Fields
insert_key k v end = field k v end
insert_key k v (field j w rest) =
    let more = insert_key k v rest in
    if key_le k j then field k v (field j w rest) else field j w more

-- What `json.dumps(..., sort_keys=True)` does to the keys of every dict.
unfoldable mutual
  unfolding insert_key

  pub sort_json : Json → Json
  sort_json (obj fs) = obj (sort_fields fs)
  sort_json (arr is) = arr (sort_items is)
  sort_json j = j

  pub sort_items : Items → Items
  sort_items nil = nil
  sort_items (cons j rest) = cons (sort_json j) (sort_items rest)

  pub sort_fields : Fields → Fields
  sort_fields end = end
  sort_fields (field k v rest) = insert_key k (sort_json v) (sort_fields rest)

-- A character of the URL-safe base64 alphabet, without the padding.
abbrev pub is_base64 : Char → Bool
is_base64 c =
    (leb b'A' (code c) && leb (code c) b'Z')
    || (leb b'a' (code c) && leb (code c) b'z')
    || (leb b'0' (code c) && leb (code c) b'9')
    || (code c == b'-')
    || (code c == b'_')

abbrev pub IsBase64 : String → Type 0
IsBase64 String.[] = Unit
IsBase64 (String.◌∷◌ c s) = (is_base64 c ≡ true) × IsBase64 s

-- A base64 text: characters of the alphabet, and then padding up to a multiple of four.
pub record Padded (text : String) : Type 0 where
  pub body : String
  pub padding : ℕ
  pub spelled : text ≡ text_append body (pads padding)
  pub alphabet : IsBase64 body
  pub full : (count body + padding) % 4 ≡ 0
  pub short : padding ≤ 3

-- The library functions. An encoded text is a base64 text.
pub record Codec : Type 0 where
  pub utf8 : String → List ℕ
  pub hmac_sha256 : List ℕ → List ℕ → List ℕ
  pub urlsafe_b64encode : List ℕ → String
  pub urlsafe_b64decode : String → Option (List ℕ)
  pub dumps : Json → String  -- with separators=(",", ":") and no sorting
  pub loads : List ℕ → Option Json
  pub encode_padded : (b : List ℕ) → Padded (urlsafe_b64encode b)

-- `_base64url_encode`
unfoldable pub base64url_encode : Codec → List ℕ → String
unfolding rstrip_pads
base64url_encode c bytes = rstrip_pads (c.urlsafe_b64encode bytes)

-- `_base64url_json`
unfoldable pub base64url_json : Codec → Fields → String
unfolding base64url_encode sort_json
base64url_json c value = base64url_encode c (c.utf8 (c.dumps (sort_json (obj value))))

-- `isascii`, which `encode("ascii")` and `compare_digest` want of a text
abbrev pub is_ascii : String → Bool
is_ascii String.[] = true
is_ascii (String.◌∷◌ c s) = leb (code c) 127 && is_ascii s

abbrev pub dict_of : Option Json → Option Fields
dict_of (some (obj fs)) = some fs
dict_of _ = none

abbrev pub bind_option {ℓ} : {A B : Type ℓ} → Option A → (A → Option B) → Option B
bind_option none f = none
bind_option (some a) f = f a

-- Parsing what was dumped, encoded and decoded gives the value back.
abbrev pub IsReadBack : Codec → Json → Type 0
IsReadBack c j =
    bind_option (c.urlsafe_b64decode (c.urlsafe_b64encode (c.utf8 (c.dumps j)))) c.loads ≡ some j

-- `_decode_json_object`; `none` is an AuthError.
unfoldable pub decode_json_object : Codec → String → Option Fields
unfolding missing_pads pads
decode_json_object c value =
    if is_ascii value
    then dict_of (
        bind_option (c.urlsafe_b64decode (text_append value (pads (missing_pads (count value)))))
          c.loads)
    else none

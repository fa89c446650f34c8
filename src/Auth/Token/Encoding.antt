-- ===== src/Auth/Token/Encoding.antt =====
-- Base64 texts without their padding: what is stripped is put back, and no part holds a point.
use Prim.Native.Char.{code}
use Prim.Native.String.{count}
use Prim.Native.Nat.{◌%◌}
use text.Mathlib.TextLemmas.{cons-append, nil-append}
use ai_jsunpack.Prelude.{
  ℕ, zero, suc, ◌+◌, ◌≡◌, ◌≤◌, refl, sym, ◌∙◌, ap, String, text_append, Bool, true, false, ◌&&◌,
  ◌==◌, some, List, if◌then◌else◌, str_eq, arith,
}
use mathlib.Core.Path.{subst}
use ai_jsunpack.Prelude.Parts.{Lacks}
use ai_jsunpack.Json.{obj, Fields}
use ai_jsunpack.Auth.Codec.{
  pads, rstrip_pads, missing_pads, sort_fields, IsReadBack, dict_of, IsBase64, Padded, Codec,
  base64url_encode, base64url_json, is_ascii, decode_json_object,
}

rstrip_pads-pads : (n : ℕ) → rstrip_pads (pads n) ≡ ""
unfolding rstrip_pads pads
rstrip_pads-pads zero = refl
rstrip_pads-pads (suc n) = rw (rstrip_pads-pads n) refl

drop_false : {A : Type 0} (p q : Bool) (x y : A) → q ≡ false → (if p && q then x else y) ≡ y
drop_false p q x y h = ground (arith, h)

rstrip_pads-append :
    (body : String) (n : ℕ) → IsBase64 body → rstrip_pads (text_append body (pads n)) ≡ body
unfolding rstrip_pads
rstrip_pads-append String.[] n h = rw (nil-append (pads n)) (rstrip_pads-pads n)
rstrip_pads-append (String.◌∷◌ c s) n h = rw (cons-append c s (pads n)) (
    rw (rstrip_pads-append s n h.1)
      (drop_false (str_eq s "") (code c == b'=') "" (String.◌∷◌ c s) not_pad))
  where
    not_pad : (code c == b'=') ≡ false
    not_pad = ground (arith, h.0)

missing_pads_lem : (body n : ℕ) → (body + n) % 4 ≡ 0 → n ≤ 3 → missing_pads body ≡ n
unfolding missing_pads
missing_pads_lem body n full short = omega arith

-- The padding that `_base64url_encode` strips, `_decode_json_object` puts back.
pub repadded :
    (text : String)
    → Padded text
    → text_append (rstrip_pads text) (pads (missing_pads (count (rstrip_pads text)))) ≡ text
repadded text p =
    let stripped : rstrip_pads text ≡ p.body =
      ap rstrip_pads p.spelled ∙ rstrip_pads-append p.body p.padding p.alphabet in
    rw stripped (
      ap (λ n. text_append p.body (pads n))
        (missing_pads_lem (count p.body) p.padding p.full p.short)
      ∙ sym p.spelled)

pub IsBase64-ascii : (s : String) → IsBase64 s → is_ascii s ≡ true
IsBase64-ascii String.[] h = refl
IsBase64-ascii (String.◌∷◌ c s) h = ground (arith, h.0, IsBase64-ascii s h.1)

pub IsBase64-Lacks : (s : String) → IsBase64 s → Lacks "." s
IsBase64-Lacks String.[] h = tt
IsBase64-Lacks (String.◌∷◌ c s) h = (ground (arith, h.0), IsBase64-Lacks s h.1)

pub base64url_encode-IsBase64 : (c : Codec) (b : List ℕ) → IsBase64 (base64url_encode c b)
unfolding base64url_encode
base64url_encode-IsBase64 c b =
    let p = c.encode_padded b in
    subst IsBase64 (sym (ap rstrip_pads p.spelled ∙ rstrip_pads-append p.body p.padding p.alphabet))
      p.alphabet

-- `_decode_json_object` reads what `_base64url_json` wrote.
pub decode_json_object-base64url_json :
    (c : Codec) (value : Fields)
    → IsReadBack c (obj (sort_fields value))
    → decode_json_object c (base64url_json c value) ≡ some (sort_fields value)
unfolding decode_json_object base64url_json base64url_encode
decode_json_object-base64url_json c value h =
    let b = c.utf8 (c.dumps (obj (sort_fields value))) in
    let ascii : is_ascii (base64url_encode c b) ≡ true =
      IsBase64-ascii (base64url_encode c b) (base64url_encode-IsBase64 c b) in
    rw ascii (rw (repadded (c.urlsafe_b64encode b) (c.encode_padded b)) (ap dict_of h))

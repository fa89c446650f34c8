-- ===== src/Api/Paths/Safe.antt =====
-- The paths that an upload of a directory accepts, and the limits of what it reads.
use Prim.Native.Char.{code}
use ai_jsunpack.Prelude.{
  ℕ, zero, suc, ◌+◌, ◌≡◌, ◌≤◌, refl, sym, ◌∙◌, ap, String, false, ◌||◌, ◌==◌, List, [], ◌∷◌, ltb,
  length, All, Bool-cases, inl, inr, arith,
}
use ai_jsunpack.Prelude.Parts.{split, join, join-split}
use ai_jsunpack.Api.Guards.{Reply, reply, http_exception, bind_reply}
use ai_jsunpack.Api.Paths.{
  with_slashes, has_char, is_invalid_path, any_bad_part, has_drive, path_of,
  normalize_directory_upload_path, read_bytes, read_files,
}

bind_reply-reply :
    {A B : Type 0} (m : Reply A) (f : A → Reply B) {b : B}
    → bind_reply m f ≡ reply b
    → (a : A) × (m ≡ reply a) × (f a ≡ reply b)
unfolding bind_reply
bind_reply-reply (reply a) f h = (a, refl, h)
bind_reply-reply (http_exception code) f h = cc

reply_inj : {A : Type 0} (a b : A) → reply a ≡ reply b → a ≡ b
reply_inj a b h = cc h

-- A path below the folder that is uploaded
pub record IsSafe (path : String) : Type 0 where
  pub valid : is_invalid_path path ≡ false
  pub slashes : has_char 92 path ≡ false
  pub parts : any_bad_part (split "/" path) ≡ false
  pub drive : has_drive (split "/" path) ≡ false

has_char-with_slashes : (s : String) → has_char 92 (with_slashes s) ≡ false
unfolding has_char with_slashes
has_char-with_slashes String.[] = refl
has_char-with_slashes (String.◌∷◌ c s) = elim (Bool-cases (code c == 92)) [
  | inl e ↦ rw e (has_char-with_slashes s)
  | inr e ↦ rw (e, e) (has_char-with_slashes s)
]

with_slashes-has_char : (s : String) → has_char 92 s ≡ false → with_slashes s ≡ s
unfolding has_char with_slashes
with_slashes-has_char String.[] h = refl
with_slashes-has_char (String.◌∷◌ c s) h =
    let other : (code c == 92) ≡ false = ground (arith, h) in
    rw other (ap (λ t. String.◌∷◌ c t) (with_slashes-has_char s (ground (arith, h))))

path_of-reply :
    (parts : List String) (path : String)
    → path_of parts ≡ reply path
    → (any_bad_part parts ≡ false) × (has_drive parts ≡ false) × (path ≡ join "/" parts)
unfolding path_of
path_of-reply parts path h = elim (Bool-cases (any_bad_part parts || has_drive parts)) [
  | inl e ↦ cc (rw e at h)
  | inr e ↦ (ground (arith, e), ground (arith, e), sym (reply_inj _ path (rw e at h)))
]

normalize-with_slashes :
    (value path : String)
    → normalize_directory_upload_path value ≡ reply path
    → IsSafe path × (path ≡ with_slashes value)
unfolding normalize_directory_upload_path
normalize-with_slashes value path h = elim (Bool-cases (is_invalid_path (with_slashes value))) [
  | inl e ↦ cc (rw e at h)
  | inr e ↦
      let (parts, drive, same) = path_of-reply (split "/" (with_slashes value)) path (rw e at h) in
      let whole : path ≡ with_slashes value = same ∙ join-split "/" (with_slashes value) in
      rw whole (
        record { valid = e; slashes = has_char-with_slashes value; parts = parts; drive = drive },
        refl,
      )
]

IsSafe-normalize : (path : String) → IsSafe path → normalize_directory_upload_path path ≡ reply path
unfolding normalize_directory_upload_path path_of
IsSafe-normalize path safe =
    rw (with_slashes-has_char path safe.slashes)
      (rw (safe.valid, safe.parts, safe.drive) (ap reply (join-split "/" path)))

-- A path that an upload of a directory accepts is the given one with slashes for backslashes; it is
-- not absolute, has at most 1,024 characters, no backslash and no drive, no empty part and no part
-- of dots; and it is accepted again as it is.
pub normalize_directory_upload_path-IsSafe :
    (value path : String)
    → normalize_directory_upload_path value ≡ reply path
    → IsSafe path
      × (path ≡ with_slashes value)
      × (normalize_directory_upload_path path ≡ reply path)
normalize_directory_upload_path-IsSafe value path h =
    let (safe, same) = normalize-with_slashes value path h in
    (safe, same, IsSafe-normalize path safe)

length-read_bytes :
    (n : ℕ) (file : List ℕ) → length (read_bytes (suc n) file) ≤ n → read_bytes (suc n) file ≡ file
unfolding read_bytes
length-read_bytes n [] h = refl
length-read_bytes zero (b ∷ rest) h = absurd (omega (arith, h))
length-read_bytes (suc n) (b ∷ rest) h =
    ap (λ more. b ∷ more) (length-read_bytes n rest (omega (arith, h)))

unfoldable pub total_length : List (List ℕ) → ℕ
total_length [] = 0
total_length (f ∷ rest) = length f + total_length rest

read_files-whole :
    (per total size : ℕ) (files contents : List (List ℕ))
    → read_files per total size files ≡ reply contents
    → size ≤ total
    → (contents ≡ files) × (size + total_length files ≤ total) × All (λ f. length f ≤ per) files
unfolding read_files total_length
read_files-whole per total size [] contents h below =
    (sym (reply_inj _ contents h), omega (arith, below), tt)
read_files-whole per total size (file ∷ rest) contents h below =
    let content = read_bytes (suc per) file in
    elim (Bool-cases (ltb per (length content))) [
      | inl e ↦ cc (rw e at h)
      | inr e ↦ elim (Bool-cases (ltb total (size + length content))) [
        | inl k ↦ cc (rw (e, k) at h)
        | inr k ↦
            let same : content ≡ file = length-read_bytes per file (ground (arith, e)) in
            let sized : length content ≡ length file = ap length same in
            let (more, ended, last) = bind_reply-reply _ _ (rw (e, k) at h) in
            let (whole, limit, each) =
              read_files-whole per total (size + length content) rest more ended
                (ground (arith, k)) in
            (
              sym (reply_inj _ contents last)
                  ∙ ap (λ f. f ∷ more) same
                  ∙ ap (λ fs. file ∷ fs) whole,
              omega (arith, limit, sized),
              (ground (arith, e, sized), each),
            )
      ]
    ]

-- An upload of a directory that is not refused has read each file whole, none above the limit of a
-- file, and all together not above the limit of the upload.
pub read_files-bounds :
    (per_file_limit total_limit : ℕ) (files contents : List (List ℕ))
    → read_files per_file_limit total_limit 0 files ≡ reply contents
    → (contents ≡ files)
      × (total_length files ≤ total_limit)
      × All (λ f. length f ≤ per_file_limit) files
read_files-bounds per_file_limit total_limit files contents h =
    let (whole, total, each) =
      read_files-whole per_file_limit total_limit 0 files contents h (omega arith) in
    (whole, omega (arith, total), each)

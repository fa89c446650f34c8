-- ===== src/Api/Paths.antt =====
-- The names and limits of an upload: `normalize_directory_upload_path`, `inferred_directory_name`,
-- `input_kind_for_upload`, `configured_positive_int` and `read_upload_content` of
-- apps/api/app/main.py.
pub mod Safe
use Prim.Native.Char.{Char, code}
use Prim.Native.String.{count}
use package.text.Mathlib.Text.{starts_with}
use ai_jsunpack.Prelude.{
  ℕ, zero, suc, ◌+◌, max, length, String, text_append, Bool, true, false, not, ◌&&◌, ◌||◌, ◌==◌,
  Option, none, some, List, [], ◌∷◌, if◌then◌else◌, leb, ltb, str_eq, contains, strip,
}
use ai_jsunpack.Prelude.Parts.{split, join}
use ai_jsunpack.Prelude.Sets.{sorted_set}
use ai_jsunpack.Json.{ℤ, pos, negsuc}
use ai_jsunpack.Worker.Pipeline.Config.{IntOfText}
use ai_jsunpack.Api.Guards.{Reply, reply, http_exception, bind_reply}

-- `value.replace("\\", "/")`
unfoldable pub with_slashes : String → String
with_slashes String.[] = ""
with_slashes (String.◌∷◌ c s) = String.◌∷◌ (if code c == 92 then "/" else c) (with_slashes s)

unfoldable pub has_char : ℕ → String → Bool
has_char n String.[] = false
has_char n (String.◌∷◌ c s) = (code c == n) || has_char n s

-- `not raw or raw.startswith("/") or "\x00" in raw or len(raw) > 1024`
unfoldable pub is_invalid_path : String → Bool
unfolding has_char
is_invalid_path raw = str_eq raw "" || starts_with raw "/" || has_char 0 raw || ltb 1024 (count raw)

-- `part in {"", ".", ".."}`
unfoldable pub is_bad_part : String → Bool
is_bad_part part = str_eq part "" || str_eq part "." || str_eq part ".."

unfoldable pub any_bad_part : List String → Bool
unfolding is_bad_part
any_bad_part [] = false
any_bad_part (p ∷ rest) = is_bad_part p || any_bad_part rest

-- `":" in parts[0]`
unfoldable pub has_drive : List String → Bool
unfolding has_char
has_drive [] = false
has_drive (p ∷ rest) = has_char 58 p

-- The path of parts that are neither empty nor dots is their text, and never absolute.
unfoldable pub path_of : List String → Reply String
unfolding any_bad_part has_drive join
path_of parts =
    if any_bad_part parts || has_drive parts then http_exception 400 else reply (join "/" parts)

unfoldable pub normalize_directory_upload_path : String → Reply String
unfolding with_slashes is_invalid_path path_of split
normalize_directory_upload_path value =
    let raw = with_slashes value in
    if is_invalid_path raw then http_exception 400 else path_of (split "/" raw)

-- `path.split("/", 1)[0]`, of a path that has a slash
abbrev first_part : List String → List String
first_part (p ∷ q ∷ rest) = p ∷ []
first_part _ = []

unfoldable pub first_parts : List String → List String
unfolding split
first_parts [] = []
first_parts (path ∷ rest) = elim (first_part (split "/" path)) [
  | [] ↦ first_parts rest
  | p ∷ _ ↦ p ∷ first_parts rest
]

abbrev only : List String → String
only (p ∷ []) = p
only _ = "uploaded-project"

unfoldable pub inferred_directory_name : List String → String
unfolding first_parts sorted_set
inferred_directory_name paths = only (sorted_set (first_parts paths))

abbrev at_least_one : Option ℤ → ℕ → ℕ
at_least_one none default = default
at_least_one (some (pos n)) default = max 1 n
at_least_one (some (negsuc _)) default = 1

-- `configured_positive_int`, of the variable's value
unfoldable pub configured_positive_int : IntOfText → Option String → ℕ → ℕ
unfolding strip
configured_positive_int int none default = default
configured_positive_int int (some raw) default =
    if str_eq (strip raw) "" then default else at_least_one (int raw) default

-- `file.read(n)`
unfoldable pub read_bytes : ℕ → List ℕ → List ℕ
read_bytes zero content = []
read_bytes (suc n) [] = []
read_bytes (suc n) (b ∷ rest) = b ∷ read_bytes n rest

unfoldable pub read_upload_content : ℕ → List ℕ → Reply (List ℕ)
unfolding read_bytes
read_upload_content limit file =
    let content = read_bytes (suc limit) file in
    if ltb limit (length content) then http_exception 413 else reply content

-- The loop of `upload_source_directory` over its files
unfoldable pub read_files : ℕ → ℕ → ℕ → List (List ℕ) → Reply (List (List ℕ))
unfolding read_bytes bind_reply
read_files per_file_limit total_limit total_size [] = reply []
read_files per_file_limit total_limit total_size (file ∷ rest) =
    let content = read_bytes (suc per_file_limit) file in
    if ltb per_file_limit (length content)
    then http_exception 413
    else if ltb total_limit (total_size + length content)
    then http_exception 413
    else bind_reply (read_files per_file_limit total_limit (total_size + length content) rest)
        λ contents. reply (content ∷ contents)

-- `[normalize_directory_upload_path(path) for path in paths]`
unfoldable pub normalize_all : List String → Reply (List String)
unfolding normalize_directory_upload_path bind_reply
normalize_all [] = reply []
normalize_all (path ∷ rest) =
    bind_reply (normalize_directory_upload_path path)
      λ p. bind_reply (normalize_all rest) λ ps. reply (p ∷ ps)

-- `len(set(paths)) == len(paths)`
unfoldable pub are_distinct_paths : List String → Bool
are_distinct_paths [] = true
are_distinct_paths (p ∷ rest) = not (contains p rest) && are_distinct_paths rest

unfoldable pub distinct_paths : List String → Reply (List String)
unfolding are_distinct_paths
distinct_paths paths = if are_distinct_paths paths then reply paths else http_exception 400

-- The checks of `upload_source_directory` before the files are read
unfoldable pub upload_paths : ℕ → ℕ → List String → Reply (List String)
unfolding normalize_all distinct_paths bind_reply
upload_paths max_files files paths =
    if files == 0
    then http_exception 400
    else if ltb max_files files
    then http_exception 413
    else if not (files == length paths)
    then http_exception 400
    else bind_reply (normalize_all paths) distinct_paths

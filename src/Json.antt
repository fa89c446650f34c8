-- ===== src/Json.antt =====
-- JSON values as Python's `json` module and pydantic hand them to the program: job configurations
-- and settings. A float is kept by what `int` makes of it, its integer part;
-- infinity and NaN, of which it makes nothing, are left out.
use ai_jsunpack.Prelude.{ℕ, String, Bool, Option, none, some, str_eq, if◌then◌else◌}

-- `negsuc n` is -(n + 1).
pub data ℤ : Type 0 where
  pos : ℕ → ℤ
  negsuc : ℕ → ℤ

mutual
  pub data Json : Type 0 where
    null : Json
    bool : Bool → Json
    num : ℤ → Json
    real : ℤ → Json
    text : String → Json
    arr : Items → Json
    obj : Fields → Json

  pub data Items : Type 0 where
    nil : Items
    cons : Json → Items → Items

  pub data Fields : Type 0 where
    end : Fields
    field : String → Json → Fields → Fields

-- `d.get(key)` on the fields of a dict
unfoldable pub get : String → Fields → Option Json
get key end = none
get key (field k v rest) = if str_eq key k then some v else get key rest

-- `value if isinstance(value, dict) else {}`
unfoldable pub dict_or_empty : Option Json → Fields
dict_or_empty (some (obj fs)) = fs
dict_or_empty (some _) = end
dict_or_empty none = end

-- `d[key] = value`: a key that is there keeps its place.
unfoldable pub set : String → Json → Fields → Fields
set key value end = field key value end
set key value (field k v rest) =
    if str_eq key k then field k value rest else field k v (set key value rest)

-- ===== src/Store/Datetime.antt =====
-- `parse_timestamp` of apps/api/app/store.py over Python's datetime, which is a parameter.
use Prim.Native.Char.{code}
use Prim.Native.String.{[], ◌∷◌}
use ai_jsunpack.Prelude.{ℕ, ◌<◌, String, ◌≡◌, Bool, false, Option, none, some, ◌==◌, if◌then◌else◌}

-- `datetime.fromisoformat`: a naive time, or one with a zone, which stands for an instant. An
-- instant is the number of ticks since some origin.
pub data Stamp : Type 0 where
  naive : ℕ → Stamp
  aware : ℕ → Stamp

-- `value.endswith("Z")`
unfoldable pub ends_with_z : String → Bool
ends_with_z [] = false
ends_with_z (c ∷ []) = code c == b'Z'
ends_with_z (c ∷ d ∷ s) = ends_with_z (d ∷ s)

-- `value.replace("Z", "+00:00")`
unfoldable pub replace_z : String → String
replace_z [] = ""
replace_z (c ∷ s) =
    let rest = replace_z s in
    if code c == b'Z' then "+" ∷ "0" ∷ "0" ∷ ":" ∷ "0" ∷ "0" ∷ rest else c ∷ rest

-- The part of Python's datetime that the store uses, with what it documents: what `isoformat`
-- prints of a UTC time, `fromisoformat` reads back, and it ends in the offset and not in Z.
pub record Datetime : Type 0 where
  pub fromisoformat : String → Option Stamp
  pub isoformat : ℕ → String
  pub seconds : ℕ → ℕ  -- timedelta(seconds=n), in ticks
  pub fromisoformat-isoformat : (t : ℕ) → fromisoformat (isoformat t) ≡ some (aware t)
  pub isoformat_offset : (t : ℕ) → ends_with_z (isoformat t) ≡ false
  pub seconds_pos : (n : ℕ) → 0 < n → 0 < seconds n

-- A naive time is taken for UTC; one with a zone is moved to UTC. `none` is a ValueError.
abbrev instant : Option Stamp → Option ℕ
instant none = none
instant (some (naive t)) = some t
instant (some (aware t)) = some t

unfoldable pub parse_timestamp : Datetime → String → Option ℕ
unfolding ends_with_z replace_z
parse_timestamp d value =
    instant (d.fromisoformat (if ends_with_z value then replace_z value else value))

-- `now` if the caller gives it, else the clock
unfoldable pub now_or : Datetime → Option String → ℕ → Option ℕ
unfolding parse_timestamp
now_or d none clock = some clock
now_or d (some now) clock = parse_timestamp d now

-- What the store writes as a timestamp, it reads back.
pub parse_timestamp-isoformat : (d : Datetime) (t : ℕ) → parse_timestamp d (d.isoformat t) ≡ some t
unfolding parse_timestamp
parse_timestamp-isoformat d t = rw (d.isoformat_offset t) (rw (d.fromisoformat-isoformat t))

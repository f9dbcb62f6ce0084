-- ===== src/Daemon/Cgroup.antt =====
-- scx_cohort/src/main.rs, `cgroup_of`: the path of a process's cgroup, from the text of its file under
-- /proc, which is an argument; `none` is a file that cannot be read.
pub mod Files
mod Tests
use Prim.Native.Char.{Char, code}
use Prim.Native.String.{String}
use scx_cohort.Base.Map.{Map, lookup, insert}
use scx_cohort.Base.{
  ℕ, Bool, true, false, ◌&&◌, Option, none, some, List, [], ◌∷◌, nat_beq, nat_key, if◌then◌else◌,
}

-- A character, and then the first line of the rest.
unfoldable pub push : Char → List String → List String
push c [] = String.◌∷◌ c String.[] ∷ []
push c (l ∷ ls) = String.◌∷◌ c l ∷ ls

abbrev pub starts_line_feed : String → Bool
starts_line_feed String.[] = false
starts_line_feed (String.◌∷◌ c s) = nat_beq (code c) 10

-- `str::lines`: the line feeds end the lines, and a carriage return before one goes with it.
unfoldable pub lines : String → List String
lines String.[] = []
lines (String.◌∷◌ c s) =
    let rest = lines s in
    if nat_beq (code c) 10
    then String.[] ∷ rest
    else if nat_beq (code c) 13 && starts_line_feed s
    then rest
    else push c rest

-- `str::strip_prefix`, the prefix first.
unfoldable pub strip_prefix : String → String → Option String
strip_prefix String.[] s = some s
strip_prefix (String.◌∷◌ p ps) String.[] = none
strip_prefix (String.◌∷◌ p ps) (String.◌∷◌ c s) =
    if nat_beq (code p) (code c) then strip_prefix ps s else none

-- `trim_start_matches('/')`.
unfoldable pub trim_slashes : String → String
trim_slashes String.[] = String.[]
trim_slashes (String.◌∷◌ c s) = if nat_beq (code c) 47 then trim_slashes s else String.◌∷◌ c s

abbrev pub v2_prefix : String
v2_prefix = "0::"

-- The `find_map` over the lines.
unfoldable pub find_v2 : List String → Option String
find_v2 [] = none
find_v2 (l ∷ ls) = elim (strip_prefix v2_prefix l) [
  | none ↦ find_v2 ls
  | some p ↦ some (trim_slashes p)
]

-- `unwrap_or_default`.
unfoldable pub or_empty : Option String → String
or_empty none = ""
or_empty (some p) = p

unfoldable pub read_cgroup : Option String → String
read_cgroup none = ""
read_cgroup (some text) = or_empty (find_v2 (lines text))

-- From the lookup in the cache on: the cache after, and the path.
unfoldable pub cached_or_read :
    (ℕ → Option String) → ℕ → Map ℕ String → Option String → Map ℕ String × String
cached_or_read procfs tgid cache (some path) = (cache, path)
cached_or_read procfs tgid cache none =
    let path = read_cgroup (procfs tgid) in (insert tgid path cache, path)

unfoldable pub cgroup_of : (ℕ → Option String) → ℕ → Map ℕ String → Map ℕ String × String
cgroup_of procfs tgid cache = cached_or_read procfs tgid cache (lookup tgid cache)

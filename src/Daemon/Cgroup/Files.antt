-- ===== src/Daemon/Cgroup/Files.antt =====
-- scx_cohort/src/main.rs, `cgroup_of`: files as the kernel writes them, read back.
use Prim.Native.Char.{Char, code}
use Prim.Native.String.{String}
use scx_cohort.Base.Texts.{then_text}
use scx_cohort.Base.{◌≡◌, refl, ap, ◌∙◌, false, none, some, List, [], ◌∷◌, nat_beq, if◌then◌else◌}
use scx_cohort.Daemon.Cgroup.{
  push, lines, strip_prefix, trim_slashes, v2_prefix, find_v2, or_empty, read_cgroup,
}

abbrev pub line_feed : Char
line_feed = "\n"

-- The lines of a file, each with its line feed, and what follows them.
unfoldable pub file_of : List String → String → String
file_of [] rest = rest
file_of (l ∷ ls) rest = then_text l (String.◌∷◌ line_feed (file_of ls rest))

-- A text within one line.
abbrev pub IsPlain : String → Type 0
IsPlain String.[] = Unit {0}
IsPlain (String.◌∷◌ c s) = (nat_beq (code c) 10 ≡ false) × (nat_beq (code c) 13 ≡ false) × IsPlain s

-- A line of another hierarchy than that of version 2.
abbrev pub IsOther : String → Type 0
IsOther l = IsPlain l × (strip_prefix v2_prefix l ≡ none)

abbrev pub AreOthers : List String → Type 0
AreOthers [] = Unit {0}
AreOthers (l ∷ ls) = IsOther l × AreOthers ls

abbrev pub StartsNoSlash : String → Type 0
StartsNoSlash String.[] = Unit {0}
StartsNoSlash (String.◌∷◌ c s) = nat_beq (code c) 47 ≡ false

-- The line of version 2 for a path that is given without its first slash.
abbrev pub v2_line : String → String
v2_line path = then_text "0::/" path

lines-then_text :
    (l rest : String) → IsPlain l → lines (then_text l (String.◌∷◌ line_feed rest)) ≡ l ∷ lines rest
unfolding then_text lines push
lines-then_text String.[] rest p = refl
lines-then_text (String.◌∷◌ c l) rest p =
    rw (p.0, p.1, if◌then◌else◌) (ap (push c) (lines-then_text l rest p.2))

lines-file_of :
    (ls : List String) (rest : String)
    → AreOthers ls
    → find_v2 (lines (file_of ls rest)) ≡ find_v2 (lines rest)
unfolding file_of find_v2 strip_prefix lines
lines-file_of [] rest h = refl
lines-file_of (x ∷ ls) rest h =
    rw (lines-then_text x (file_of ls rest) h.0.0, h.0.1) (lines-file_of ls rest h.1)

trim_slashes_lem : (path : String) → StartsNoSlash path → trim_slashes path ≡ path
unfolding trim_slashes
trim_slashes_lem String.[] h = refl
trim_slashes_lem (String.◌∷◌ c s) h = rw (h, if◌then◌else◌) refl

v2_line-IsPlain : (path : String) → IsPlain path → IsPlain (v2_line path)
unfolding then_text
v2_line-IsPlain path p = (refl, refl, (refl, refl, (refl, refl, (refl, refl, p))))

-- A file with lines of other hierarchies first, then the line of version 2 for a path, and then anything,
-- is read as that path, without the slash that the line has before it: for every path that starts with
-- no slash and is within one line.
pub read_cgroup-file_of :
    (before : List String) (path rest : String)
    → AreOthers before
    → IsPlain path
    → StartsNoSlash path
    → read_cgroup (some (file_of before (file_of (v2_line path ∷ []) rest))) ≡ path
unfolding read_cgroup or_empty find_v2 strip_prefix then_text file_of trim_slashes
read_cgroup-file_of before path rest others plain start =
    let found : find_v2 (lines (file_of before (file_of (v2_line path ∷ []) rest))) ≡ some path =
      lines-file_of before (file_of (v2_line path ∷ []) rest) others
      ∙ ap find_v2 (lines-then_text (v2_line path) rest (v2_line-IsPlain path plain))
      ∙ ap some (trim_slashes_lem path start) in
    ap or_empty found

-- ===== src/Top.antt =====
-- scx_cohort/src/top.rs, `render`: the lines of the view. A line is its fields: how the format strings
-- pad and round them is left to them. `f64::total_cmp` is an argument, as is what the terminal answers.
pub mod Cuts
pub mod Sorted
pub mod Screen
pub mod Tests
use Prim.Native.Char.{Char, code}
use Prim.Native.String.{String}
use scx_cohort.Base.Map.{Map, values}
use scx_cohort.Base.{
  ℕ, zero, suc, ◌+◌, ◌-◌, Bool, true, false, not, Option, none, some, List, [], ◌∷◌, ◌++◌, length,
  ltb, nat_beq, if◌then◌else◌, ◌>>=◌,
}
use scx_cohort.Stats.{ProcRow, CohortRow, ProcsSnapshot}

-- `char::len_utf8`, and `str::len`, in bytes.
unfoldable pub len_utf8 : Char → ℕ
len_utf8 c =
    if ltb (code c) 128
    then 1
    else if ltb (code c) 2048
    then 2
    else if ltb (code c) 65536
    then 3
    else 4

unfoldable pub byte_len : String → ℕ
byte_len String.[] = 0
byte_len (String.◌∷◌ c s) = len_utf8 c + byte_len s

-- The first character, before what is taken of the rest.
unfoldable pub push_front : Char → Option String → Option String
push_front c none = none
push_front c (some s) = some (String.◌∷◌ c s)

-- `&s[..n]`; a cut inside a character or past the end is a panic.
unfoldable pub slice_to : ℕ → String → Option String
slice_to n String.[] = if nat_beq n 0 then some String.[] else none
slice_to n (String.◌∷◌ c s) =
    let rest = push_front c (slice_to (n - len_utf8 c) s) in
    if nat_beq n 0 then some String.[] else if ltb n (len_utf8 c) then none else rest

unfoldable pub shorten : String → Option String
shorten comm = if ltb 18 (byte_len comm) then slice_to 18 comm else some comm

pub data Line (F64 : Type 0) : Type 0 where
  summary : ℕ → ℕ → F64 → Map ℕ F64 → Line F64
  blank : Line F64
  titles : Line F64
  cohort_line : ℕ → ℕ → Bool → ℕ → F64 → F64 → Line F64
  proc_line : ℕ → String → ℕ → Option ℕ → F64 → F64 → Line F64

-- `sort_by(|a, b| key(b).total_cmp(key(a)))`: stable, the greatest key first.
module _ {A F64 : Type 0} (total_lt : F64 → F64 → Bool) (key : A → F64) where
  unfoldable pub insert_by : A → List A → List A
  insert_by x [] = x ∷ []
  insert_by x (y ∷ ys) = if total_lt (key x) (key y) then y ∷ insert_by x ys else x ∷ y ∷ ys

  unfoldable pub sort_by : List A → List A
  sort_by [] = []
  sort_by (x ∷ xs) = insert_by x (sort_by xs)

-- The number of rows that the terminal gives, if it gives one, less the one of the prompt.
unfoldable pub terminal_rows : Option ℕ → ℕ
terminal_rows none = 40
terminal_rows (some rows) = if ltb 0 rows then rows else 40

unfoldable pub rows_of : Option ℕ → ℕ
rows_of winsize = let rows = terminal_rows winsize - 1 in if ltb rows 10 then 10 else rows

module _ {F64 : Type 0} where
  abbrev pub line_of_cohort : ℕ × CohortRow F64 → Line F64
  line_of_cohort (id, c) =
      cohort_line id c.home_llc (not (nat_beq c.pinned 0)) c.tasks c.util_pct c.affinity_pct

  abbrev pub line_of_proc : ProcRow F64 → String → Line F64
  line_of_proc p comm =
      proc_line p.tgid comm p.threads (if ltb 0 p.spilled then some p.spilled else none) p.util_pct
        p.affinity_pct

  unfoldable pub proc_lines : List (ProcRow F64) → Option (List (Line F64))
  proc_lines [] = some []
  proc_lines (p ∷ procs) =
      shorten p.comm >>= λ comm. proc_lines procs >>= λ lines. some (line_of_proc p comm ∷ lines)

  unfoldable pub first_lines : ℕ → List (Line F64) → List (Line F64)
  first_lines zero lines = []
  first_lines (suc n) [] = []
  first_lines (suc n) (l ∷ lines) = l ∷ first_lines n lines

  module _ (total_lt : F64 → F64 → Bool) where
    unfoldable pub body_lines : List (ℕ × CohortRow F64) → Option (List (Line F64))
    body_lines [] = some []
    body_lines (c ∷ cohorts) =
        proc_lines (sort_by total_lt (λ p. p.util_pct) (values c.1.procs)) >>= λ procs.
        body_lines cohorts >>= λ lines. some (line_of_cohort c ∷ procs ++ lines)

    -- All lines; those of a cohort that the panic keeps from being drawn are lost with the others.
    unfoldable pub all_lines : ProcsSnapshot F64 → Option (List (Line F64))
    all_lines s = body_lines (sort_by total_lt (λ c. c.1.util_pct) s.cohorts) >>= λ lines. some (
        summary s.nr_tasks (length s.cohorts) s.affinity_pct s.llc_util_pct
        ∷ blank
        ∷ titles
        ∷ lines)

    unfoldable pub render : Option ℕ → ProcsSnapshot F64 → Option (List (Line F64))
    render winsize s = all_lines s >>= λ lines. some (first_lines (rows_of winsize) lines)

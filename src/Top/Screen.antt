-- ===== src/Top/Screen.antt =====
-- scx_cohort/src/top.rs, `render`: what is on the screen.
use Prim.Native.String.{String}
use mathlib.Core.List.Permᴰ
use mathlib.Core.List.{Permᴰ}
use scx_cohort.Base.Map.{values}
use scx_cohort.Base.{ℕ, refl, inl, inr, Option, none, some, List, [], ◌∷◌, ◌++◌, length, In, ◌>>=◌}
use scx_cohort.Stats.{ProcRow, CohortRow, ProcsSnapshot}
use scx_cohort.Top.Cuts.{IsCut, Shortened, cutting, shorten-Shortened}
use scx_cohort.Top.Sorted.{TotalOrder, IsDescending, sort_by-Perm, sort_by-IsDescending}
use scx_cohort.Top.{
  shorten, Line, summary, blank, titles, line_of_cohort, line_of_proc, sort_by, proc_lines,
  body_lines, all_lines, first_lines, rows_of, render,
}
use scx_cohort.WakeGraph.Splits.Largest.{Perm-In}

module _ {F64 : Type 0} where
  -- The lines of processes, in their order.
  pub data ProcLines : List (ProcRow F64) → List (Line F64) → Type 0 where
    nothing : ProcLines [] []
    shown :
        (p : ProcRow F64) (comm : String) (procs : List (ProcRow F64)) (lines : List (Line F64))
        → Shortened p.comm (some comm)
        → ProcLines procs lines
        → ProcLines (p ∷ procs) (line_of_proc p comm ∷ lines)

  -- How the lines of processes come out.
  data Drawn (procs : List (ProcRow F64)) : Option (List (Line F64)) → Type 0 where
    lines_of : (lines : List (Line F64)) → ProcLines procs lines → Drawn procs (some lines)
    stuck : (p : ProcRow F64) → In p procs → IsCut p.comm → Drawn procs none

  proc_lines-Drawn : (procs : List (ProcRow F64)) → Drawn procs (proc_lines procs)
  unfolding proc_lines
  proc_lines-Drawn [] = lines_of [] nothing
  proc_lines-Drawn (p ∷ procs) =
      on_comm (proc_lines-Drawn procs) (shorten p.comm) (shorten-Shortened p.comm)
    where
      on_rest :
          (comm : String)
          → Shortened p.comm (some comm)
          → (o : Option (List (Line F64))) → Drawn procs o
          → Drawn (p ∷ procs) (o >>= λ lines. some (line_of_proc p comm ∷ lines))
      on_rest comm fits o (lines_of lines d) =
          lines_of (line_of_proc p comm ∷ lines) (shown p comm procs lines fits d)
      on_rest comm fits o (stuck q m c) = stuck q (inr m) c

      on_comm :
          Drawn procs (proc_lines procs)
          → (o : Option String) → Shortened p.comm o
          → Drawn
              (p ∷ procs)
              (o >>= λ comm. proc_lines procs >>= λ lines. some (line_of_proc p comm ∷ lines))
      on_comm rest none (cutting c) = stuck p (inl refl) c
      on_comm rest (some comm) fits = on_rest comm fits (proc_lines procs) rest

module _ {F64 : Type 0} (order : TotalOrder F64) where
  open order use {total_lt}

  -- The lines of cohorts in their order, each with its processes below it, the busiest first.
  pub data Body : List (ℕ × CohortRow F64) → List (Line F64) → Type 0 where
    no_more : Body [] []
    cohort :
        (c : ℕ × CohortRow F64) (procs : List (ProcRow F64)) (below : List (Line F64))
        (cohorts : List (ℕ × CohortRow F64)) (lines : List (Line F64))
        → Permᴰ (values c.1.procs) procs
        → IsDescending order (λ p. p.util_pct) procs
        → ProcLines procs below
        → Body cohorts lines
        → Body (c ∷ cohorts) (line_of_cohort c ∷ below ++ lines)

  -- A process whose comm the column cuts.
  abbrev pub HasCut : List (ℕ × CohortRow F64) → Type 0
  HasCut cohorts =
      (c : ℕ × CohortRow F64) × In c cohorts
      × (p : ProcRow F64) × In p (values c.1.procs)
      × IsCut p.comm

  data Listed (cohorts : List (ℕ × CohortRow F64)) : Option (List (Line F64)) → Type 0 where
    listed : (lines : List (Line F64)) → Body cohorts lines → Listed cohorts (some lines)
    unlisted : HasCut cohorts → Listed cohorts none

  body_lines-Listed :
      (cohorts : List (ℕ × CohortRow F64)) → Listed cohorts (body_lines total_lt cohorts)
  unfolding body_lines
  body_lines-Listed [] = listed [] no_more
  body_lines-Listed (c ∷ cohorts) =
      on_procs (body_lines-Listed cohorts) (proc_lines sorted) (proc_lines-Drawn sorted)
    where
      sorted : List (ProcRow F64)
      sorted = sort_by total_lt (λ p. p.util_pct) (values c.1.procs)

      on_rest :
          (below : List (Line F64))
          → ProcLines sorted below
          → (o : Option (List (Line F64))) → Listed cohorts o
          → Listed (c ∷ cohorts) (o >>= λ lines. some (line_of_cohort c ∷ below ++ lines))
      on_rest below d o (listed lines body) = listed (line_of_cohort c ∷ below ++ lines) (
          cohort c sorted below cohorts lines
            (sort_by-Perm order (λ p. p.util_pct) (values c.1.procs))
            (sort_by-IsDescending order (λ p. p.util_pct) (values c.1.procs)) d body)
      on_rest below d o (unlisted (e, m, p, i, cuts)) = unlisted (e, inr m, p, i, cuts)

      on_procs :
          Listed cohorts (body_lines total_lt cohorts)
          → (o : Option (List (Line F64))) → Drawn sorted o
          → Listed (c ∷ cohorts) (
              o >>= λ procs.
              body_lines total_lt cohorts >>= λ lines. some (line_of_cohort c ∷ procs ++ lines))
      on_procs rest o (stuck p m cuts) = unlisted (
        c,
        inl refl,
        p,
        Perm-In p (Permᴰ.symm (sort_by-Perm order (λ p. p.util_pct) (values c.1.procs))) m,
        cuts,
      )
      on_procs rest o (lines_of below d) = on_rest below d (body_lines total_lt cohorts) rest

  -- How `render` comes out.
  pub data Account (winsize : Option ℕ) (s : ProcsSnapshot F64)
      : Option (List (Line F64)) → Type 0 where
    drawn :
        (cohorts : List (ℕ × CohortRow F64)) (lines : List (Line F64))
        → Permᴰ s.cohorts cohorts
        → IsDescending order (λ c. c.1.util_pct) cohorts
        → Body cohorts lines
        → Account winsize s (
            some (
              first_lines (rows_of winsize) (
                summary s.nr_tasks (length s.cohorts) s.affinity_pct s.llc_util_pct
                ∷ blank
                ∷ titles
                ∷ lines)))
    panicked : HasCut s.cohorts → Account winsize s none

  -- `render` panics just where 18 bytes of the comm of some process end within a character; else it
  -- shows as many lines as there are rows of a summary, the titles and every cohort, the busiest first,
  -- with all its processes below it, the busiest first, their comms cut to 18 bytes.
  pub render-Account :
      (winsize : Option ℕ) (s : ProcsSnapshot F64) → Account winsize s (render total_lt winsize s)
  unfolding render all_lines
  render-Account winsize s = on_body (body_lines total_lt sorted) (body_lines-Listed sorted)
    where
      sorted : List (ℕ × CohortRow F64)
      sorted = sort_by total_lt (λ c. c.1.util_pct) s.cohorts

      on_body :
          (o : Option (List (Line F64)))
          → Listed sorted o
          → Account winsize s (
              (o >>= λ lines. some (
                summary s.nr_tasks (length s.cohorts) s.affinity_pct s.llc_util_pct
                ∷ blank
                ∷ titles
                ∷ lines))
              >>= λ lines. some (first_lines (rows_of winsize) lines))
      on_body o (listed lines body) =
          drawn sorted lines (sort_by-Perm order (λ c. c.1.util_pct) s.cohorts)
            (sort_by-IsDescending order (λ c. c.1.util_pct) s.cohorts) body
      on_body o (unlisted (c, m, p, i, cuts)) = panicked (
        c,
        Perm-In c (Permᴰ.symm (sort_by-Perm order (λ c. c.1.util_pct) s.cohorts)) m,
        p,
        i,
        cuts,
      )

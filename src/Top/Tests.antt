-- ===== src/Top/Tests.antt =====
-- Screens of `render`, one that panics among them, and the theorem about it at a concrete snapshot.
use Prim.Native.String.{String}
use scx_cohort.Base.{ℕ, ◌≡◌, refl, true, false, none, some, [], ◌∷◌, arith, ltb}
use scx_cohort.Stats.{ProcRow, ProcsSnapshot}
use scx_cohort.Top.Screen.{Account, render-Account}
use scx_cohort.Top.Sorted.{TotalOrder}
use scx_cohort.Top.{
  summary, blank, titles, cohort_line, proc_line, len_utf8, byte_len, push_front, slice_to, shorten,
  insert_by, sort_by, proc_lines, body_lines, all_lines, terminal_rows, first_lines, rows_of,
  render,
}

program : Unit {0}
unfolding len_utf8 byte_len push_front slice_to shorten insert_by sort_by proc_lines body_lines
    all_lines terminal_rows first_lines rows_of render
program = tt

asym : (a b : ℕ) → ltb a b ≡ true → ltb b a ≡ false
asym a b e = ground arith

trans : (a b c : ℕ) → ltb a b ≡ false → ltb b c ≡ false → ltb a c ≡ false
trans a b c e g = ground arith

abbrev by_size : TotalOrder ℕ
by_size = record { total_lt = ltb; asymmetric = asym; transitive = trans }

abbrev proc : ℕ → String → ℕ → ProcRow ℕ
proc tgid comm util = record {
  tgid = tgid;
  comm = comm;
  threads = 1;
  spilled = 0;
  util_pct = util;
  affinity_pct = 100;
}

abbrev shown : String → ProcsSnapshot ℕ
shown comm = record {
  nr_tasks = 2;
  affinity_pct = 100;
  llc_util_pct = [];
  cohorts =
      (
        7,
        record {
          home_llc = 0;
          pinned = 0;
          tasks = 2;
          util_pct = 30;
          affinity_pct = 100;
          procs = (1, proc 1 comm 10) ∷ (2, proc 2 "game" 20) ∷ [];
        },
      )
      ∷ [];
}

busiest_process_is_first :
    render ltb none (shown "mail")
    ≡ some (
        summary 2 1 100 []
        ∷ blank
        ∷ titles
        ∷ cohort_line 7 0 false 2 30 100
        ∷ proc_line 2 "game" 1 none 20 100
        ∷ proc_line 1 "mail" 1 none 10 100
        ∷ [])
unfolding program
busiest_process_is_first = refl

-- Replacement characters, of three bytes each, after a character of one: the cut at 18 bytes is within
-- the last one.
replaced_comm_panics : render ltb none (shown "a������") ≡ none
unfolding program
replaced_comm_panics = refl

render-Account_example : Account by_size none (shown "mail") (render ltb none (shown "mail"))
render-Account_example = render-Account by_size none (shown "mail")

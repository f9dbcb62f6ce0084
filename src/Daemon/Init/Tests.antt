-- ===== src/Daemon/Init/Tests.antt =====
-- Starts of the daemon, and the theorem about `init` at a concrete machine.
use scx_cohort.Base.Floats.{milli}
use scx_cohort.Base.Map.{insert}
use scx_cohort.Base.{
  ℕ, ◌-◌, ◌^◌, ◌<◌, ◌≡◌, refl, sym, subst, inl, inr, true, some, [], ◌∷◌, In, arith, nat_key,
}
use scx_cohort.Daemon.Init.Bounds.{Checked, init-Checked}
use scx_cohort.Daemon.Init.{
  Topology, refused, many_nodes, max_cpu, count_cpus, write_llcs, attach, check, init,
}
use scx_cohort.Daemon.Options.Tests.{opts}
use scx_cohort.Daemon.Options.{no_config}
use scx_cohort.Daemon.Rules.Tests.{exact}

program : Unit {0}
unfolding insert max_cpu count_cpus write_llcs attach check init
program = tt

abbrev machine : Topology
machine = record { nr_nodes = 1; all_llcs = (0, 1) ∷ (1, 1) ∷ []; all_cpus = (0, 0) ∷ (4, 1) ∷ [] }

cpus_are_counted_by_id : count_cpus machine.all_cpus ≡ 5
unfolding program
cpus_are_counted_by_id = refl

two_nodes_are_refused :
    init milli exact true true true true opts no_config (some (record machine { nr_nodes = 2 }))
    ≡ refused many_nodes
unfolding program
two_nodes_are_refused = refl

small : (p : ℕ × ℕ) → In p machine.all_cpus → p.0 < 2 ^ 32 - 1
small p (inl e) = subst (λ (q : ℕ × ℕ). q.0 < 2 ^ 32 - 1) (sym e) (omega arith)
small p (inr (inl e)) = subst (λ (q : ℕ × ℕ). q.0 < 2 ^ 32 - 1) (sym e) (omega arith)
small p (inr (inr e)) = absurd e

init-Checked_example :
    Checked true true true true machine
      (init milli exact true true true true opts no_config (some machine))
init-Checked_example = init-Checked milli exact true true true true opts no_config machine small

-- ===== src/Daemon/Init/Bounds.antt =====
-- scx_cohort/src/main.rs, `init`: the machines that it starts on, and the array of LLC ids.
use scx_cohort.Base.Floats.{Floats}
use scx_cohort.Base.Map.{Map, insert}
use scx_cohort.Base.Words.{u32_mod}
use scx_cohort.Base.{
  ◌⊎◌, false, sym, Bool-cases, ℕ, ◌-◌, ◌%◌, ◌^◌, ◌<◌, ◌≤◌, ◌≡◌, refl, inl, inr, Bool, true, not,
  some, List, [], ◌∷◌, arith, ltb, nat_key, if◌then◌else◌, if_known, In, length, ap,
}
use scx_cohort.Common.{max_cpus, max_llcs}
use scx_cohort.Config.{Globs, Config}
use scx_cohort.Daemon.Init.{
  Topology, Rodata, Refusal, not_root, no_topology, many_nodes, not_opened, many_llcs, many_cpus,
  not_loaded, not_attached, Start, started, refused, max_cpu, count_cpus, write_llcs, attach, check,
  init,
}
use scx_cohort.Daemon.Options.{Opts}
use scx_cohort.Daemon.World.{Setup, Scheduler}

max_cpu_bounds :
    (cpus : List (ℕ × ℕ)) (greatest n : ℕ)
    → greatest < n
    → ((p : ℕ × ℕ) → In p cpus → p.0 < n)
    → (greatest ≤ max_cpu greatest cpus)
      × ((p : ℕ × ℕ) → In p cpus → p.0 ≤ max_cpu greatest cpus)
      × (max_cpu greatest cpus < n)
unfolding max_cpu
max_cpu_bounds [] greatest n h small = (omega arith, λ p m. absurd m, h)
max_cpu_bounds ((cpu, llc) ∷ cpus) greatest n h small =
    let next = (if ltb greatest cpu then cpu else greatest) in
    let first : cpu < n = small (cpu, llc) (inl refl) in
    let below : next < n = ground arith in
    let rest = max_cpu_bounds cpus next n below (λ p m. small p (inr m)) in
    let most : next ≤ max_cpu next cpus = rest.0 in
    let from : (greatest ≤ next) × (cpu ≤ next) = ground arith in
    (
      omega arith,
      λ p m. elim m [
        | inl e ↦ let e0 : p.0 ≡ cpu = ap (λ (q : ℕ × ℕ). q.0) e in omega arith
        | inr later ↦ rest.1 p later
      ],
      rest.2,
    )

-- The greatest id is the given one or that of a CPU.
max_cpu-In :
    (cpus : List (ℕ × ℕ)) (greatest : ℕ)
    → (max_cpu greatest cpus ≡ greatest) ⊎ ((p : ℕ × ℕ) × In p cpus × (p.0 ≡ max_cpu greatest cpus))
unfolding max_cpu
max_cpu-In [] greatest = inl refl
max_cpu-In ((cpu, llc) ∷ cpus) greatest = elim (Bool-cases (ltb greatest cpu)) [
  | inl above ↦ rw above (elim (max_cpu-In cpus cpu) [
    | inl same ↦ inr ((cpu, llc), inl refl, sym same)
    | inr (p, m, e) ↦ inr (p, inr m, e)
  ])
  | inr below ↦
      rw below (elim (max_cpu-In cpus greatest) [
        | inl same ↦ inl same
        | inr (p, m, e) ↦ inr (p, inr m, e)
      ])
]

write_llcs_total :
    (cpus : List (ℕ × ℕ)) (array : Map ℕ ℕ)
    → ((p : ℕ × ℕ) → In p cpus → p.0 < max_cpus)
    → (full : Map ℕ ℕ) × (write_llcs cpus array ≡ some full)
unfolding write_llcs
write_llcs_total [] array small = (array, refl)
write_llcs_total ((cpu, llc) ∷ cpus) array small =
    let (full, run) =
      write_llcs_total cpus (insert cpu (llc % u32_mod) array) (λ p m. small p (inr m)) in
    let here : cpu < max_cpus = small (cpu, llc) (inl refl) in
    let fits : ltb cpu max_cpus ≡ true = ground arith in (full, rw (fits, run, if◌then◌else◌) refl)

-- The machine is within the bounds that the BPF side has its arrays for.
pub record IsWithin (topo : Topology) (r : Rodata) : Type 0 where
  pub one_node : topo.nr_nodes ≤ 1
  pub llcs : length topo.all_llcs ≤ max_llcs
  pub nr_llcs : r.nr_llcs ≡ length topo.all_llcs
  pub nr_cpus : r.nr_cpus ≤ max_cpus
  pub cpu_ids : (p : ℕ × ℕ) → In p topo.all_cpus → p.0 < r.nr_cpus

not-true : {b : Bool} → not b ≡ true → b ≡ false
not-true {b = true} e = absurd (cc e)
not-true {b = false} e = refl

module _ (is_root opens loads attaches : Bool) (topo : Topology) where
  -- What each refusal says is so.
  abbrev pub IsCause : Refusal → Type 0
  IsCause not_root = is_root ≡ false
  IsCause no_topology = ⊥
  IsCause many_nodes = 1 < topo.nr_nodes
  IsCause not_opened = opens ≡ false
  IsCause many_llcs = max_llcs < length topo.all_llcs
  IsCause many_cpus = (p : ℕ × ℕ) × In p topo.all_cpus × (max_cpus ≤ p.0)
  IsCause not_loaded = loads ≡ false
  IsCause not_attached = attaches ≡ false

  -- A start is refused for a cause, or succeeds on such a machine; there is no panic among the cases.
  pub data Checked {F64 Glob : Type 0} : Start F64 Glob → Type 0 where
    turned_down : (why : Refusal) → IsCause why → Checked (refused why)
    within :
        (r : Rodata) (c : Setup F64 Glob) (s : Scheduler F64)
        → IsWithin topo r
        → c.llc_cpus ≡ topo.all_llcs
        → Checked (started r c s)

module _ (f : Floats) (globs : Globs) (is_root opens loads attaches : Bool) (opts : Opts f.F64)
    (config : Config f.F64 globs.Glob) (topo : Topology) where
  attach-Checked :
      (array : Map ℕ ℕ)
      → topo.nr_nodes ≤ 1
      → length topo.all_llcs ≤ max_llcs
      → count_cpus topo.all_cpus ≤ max_cpus
      → ((p : ℕ × ℕ) → In p topo.all_cpus → p.0 < count_cpus topo.all_cpus)
      → Checked is_root opens loads attaches topo
          (attach f globs is_root opens loads attaches opts config topo (some array))
  unfolding attach
  attach-Checked array nodes llcs cpus ids =
      if_known (Checked is_root opens loads attaches topo) (not loads)
        (λ e. turned_down not_loaded (not-true e))
        (λ e.
          if_known (Checked is_root opens loads attaches topo) (not attaches)
            (λ e. turned_down not_attached (not-true e))
            (λ e.
              within _ _ _
                (record {
                  one_node = nodes;
                  llcs = llcs;
                  nr_llcs = refl;
                  nr_cpus = cpus;
                  cpu_ids = ids;
                })
                refl))

-- On a machine whose CPU ids are below 2 ^ 32 - 1, `init` does not panic, whoever calls it and whichever
-- calls fail: it refuses for the cause that it names, which is so, or it starts on one node at most, with
-- no more LLCs and CPU ids than the BPF side has room for, every CPU id below the number of CPUs that it
-- writes, and so within the array of LLC ids.
pub init-Checked :
    (f : Floats) (globs : Globs) (is_root opens loads attaches : Bool) (opts : Opts f.F64)
    (config : Config f.F64 globs.Glob) (topo : Topology)
    → ((p : ℕ × ℕ) → In p topo.all_cpus → p.0 < 2 ^ 32 - 1)
    → Checked is_root opens loads attaches topo
        (init f globs is_root opens loads attaches opts config (some topo))
unfolding init check count_cpus
init-Checked f globs is_root opens loads attaches opts config topo small =
    let (_, each, most) = max_cpu_bounds topo.all_cpus 0 (2 ^ 32 - 1) (omega arith) small in
    let ids : (p : ℕ × ℕ) → In p topo.all_cpus → p.0 < count_cpus topo.all_cpus =
      λ p m. let le : p.0 ≤ max_cpu 0 topo.all_cpus = each p m in omega arith in
    let P = Checked is_root opens loads attaches topo {F64 = f.F64} {Glob = globs.Glob} in
    if_known P is_root
      (λ root.
        if_known P (ltb 1 topo.nr_nodes) (λ e. turned_down many_nodes (ground arith))
          λ nodes.
            if_known P (not opens) (λ e. turned_down not_opened (not-true e))
              λ opened.
                if_known P (ltb max_llcs (length topo.all_llcs))
                  (λ e. turned_down many_llcs (ground arith))
                  λ llcs.
                    if_known P (ltb max_cpus (count_cpus topo.all_cpus))
                      (λ e. turned_down many_cpus (beyond e))
                      λ cpus.
                        let room : count_cpus topo.all_cpus ≤ max_cpus = ground arith in
                        let (array, run) = write_llcs_total topo.all_cpus [] (λ p m.
                          let id : p.0 < count_cpus topo.all_cpus = ids p m in omega arith) in
                        rw run (
                          attach-Checked f globs is_root opens loads attaches opts config topo array
                            (ground arith) (ground arith) room ids))
      (λ e. turned_down not_root e)
  where
    beyond :
        ltb max_cpus (count_cpus topo.all_cpus) ≡ true
        → (p : ℕ × ℕ) × In p topo.all_cpus × (max_cpus ≤ p.0)
    beyond e =
        let most : max_cpu 0 topo.all_cpus < 2 ^ 32 - 1 =
          (max_cpu_bounds topo.all_cpus 0 (2 ^ 32 - 1) (omega arith) small).2 in
        let many : max_cpus < count_cpus topo.all_cpus = ground arith in
        elim (max_cpu-In topo.all_cpus 0) [
          | inl same ↦ absurd (omega arith)
          | inr (p, m, at_most) ↦ (p, m, omega arith)
        ]

-- ===== src/Lib.antt =====
-- A model of scx_cohort, a sched_ext scheduler that keeps groups of related tasks (cohorts) on one
-- LLC (CCD). The BPF component (scx_cohort/src/bpf/main.bpf.c) takes the decisions of the fast path
-- from maps; the daemon (scx_cohort/src/main.rs) takes snapshots of the maps on each tick, hands
-- them to pure planners and writes their decisions back.
--
-- What is modelled, file by file:
--   Base         shared names; Base/Map: maps as association lists in iteration order; Base/Words:
--                u32, u64 and i64 arithmetic that wraps, as in a release build.
--   Domain       scx_cohort/src/domain.rs: the planners' value types.
--   Balancer     scx_cohort/src/balancer.rs, `Balancer`: `new`, `retain_cohorts`, `plan`. The parts of
--                `plan` are functions of their own: the extremes, the two filters, the choice, the
--                outcome. Balancer/Moves says when and what `plan` moves; Balancer/History follows the
--                balancer over a history of calls.
--   Spill        scx_cohort/src/balancer.rs, `plan_spills`. Spill/Loop has the rules of its loop.
--   WakeGraph    scx_cohort/src/wake_graph.rs: `observe` and `merges`, over Base/Floats, an f64 without
--                laws. WakeGraph/Observe says what `observe` does to one edge, WakeGraph/Merges where a
--                merge comes from, WakeGraph/Bursts how long its edge was hot. WakeGraph/UnionFind is
--                the union-find of `splits` and its proof, by ranks that bound the paths;
--                WakeGraph/Splits is `splits`: the components as classes (Components), the plans
--                (Offcuts), the streaks over a history of calls (Confirmed).
--   Stats        scx_cohort/src/stats.rs: `Metrics::delta`, `affinity_pct`, `procs_snapshot` and the read
--                of the stats server, which keeps the reading before. Stats/Rows has the rows,
--                Stats/Readings what a client sums up.
--   Config       scx_cohort/src/config.rs: `parse`, `load` and `match_task`. TOML and globs are arguments.
--                Config/Rules accounts for the result of `parse`, Config/Matching for the match.
--   Common       scx_cohort_common/src/lib.rs: the constants and the values of the maps that the daemon
--                reads.
--   Daemon       scx_cohort/src/main.rs, with the kernel's answers and failures, procfs and
--                `from_utf8_lossy` as arguments: `snapshot_cohorts` and `apply_spills` in Daemon; in its
--                children `snapshot_tasks`, `snapshot_tgid_cohort` and `snapshot_edges` (Snapshots),
--                `cgroup_of` (Cgroup), `apply_rules` (Rules, with its pins in Policies), `gc_tgid_map`
--                and `llc_loads` (Upkeep), `apply` (Policies), `apply_merge` (Merge), `apply_split`
--                (Split), `discover_relationships` (Relations), `read_stat_counters` and `get_metrics`
--                (Metrics). Daemon/World is the state of a tick, the fields of the scheduler and
--                the maps of policies, counters, processes and spills; Daemon/Tick is `tick`, the
--                parts composed. Daemon/Run is the loop of `run`, turn by turn, with the answers to
--                the clients. Daemon/Options is `load_config`, Daemon/Init is `init`, Daemon/Main
--                the loop of `main`, as the acts that it does. What changes a map by the daemon's
--                calls is in Daemon/Kernel. The proofs are in the children of each: Collect
--                (deleted cohorts), Sync (the spill map), Policies/Pinned (pins from the map to the
--                balancer and back), Split/Ids (ids that are still to be made), Tick/Total and
--                Tick/View (a tick returns, and what its view says), Run/Answers.
--   Top          scx_cohort/src/top.rs: `render`, line by line, with the fields of each line. Top/Cuts is
--                about the cut of a comm at a byte, Top/Sorted about the order, Top/Screen about both.
--   PingPong     bench/ipc_pingpong/src/main.rs: `run_client` and `run_server` as interleaved steps, with
--                the futex calls, the words and the payload; a walk over the payload is one step, and the
--                memory is sequentially consistent. PingPong/Turns is the invariant, PingPong/Rests and
--                PingPong/Steps keep it, PingPong/Interleavings draws from it.
--
-- Not modelled: the BPF component, which is C, and what it writes to the maps while a tick runs; the
-- texts of the views (`Metrics::format`, `monitor`, the format strings of scx_cohort/src/top.rs), the
-- log, the system calls that drop the capabilities and raise the priority, the signal handlers, and of
-- the benchmark its options, its samples of the time, its forks and its report.
--
-- Numbers are unbounded naturals with the wrap-around written out where the source computes on
-- machine words; hypotheses bound the loads where a theorem needs exact arithmetic. A panic is
-- `none`. The recursion of `find` runs on fuel, one more than the number of edges: a path of parents
-- is no longer than the number of unions before, which ranks bound in WakeGraph/UnionFind/Roots.
-- The order in which a hash map is met is the order of its list, and an argument where the program
-- builds the map itself (`components.into_values()` in `splits`).
pub mod Base
pub mod Domain
pub mod Balancer
pub mod Spill
pub mod WakeGraph
pub mod Stats
pub mod Config
pub mod Daemon
pub mod Top
pub mod PingPong
pub mod Common

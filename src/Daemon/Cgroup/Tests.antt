-- ===== src/Daemon/Cgroup/Tests.antt =====
-- Runs of the reading of cgroup files, and their round trip at a concrete file.

use scx_cohort.Base.Texts.{then_text}
use scx_cohort.Base.{◌≡◌, refl, some, [], ◌∷◌, arith}
use scx_cohort.Daemon.Cgroup.Files.{file_of, v2_line, read_cgroup-file_of}
use scx_cohort.Daemon.Cgroup.{
  push, lines, strip_prefix, trim_slashes, find_v2, or_empty, read_cgroup,
}

program : Unit {0}
unfolding push lines strip_prefix trim_slashes find_v2 or_empty read_cgroup then_text file_of
program = tt

hybrid_file : read_cgroup (some "1:name=systemd:/x\r\n0::/user.slice/a\n") ≡ "user.slice/a"
unfolding program
hybrid_file = refl

no_v2_line : read_cgroup (some "1:cpu:/x\n") ≡ ""
unfolding program
no_v2_line = refl

read_cgroup-file_of_example :
    read_cgroup (
      some (
        file_of
          ("12:cpu:/y" ∷ "1:name=systemd:/x" ∷ [])
          (file_of (v2_line "user.slice/a" ∷ []) "z")))
    ≡ "user.slice/a"
unfolding program
read_cgroup-file_of_example =
    read_cgroup-file_of ("12:cpu:/y" ∷ "1:name=systemd:/x" ∷ []) "user.slice/a" "z" (ground arith)
      (ground arith) refl

-- ===== src/Daemon/Metrics/Homes.antt =====
-- scx_cohort/src/main.rs, `get_metrics`: the cohorts of the LLCs.
use scx_cohort.Base.Floats.{Floats}
use scx_cohort.Base.Map.Laws.{lookup-insert}
use scx_cohort.Base.Map.{Map, lookup, insert, from_list}
use scx_cohort.Base.{
  ℕ, ◌+◌, ◌≡◌, refl, ◌∙◌, ap, inl, inr, Bool, false, Option, none, some, List, [], ◌∷◌, map, keep,
  length, any, arith, nat_beq, nat_beq_iff, nat_key, if◌then◌else◌, Bool-cases, All,
}
use scx_cohort.Daemon.Metrics.{nr_at_home, Tallies, llc_metrics, metrics_of, get_metrics}
use scx_cohort.Daemon.{Value}
use scx_cohort.Domain.{CohortSnapshot, LlcLoad}
use scx_cohort.Stats.{LlcMetrics}

-- No LLC is listed twice.
abbrev pub AreDistinct : List LlcLoad → Type 0
AreDistinct [] = Unit {0}
AreDistinct (l ∷ ls) = (any (λ m. nat_beq l.llc m.llc) ls ≡ false) × AreDistinct ls

-- The cohorts counted over a list of LLCs.
unfoldable pub sum_at_home : List LlcLoad → List CohortSnapshot → ℕ
sum_at_home [] cohorts = 0
sum_at_home (l ∷ ls) cohorts = nr_at_home l.llc cohorts + sum_at_home ls cohorts

unfoldable pub sum_cohorts : {F64 : Type 0} → Map ℕ (LlcMetrics F64) → ℕ
sum_cohorts [] = 0
sum_cohorts ((llc, m) ∷ llcs) = m.nr_cohorts + sum_cohorts llcs

-- The homes that are among the LLCs.
abbrev pub is_listed : List LlcLoad → CohortSnapshot → Bool
is_listed llcs c = any (λ l. nat_beq c.home_llc l.llc) llcs

abbrev one_if : Bool → ℕ
one_if b = if b then 1 else 0

nr_at_home_cons :
    (llc : ℕ) (c : CohortSnapshot) (cs : List CohortSnapshot)
    → nr_at_home llc (c ∷ cs) ≡ one_if (nat_beq c.home_llc llc) + nr_at_home llc cs
unfolding nr_at_home
nr_at_home_cons llc c cs = ground arith

sum_at_home_nil : (ls : List LlcLoad) → sum_at_home ls [] ≡ 0
unfolding sum_at_home nr_at_home
sum_at_home_nil [] = refl
sum_at_home_nil (l ∷ ls) = omega (arith, sum_at_home_nil ls)

-- An id that is not listed is the home of nobody that is counted.
hits : ℕ → List LlcLoad → ℕ
hits home [] = 0
hits home (l ∷ ls) = one_if (nat_beq home l.llc) + hits home ls

sum_at_home_cons :
    (ls : List LlcLoad) (c : CohortSnapshot) (cs : List CohortSnapshot)
    → sum_at_home ls (c ∷ cs) ≡ hits c.home_llc ls + sum_at_home ls cs
unfolding sum_at_home hits
sum_at_home_cons [] c cs = refl
sum_at_home_cons (l ∷ ls) c cs = omega (arith, nr_at_home_cons l.llc c cs, sum_at_home_cons ls c cs)

hits_none :
    (home : ℕ) (ls : List LlcLoad) → any (λ m. nat_beq home m.llc) ls ≡ false → hits home ls ≡ 0
unfolding hits
hits_none home [] h = refl
hits_none home (l ∷ ls) h = ground (arith, hits_none home ls)

hits_lem :
    (home : ℕ) (ls : List LlcLoad)
    → AreDistinct ls
    → hits home ls ≡ one_if (any (λ l. nat_beq home l.llc) ls)
unfolding hits
hits_lem home [] d = refl
hits_lem home (l ∷ ls) d = elim (Bool-cases (nat_beq home l.llc)) [
  | inl here ↦
      let e : home ≡ l.llc = (nat_beq_iff home l.llc).0 here in
      let gone : any (λ m. nat_beq home m.llc) ls ≡ false =
        ap (λ k. any (λ m. nat_beq k m.llc) ls) e ∙ d.0 in
      rw (here, if◌then◌else◌) (omega (arith, hits_none home ls gone))
  | inr there ↦ rw (there, if◌then◌else◌) (omega (arith, hits_lem home ls d.1))
]

sum_at_home_lem :
    (ls : List LlcLoad) (cs : List CohortSnapshot)
    → AreDistinct ls
    → sum_at_home ls cs ≡ length (keep (is_listed ls) cs)
sum_at_home_lem ls [] d = sum_at_home_nil ls
sum_at_home_lem ls (c ∷ cs) d =
    ground (arith, sum_at_home_cons ls c cs, hits_lem c.home_llc ls d, sum_at_home_lem ls cs d)

module _ {F64 : Type 0} where
  sum_cohorts-insert :
      (k : ℕ) (v : LlcMetrics F64) (m : Map ℕ (LlcMetrics F64))
      → lookup k m ≡ none
      → sum_cohorts (insert k v m) ≡ sum_cohorts m + v.nr_cohorts
  unfolding sum_cohorts insert lookup
  sum_cohorts-insert k v [] h = omega arith
  sum_cohorts-insert k v ((j, w) ∷ m) h = elim (Bool-cases (nat_beq k j)) [
    | inl here ↦ let e : some w ≡ none = (rw (here, if◌then◌else◌) refl) ∙ h in absurd (cc e)
    | inr there ↦
        let h' : lookup k m ≡ none = (rw (there, if◌then◌else◌) refl) ∙ h in
        rw (there, if◌then◌else◌) (omega (arith, sum_cohorts-insert k v m h'))
  ]

  -- No key of the map is the id of one of the LLCs.
  abbrev AreNew : Map ℕ (LlcMetrics F64) → List LlcLoad → Type 0
  AreNew m ls = All (λ l. lookup l.llc m ≡ none) ls

  insert-AreNew :
      (k : ℕ) (v : LlcMetrics F64) (m : Map ℕ (LlcMetrics F64)) (ls : List LlcLoad)
      → any (λ l. nat_beq k l.llc) ls ≡ false
      → AreNew m ls
      → AreNew (insert k v m) ls
  insert-AreNew k v m [] other new = tt
  insert-AreNew k v m (l ∷ ls) other new =
      (ground (arith, lookup-insert k l.llc v m), insert-AreNew k v m ls (ground arith) new.1)

module _ (f : Floats) (cohorts : List CohortSnapshot) where
  sum_cohorts-from_list :
      (ls : List LlcLoad) (m : Map ℕ (LlcMetrics f.F64))
      → AreDistinct ls
      → AreNew m ls
      → sum_cohorts (from_list (map (λ l. (l.llc, llc_metrics f cohorts l)) ls) m)
        ≡ sum_cohorts m + sum_at_home ls cohorts
  unfolding from_list sum_at_home llc_metrics
  sum_cohorts-from_list [] m d new = omega arith
  sum_cohorts-from_list (l ∷ ls) m d new =
      let v = llc_metrics f cohorts l in
      omega (
        arith,
        sum_cohorts-from_list ls (insert l.llc v m) d.1 (insert-AreNew l.llc v m ls d.0 new.1),
        sum_cohorts-insert l.llc v m new.0,
      )

AreNew-empty : (F64 : Type 0) (ls : List LlcLoad) → AreNew {F64 = F64} [] ls
unfolding lookup
AreNew-empty F64 [] = tt
AreNew-empty F64 (l ∷ ls) = (refl, AreNew-empty F64 ls)

-- The metrics count each cohort at one LLC at most: over LLCs of different ids, the cohorts of the LLCs
-- add up to the cohorts whose home is an id of the list, whatever the lookups of the counters give.
pub get_metrics_homes :
    (f : Floats) (s : Tallies) (lookups : ℕ → Option (Option (List (Value ℕ))))
    (cohorts : List CohortSnapshot) (llcs : List LlcLoad)
    → AreDistinct llcs
    → sum_cohorts (get_metrics f s lookups cohorts llcs).llcs
      ≡ length (keep (is_listed llcs) cohorts)
unfolding get_metrics metrics_of sum_cohorts
get_metrics_homes f s lookups cohorts llcs d =
    sum_cohorts-from_list f cohorts llcs [] d (AreNew-empty f.F64 llcs)
    ∙ omega (arith, sum_at_home_lem llcs cohorts d)

-- ===== src/Host/Main/Plan.antt =====
-- Which benchmarks a filter asks for, read off the tables of host/cdsp_peak.c without its loops, and
-- what a trace says of those that ran.
pub mod Followed
pub mod Quiet
pub mod Partial
pub mod Completed
pub mod Begun
pub mod Always
use cdsp_peak.Base.{
  ℕ, ◌≡◌, refl, inl, inr, Bool, true, false, not, ◌&&◌, ◌||◌, List, [], ◌∷◌, ◌++◌, map, ◌==◌,
  if◌then◌else◌, codes, All, Bool-cases,
}
use cdsp_peak.Base.Int.{ℤ}
use cdsp_peak.Aee.{aee_success}
use cdsp_peak.Host.Options.{Options}
use cdsp_peak.Host.Filter.{scenario_enabled}
use cdsp_peak.Host.Scenarios.{
  ComputeScenario, HmxScenario, MemScenario, compute_scenarios, hmx_scenarios, mem_scenarios,
  hmx_scenario_enabled,
}
use cdsp_peak.Host.Main.System.{
  Job, rpc_null, compute, compute_group, hmx, mem, Event, taken, given_back, ran, Trace,
}

-- The benchmarks of a trace with their errors, the last one first.
abbrev pub ran_of : Trace → List (Job × ℤ)
ran_of [] = []
ran_of (taken x ∷ tr) = ran_of tr
ran_of (given_back x ∷ tr) = ran_of tr
ran_of (ran job err ∷ tr) = (job, err) ∷ ran_of tr

-- The jobs behind what ran before, each with success, the last one first.
abbrev pub then_ran : List Job → List (Job × ℤ) → List (Job × ℤ)
then_ran [] before = before
then_ran (job ∷ jobs) before = then_ran jobs ((job, aee_success) ∷ before)

pub then_ran-append :
    (js ks : List Job) (before : List (Job × ℤ))
    → then_ran (js ++ ks) before ≡ then_ran ks (then_ran js before)
then_ran-append [] ks before = refl
then_ran-append (j ∷ js) ks before = then_ran-append js ks ((j, aee_success) ∷ before)

-- The elements that pass a test.
abbrev pub chosen {ℓ} : {A : Type ℓ} → (A → Bool) → List A → List A
chosen test [] = []
chosen test (x ∷ xs) = if test x then x ∷ chosen test xs else chosen test xs

abbrev pub ungrouped : ComputeScenario → Bool
ungrouped sc = sc.iteration_group == 0

-- Whether a row of the group passes the test.
abbrev pub some_of_group : ℕ → (ComputeScenario → Bool) → List ComputeScenario → Bool
some_of_group group test [] = false
some_of_group group test (sc ∷ scs) =
    (not (ungrouped sc) && (sc.iteration_group == group) && test sc) || some_of_group group test scs

-- The rows of no group, one by one, and the int8 group once if one of its rows is asked for.
abbrev pub planned_compute : (ComputeScenario → Bool) → List Job
planned_compute test =
    map compute (chosen test (chosen ungrouped compute_scenarios))
    ++ (if some_of_group 1 test compute_scenarios then compute_group 1 ∷ [] else [])

abbrev pub planned_null : Options → List Job
planned_null opt = if scenario_enabled opt (codes "rpc-null") then rpc_null ∷ [] else []

abbrev pub planned_hmx : Options → ℤ → List HmxScenario → List Job
planned_hmx opt arch scs = map hmx (chosen (λ sc. hmx_scenario_enabled opt sc arch) scs)

abbrev pub planned_mem : Options → List MemScenario → List Job
planned_mem opt scs = map mem (chosen (λ sc. scenario_enabled opt sc.name) scs)

abbrev pub planned : Options → ℤ → List Job
planned opt arch =
    planned_null opt
    ++ (planned_compute (λ sc. scenario_enabled opt sc.name)
        ++ (planned_hmx opt arch hmx_scenarios ++ planned_mem opt mem_scenarios))

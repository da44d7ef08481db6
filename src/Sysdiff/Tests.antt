-- ===== src/Sysdiff/Tests.antt =====
-- Three runs with two measurements; the values and their floats are numbers.
use asct.Prelude.{
  ℕ, ◌-◌, ◌+◌, ◌*◌, ◌/◌, true, false, not, ◌&&◌, ◌||◌, none, some, List, [], ◌∷◌, ◌≡◌, refl, ok,
  leb, ◌==◌, nat_key, nat_beq_iff, Bool-cases, inl, inr,
}
use asct.Text.{Text, codes, text_key, text_beq, split}
use asct.Dict.{Dict, keys, lookup, contains}
use asct.Sysdiff.{Python, Comparator, numeric_tolerance, should_ignore, Change, get_differences}
use asct.Sysdiff.Runs.{get_recipe_data, Run, RunChanges, diff_all, compute_summary, or_no_data}
use asct.Sysdiff.Differences.{paths, agrees_at, get_differences-reports}
use asct.Sysdiff.Unchanged.{IsReflexive, AllSame, diff_all-same}

abbrev naturals : Python ℕ ℕ
naturals = record {
  eq = λ a b. a == b;
  floats = record {
    float = λ v. some v;
    equal = λ a b. a == b;
    at_most = leb;
    distance = λ a b. (a - b) + (b - a);
    percent = λ d c. d * 100 / c;
    abs = λ a. a;
    zero = 0;
    one = 1;
  };
  missing = 0;
}

abbrev ignored : List Text
ignored = codes "run_id" ∷ codes "data.CPUA.*" ∷ []

abbrev rules : Dict Text (Comparator ℕ)
rules = (codes "bw.*", numeric_tolerance none (some 10)) ∷ []

abbrev old_data : Dict Text ℕ
old_data = (codes "lat", 5) ∷ (codes "bw.all", 100) ∷ (codes "run_id", 1) ∷ []

abbrev new_data : Dict Text ℕ
new_data = (codes "bw.all", 109) ∷ (codes "run_id", 2) ∷ (codes "cpus", 4) ∷ []

ignores_suffix : should_ignore ignored (codes "x.data.CPUA.3") ≡ true
unfolding should_ignore text_beq split
ignores_suffix = refl

keeps_others : should_ignore ignored (codes "data.CPUB.3") ≡ false
unfolding should_ignore text_beq split
keeps_others = refl

changed_keys :
    get_differences naturals ignored rules (some old_data) (some new_data)
    ≡ ok (
        record { path = codes "cpus"; baseline = 0; other = 4 }
        ∷ record { path = codes "lat"; baseline = 5; other = 0 }
        ∷ [])
unfolding get_differences text_beq split
changed_keys = refl

get_differences-reports_example :
    (changes : List (Change ℕ)) × (get_differences naturals ignored rules
        (some old_data)
        (some new_data)
      ≡ ok changes)
    × ((k : Text)
        → contains k (paths changes) ≡ (
            (contains k (keys old_data) || contains k (keys new_data))
            && not (agrees_at naturals ignored rules old_data new_data k)))
get_differences-reports_example = get_differences-reports naturals ignored rules old_data new_data

abbrev baseline_run : Run ℕ
baseline_run = record { run_name = codes "a"; recipes = (codes "mem", some old_data) ∷ [] }

abbrev same_run : Run ℕ
same_run = record { run_name = codes "b"; recipes = (codes "mem", some old_data) ∷ [] }

abbrev rules_of : Text → Dict Text (Comparator ℕ)
rules_of name = rules

naturals-IsReflexive : IsReflexive naturals
unfolding IsReflexive
naturals-IsReflexive = (λ v. (nat_beq_iff v v).1 refl, λ v f e. (nat_beq_iff f f).1 refl)

same_run-AllSame : AllSame naturals ignored rules_of baseline_run (same_run ∷ [])
unfolding AllSame
same_run-AllSame = (refl, tt)

baseline_dict : (name : Text) → (d : Dict Text ℕ) × (get_recipe_data baseline_run name ≡ some d)
unfolding lookup or_no_data
baseline_dict name = elim (Bool-cases (codes "mem" == name)) [
  | inl same ↦ (old_data, rw same refl)
  | inr other ↦ ([], rw other refl)
]

diff_all-same_example :
    (result : Dict Text (List (RunChanges ℕ))) × (diff_all naturals ignored rules_of baseline_run
        (same_run ∷ [])
      ≡ ok result)
    × ((compute_summary result).changed_recipes ≡ 0)
    × ((compute_summary result).top_changed ≡ [])
diff_all-same_example =
    diff_all-same naturals ignored rules_of baseline_run (same_run ∷ []) naturals-IsReflexive
      same_run-AllSame baseline_dict

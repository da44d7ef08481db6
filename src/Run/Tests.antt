-- ===== src/Run/Tests.antt =====
-- A run of two benchmarks whose world counts the calls; `lat` fails, and `bw` depends on it.
use asct.Prelude.{ℕ, suc, ◌≡◌, refl, true, false, not, List, [], ◌∷◌, ok, ◌==◌}
use asct.Text.{Text, codes, text_key, text_beq}
use asct.Dict.{Dict, contains}
use asct.Recipes.{Metadata}
use asct.Run.{Benchmarks, RunState, Reason, failed, dependency_skipped, execute_benchmarks}
use asct.Run.Recorded.{IsRecorded, execute_benchmarks-IsRecorded}

abbrev ops : Benchmarks ℕ
ops = record {
  stop_requested = λ w. false;
  perform = λ stage name w. (not (name == codes "lat"), suc w);
  run = λ name w. (not (name == codes "lat"), suc w);
  teardown = λ name w. suc w;
  write_benchmark_result = λ name w. (true, w);
}

abbrev metadata_of : List Text → Metadata
metadata_of deps = record {
  name = codes "x";
  short_name = codes "x";
  tags = [];
  category = codes "memory";
  depends_on = deps;
}

abbrev global : Dict Text Metadata
global =
    (codes "lat", metadata_of [])
    ∷ (codes "bw", metadata_of (codes "lat" ∷ []))
    ∷ (codes "c2c", metadata_of [])
    ∷ []

abbrev names : List Text
names = codes "lat" ∷ codes "bw" ∷ codes "c2c" ∷ []

abbrev skipped : Dict Text Reason
skipped = (codes "lat", failed) ∷ (codes "bw", dependency_skipped) ∷ []

abbrev at_first : RunState ℕ
at_first = record { world = 0; completed = []; failures = [] }

abbrev at_last : RunState ℕ
at_last = record {
  world = 4;
  completed = (codes "c2c", codes "c2c") ∷ [];
  failures = (codes "lat", codes "lat") ∷ [];
}

executed : execute_benchmarks ops (codes "lat" ∷ codes "c2c" ∷ []) at_first ≡ (ok tt, at_last)
unfolding execute_benchmarks text_beq
executed = refl

lat_listed : contains (codes "lat") (codes "lat" ∷ codes "c2c" ∷ []) ≡ true
unfolding contains text_beq
lat_listed = refl

execute_benchmarks-IsRecorded_example : IsRecorded ops at_last (codes "lat")
execute_benchmarks-IsRecorded_example =
    execute_benchmarks-IsRecorded ops (codes "lat" ∷ codes "c2c" ∷ []) at_first at_last
      (codes "lat") executed lat_listed

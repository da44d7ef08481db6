-- ===== src/UserConfig/Tests.antt =====
-- Settings of two benchmarks, of which one is known.
use asct.Prelude.{ℕ, suc, ◌≡◌, Bool, List, [], ◌∷◌, ok, err, nat_beq, Exec}
use asct.Text.{Text, codes}
use asct.Trees.{Value, Entries, leaf, dict, list, end, entry}
use asct.Config.{ConvError, value_error}
use asct.UserConfig.{Conv, Recipe, loop, size, get_conv_user_config}
use asct.UserConfig.Stack.{walk, loop-walk}
use asct.UserConfig.Check.{get_conv_user_config-just_check}

abbrev number_conv : Conv ℕ ℕ
number_conv (leaf n) = ok n
number_conv (dict d) = err value_error
number_conv (list l) = err value_error

abbrev latency : Recipe ℕ ℕ
latency = record {
  name = codes "latency";
  short_name = codes "lat";
  user_config = entry (codes "size") (leaf number_conv) end;
  default_config = entry (codes "size") (leaf 64) end;
}

abbrev given : Entries ℕ
given =
    entry (codes "lat") (dict (entry (codes "size") (leaf 128) end))
      (entry (codes "other") (leaf 1) end)

abbrev keep_path : List Text → Value ℕ → Exec ConvError (List (List Text)) Unit
keep_path path v visited = (ok tt, path ∷ visited)

loop-walk_example :
    loop keep_path (suc (size (dict given))) ((codes "cfg" ∷ [], dict given) ∷ []) []
    ≡ walk keep_path (codes "cfg" ∷ []) (dict given) []
loop-walk_example = loop-walk keep_path (codes "cfg" ∷ []) (dict given) []

get_conv_user_config-just_check_example :
    (get_conv_user_config nat_beq Bool.true (latency ∷ []) [] given end).1 ≡ end
get_conv_user_config-just_check_example =
    get_conv_user_config-just_check nat_beq (latency ∷ []) [] given end

-- ===== src/CpuInfo.antt =====
-- The reader of /proc/cpuinfo in src/lib/sysreport/sr_cpulist.py, `read_proc_cpuinfo`. The file is
-- its lines, each with the line break at its end; what the generator has yielded is part of the
-- state, since it stays when a later line raises.
pub mod Numbers
mod Tests
use asct.Prelude.{
  ℕ, zero, suc, ◌+◌, Bool, true, false, not, Option, none, some, List, [], ◌∷◌, ◌++◌, map, Result,
  ok, err, Exec, ◌>>=◌, ◌>>◌, raise, pure, modify, gets, ℤ, leb_ℤ, ◌==◌, nat_key, if◌then◌else◌,
  take, drop,
}
use asct.Text.{Text, text_key, codes, int, strip, starts_with, drop_last}
use asct.Dict.{Dict, insert}

pub data CpuInfoError : Type 0 where
  value_error : CpuInfoError

pub record Reader : Type 0 where
  pub cpus : List ℤ
  pub keys : Dict Text Text
  pub last_cpu_number : Option ℤ
  pub yielded : List (ℤ × Dict Text Text)

abbrev pub new_reader : Reader
new_reader = record { cpus = []; keys = []; last_cpu_number = none; yielded = [] }

-- `r.find(":")`, where `none` is -1
unfoldable pub find_colon : Text → Option ℕ
find_colon [] = none
find_colon (c ∷ s) = elim (c == b':') [
  | true ↦ some 0
  | false ↦ elim (find_colon s) [ none ↦ none | some i ↦ some (suc i) ]
]

-- `r[cix + 2:-1]`
abbrev pub behind : Option ℕ → Text → Text
behind none r = drop 1 (drop_last 1 r)
behind (some i) r = drop (i + 2) (drop_last 1 r)

-- `for c in cpus: yield (c, keys)`
unfoldable pub pass_on : List ℤ → Dict Text Text → List (ℤ × Dict Text Text)
pass_on [] keys = []
pass_on (c ∷ cpus) keys = (c, keys) ∷ pass_on cpus keys

unfoldable pub flush : Reader → Reader
unfolding pass_on
flush r = record r { cpus = []; keys = []; yielded = r.yielded ++ pass_on r.cpus r.keys }

-- `cpuno > last_cpu_number`, where there is a last one
abbrev pub is_next : Option ℤ → ℤ → Bool
is_next none cpuno = true
is_next (some last) cpuno = not (leb_ℤ cpuno last)

unfoldable pub add_cpu : ℤ → Exec CpuInfoError Reader (Unit {0})
add_cpu cpuno r =
    if is_next r.last_cpu_number cpuno
    then (ok tt, record r { last_cpu_number = some cpuno; cpus = r.cpus ++ cpuno ∷ [] })
    else (err value_error, r)

unfoldable pub read_processor : Text → Exec CpuInfoError Reader (Unit {0})
unfolding add_cpu
read_processor value r = elim (int value) [ none ↦ (err value_error, r) | some n ↦ add_cpu n r ]

-- Keys are collected behind the first CPU only.
unfoldable pub collect : List ℤ → ℕ → Text → Reader → Reader
unfolding insert
collect [] i line r = r
collect (c ∷ cpus) i line r = record r {
  keys = insert (strip (take i line)) (behind (some i) line) r.keys;
}

unfoldable pub read_key : Option ℕ → Text → Reader → Reader
unfolding collect
read_key none line r = r
read_key (some i) line r = collect r.cpus i line r

-- A line without a colon ends a block.
abbrev pub end_block : Option ℕ → Reader → Reader
end_block none r = flush r
end_block (some i) r = r

abbrev pub processor : Text
processor = codes "processor"

unfoldable pub read_line : Text → Exec CpuInfoError Reader (Unit {0})
unfolding find_colon flush read_processor read_key
read_line line r =
    let cix = find_colon line in
    let s = end_block cix r in
    if starts_with processor line
    then read_processor (behind cix line) s
    else (ok tt, read_key cix line s)

unfoldable pub read_lines : List Text → Exec CpuInfoError Reader (Unit {0})
unfolding read_line
read_lines [] = pure tt
read_lines (line ∷ lines) = read_line line >> read_lines lines

unfoldable pub read_proc_cpuinfo : List Text → Result CpuInfoError (Unit {0}) × Reader
unfolding read_lines flush
read_proc_cpuinfo lines = (read_lines lines >> modify flush) new_reader

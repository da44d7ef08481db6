-- ===== src/Iperf3/Output.antt =====
-- The parser of iperf3's output: src/lib/networking/iperf3_parser.py, with the records of
-- src/lib/networking/benchmark_model.py. `json.loads`, `float` and the division of floats are
-- parameters; time stamps are left out.
use asct.Prelude.{
  ℕ, ◌-◌, Bool, true, false, ◌&&◌, ◌||◌, Option, none, some, List, [], ◌∷◌, ◌++◌, Result, ok, err,
  ℤ, leb, if◌then◌else◌, nat_key, take, length,
}
use asct.Text.{Text, text_key, codes, strip, rstrip}
use asct.Trees.{Value, Entries, leaf, dict, list, end, entry, nil, cons, find}

-- What stands in JSON beside objects and arrays; numbers are of any type.
pub data Scalar (N : Type 0) : Type 0 where
  null : Scalar N
  boolean : Bool → Scalar N
  number : N → Scalar N
  string : Text → Scalar N

abbrev pub Json : Type 0 → Type 0
Json N = Value (Scalar N)

pub data RunStatus : Type 0 where
  success error : RunStatus

pub record BenchmarkError : Type 0 where
  pub message : Text
  pub retcode : Option ℤ
  pub stdout : Text
  pub stderr : Text

pub record MeasurementSet (N : Type 0) : Type 0 where
  pub sender_bps : Option N
  pub receiver_bps : Option N
  pub sender_mbps : Option N
  pub receiver_mbps : Option N
  pub sender_total_pct : Option N
  pub sender_user_pct : Option N
  pub sender_system_pct : Option N
  pub receiver_total_pct : Option N
  pub receiver_user_pct : Option N
  pub receiver_system_pct : Option N

-- `P` is what else belongs to the parameters of a run.
pub record Setup (N P : Type 0) : Type 0 where
  pub tool_version : Option (Json N)
  pub params : P

pub data ToolData (N : Type 0) : Type 0 where
  plain : Option Text → ToolData N
  iperf3 :
      Entries (Scalar N) → Option (Json N) → Entries (Scalar N) → Entries (Scalar N) → ToolData N

pub record BenchmarkRun (N P : Type 0) : Type 0 where
  pub status : RunStatus
  pub setup : Setup N P
  pub measurements : MeasurementSet N
  pub error : Option BenchmarkError
  pub raw_output : Text
  pub tool_data : ToolData N
  pub notes : List Text

-- Where `splitlines` splits an ASCII text; `\r\n` gives an empty line more here.
abbrev pub is_line_break : ℕ → Bool
is_line_break c = leb 10 c && leb c 13 || leb 28 c && leb c 30

-- `str.splitlines`, the line before the text in front of it
unfoldable pub lines_from : Text → Text → List Text
lines_from line [] = line ∷ []
lines_from line (c ∷ s) =
    let next = line ∷ lines_from [] s in
    let same = lines_from (line ++ c ∷ []) s in if is_line_break c then next else same

-- The first line that is not blank, or the text.
unfoldable pub first_line : Text → List Text → Text
unfolding strip
first_line text [] = text
first_line text (line ∷ lines) = elim (strip line) [ [] ↦ first_line text lines | c ∷ s ↦ c ∷ s ]

abbrev pub max_len : ℕ
max_len = 140

unfoldable pub shortened : Text → Text
unfolding rstrip
shortened line =
    if leb (length line) max_len then line else rstrip (take (max_len - 3) line) ++ codes "..."

-- `_compact_error_message`, for a text that is stripped
unfoldable pub compact_stripped : Text → Option Text
unfolding first_line lines_from shortened
compact_stripped [] = none
compact_stripped (c ∷ text) = some (shortened (first_line (c ∷ text) (lines_from [] (c ∷ text))))

unfoldable pub compact_error_message : Text → Option Text
unfolding compact_stripped strip
compact_error_message message = compact_stripped (strip message)

abbrev pub parse_error_message : Text
parse_error_message = codes "Failed to parse iperf3 JSON output."

unfoldable pub error_message : Text → Text
unfolding compact_error_message
error_message message = elim (compact_error_message message) [
  | none ↦ parse_error_message
  | some m ↦ m
]

module _ {N : Type 0} where
  -- `_get_dict`
  abbrev pub as_dict : Option (Json N) → Entries (Scalar N)
  as_dict (some (dict d)) = d
  as_dict _ = end

  unfoldable pub get_dict : Entries (Scalar N) → Text → Entries (Scalar N)
  unfolding find
  get_dict parent key = as_dict (find key parent)

  -- `_parse_json_object`, from what `json.loads` gives
  abbrev pub parsed_object : Result Text (Json N) → Result Text (Entries (Scalar N))
  parsed_object (err message) = err message
  parsed_object (ok (dict d)) = ok d
  parsed_object (ok _) = err (codes "iperf3 JSON output was not an object.")

  abbrev pub no_measurements : MeasurementSet N
  no_measurements = record {
    sender_bps = none;
    receiver_bps = none;
    sender_mbps = none;
    receiver_mbps = none;
    sender_total_pct = none;
    sender_user_pct = none;
    sender_system_pct = none;
    receiver_total_pct = none;
    receiver_user_pct = none;
    receiver_system_pct = none;
  }

  -- `iperf_error` where it is a text that is not blank
  unfoldable pub error_text : Option (Json N) → Option Text
  unfolding strip
  error_text (some (leaf (string s))) = elim (strip s) [ [] ↦ none | c ∷ t ↦ some s ]
  error_text (some (leaf null)) = none
  error_text (some (leaf (boolean b))) = none
  error_text (some (leaf (number n))) = none
  error_text (some (dict d)) = none
  error_text (some (list l)) = none
  error_text none = none

-- `float` of a value, where `none` is a TypeError or a ValueError, the truth of a number, and the
-- division by a million.
pub record Floats (N : Type 0) : Type 0 where
  pub float : Json N → Option N
  pub is_true : N → Bool
  pub mega : N → N

module _ {N : Type 0} (floats : Floats N) where
  open floats use {float, is_true, mega}

  -- `_safe_float(d.get(key))`; None has no float.
  unfoldable pub safe_float : Entries (Scalar N) → Text → Option N
  unfolding find
  safe_float d key = elim (find key d) [ none ↦ none | some v ↦ float v ]

  abbrev pub per_million : Option N → Option N
  per_million none = none
  per_million (some n) = some (mega n)

  abbrev pub truth : Json N → Bool
  truth (leaf null) = false
  truth (leaf (boolean b)) = b
  truth (leaf (number n)) = is_true n
  truth (leaf (string [])) = false
  truth (leaf (string (c ∷ s))) = true
  truth (dict end) = false
  truth (dict (entry k v d)) = true
  truth (list nil) = false
  truth (list (cons v l)) = true

  -- `a or b`
  abbrev pub or_value : Option (Json N) → Option (Json N) → Option (Json N)
  or_value none b = b
  or_value (some v) b = if truth v then some v else b

  unfoldable pub read_measurements : Entries (Scalar N) → MeasurementSet N
  unfolding get_dict safe_float
  read_measurements end_block =
      let sum_sent = get_dict end_block (codes "sum_sent") in
      let sum_received = get_dict end_block (codes "sum_received") in
      let cpu_block = get_dict end_block (codes "cpu_utilization_percent") in
      record {
        sender_bps = safe_float sum_sent (codes "bits_per_second");
        receiver_bps = safe_float sum_received (codes "bits_per_second");
        sender_mbps = per_million (safe_float sum_sent (codes "bits_per_second"));
        receiver_mbps = per_million (safe_float sum_received (codes "bits_per_second"));
        sender_total_pct = safe_float cpu_block (codes "host_total");
        sender_user_pct = safe_float cpu_block (codes "host_user");
        sender_system_pct = safe_float cpu_block (codes "host_system");
        receiver_total_pct = safe_float cpu_block (codes "remote_total");
        receiver_user_pct = safe_float cpu_block (codes "remote_user");
        receiver_system_pct = safe_float cpu_block (codes "remote_system");
      }

  abbrev pub parsed_version : Entries (Scalar N) → Option (Json N)
  parsed_version result_json =
      or_value (find (codes "version") result_json)
        (find (codes "version") (get_dict result_json (codes "start")))

module _ {N P : Type 0} (floats : Floats N) where
  -- `replace(setup, tool_version=parsed_version)`
  abbrev pub run_setup : Setup N P → Entries (Scalar N) → Setup N P
  run_setup setup result_json = record setup { tool_version = parsed_version floats result_json }

module _ {N : Type 0} (floats : Floats N) where
  abbrev pub iperf3_data : Entries (Scalar N) → ToolData N
  iperf3_data result_json =
      iperf3 result_json (parsed_version floats result_json) (get_dict result_json (codes "start"))
        (get_dict result_json (codes "end"))

unfoldable pub build_error : Text → Text → Option ℤ → Text → BenchmarkError
build_error raw_stdout raw_stderr retcode m = record {
  message = m;
  retcode = retcode;
  stdout = raw_stdout;
  stderr = raw_stderr;
}

module _ {N P : Type 0} (floats : Floats N) (raw_stdout raw_stderr : Text)
    (retcode : Option ℤ) where
  -- A run that failed with a message.
  unfoldable pub failed : Setup N P → ToolData N → Text → BenchmarkRun N P
  unfolding build_error
  failed setup tool_data m = record {
    status = error;
    setup = setup;
    measurements = no_measurements;
    error = some (build_error raw_stdout raw_stderr retcode m);
    raw_output = raw_stdout;
    tool_data = tool_data;
    notes = m ∷ [];
  }

  unfoldable pub succeeded : Setup N P → ToolData N → MeasurementSet N → BenchmarkRun N P
  succeeded setup tool_data measurements = record {
    status = success;
    setup = setup;
    measurements = measurements;
    error = none;
    raw_output = raw_stdout;
    tool_data = tool_data;
    notes = [];
  }

  unfoldable pub parsed_run : Setup N P → Entries (Scalar N) → BenchmarkRun N P
  unfolding get_dict error_text error_message failed succeeded read_measurements
  parsed_run setup result_json = elim (error_text (find (codes "error") result_json)) [
    | some iperf_error ↦
        failed (run_setup floats setup result_json) (iperf3_data floats result_json)
          (error_message iperf_error)
    | none ↦
        succeeded (run_setup floats setup result_json) (iperf3_data floats result_json)
          (read_measurements floats (get_dict result_json (codes "end")))
  ]

  -- From what `_parse_json_object` gives.
  unfoldable pub parse_from : Setup N P → Result Text (Entries (Scalar N)) → BenchmarkRun N P
  unfolding parsed_run failed error_message
  parse_from setup (err parse_error) =
      failed setup (plain (some parse_error)) (error_message raw_stderr)
  parse_from setup (ok result_json) = parsed_run setup result_json

  unfoldable pub parse : (Text → Result Text (Json N)) → Setup N P → BenchmarkRun N P
  unfolding parse_from
  parse loads setup = parse_from setup (parsed_object (loads raw_stdout))

-- ===== src/Iperf3/Outcome.antt =====
-- The outcomes of `Iperf3Parser.parse` in src/lib/networking/iperf3_parser.py.
use asct.Prelude.{
  ◌≤◌, ◌≡◌, ◌≢◌, Option, none, some, List, [], ◌∷◌, Result, ok, err, ℤ, length, ◌⊎◌, String,
}
use asct.Text.{Text, codes, strip}
use asct.Trees.{Entries, leaf, dict, find, find_path}
use asct.Iperf3.Output.{
  string, MeasurementSet, Scalar, Json, success, error, BenchmarkRun, max_len, parsed_object,
  no_measurements, Floats, build_error,
}

-- A message that is short and not empty.
abbrev pub IsMessage : Text → Type 0
IsMessage m = (m ≢ []) × (length m ≤ max_len)

module _ {N : Type 0} where
  -- The output says that there was an error: the value of `error` is a text that is not blank.
  abbrev pub HasError : Entries (Scalar N) → Text → Type 0
  HasError d t = (find (codes "error") d ≡ some (leaf (string t))) × (strip t ≢ [])

  -- The output is no object, or has an error.
  abbrev pub Reason : Result Text (Json N) → Type 0
  Reason loaded =
      ((m : Text) × (parsed_object loaded ≡ err m))
      ⊎ ((d : Entries (Scalar N)) × (t : Text) × (parsed_object loaded ≡ ok d) × HasError d t)

module _ {N : Type 0} (floats : Floats N) where
  -- The float at a path of the output, where there is one.
  abbrev pub float_at : List Text → Entries (Scalar N) → Option N
  float_at path d = elim (find_path path d) [ none ↦ none | some v ↦ floats.float v ]

  abbrev pub in_millions : Option N → Option N
  in_millions none = none
  in_millions (some n) = some (floats.mega n)

  abbrev pub rate_at : String → Entries (Scalar N) → Option N
  rate_at block = float_at (codes "end" ∷ codes block ∷ codes "bits_per_second" ∷ [])

  abbrev pub cpu_at : String → Entries (Scalar N) → Option N
  cpu_at key = float_at (codes "end" ∷ codes "cpu_utilization_percent" ∷ codes key ∷ [])

  -- The measurements are those that stand in the output.
  pub record Measured (d : Entries (Scalar N)) (ms : MeasurementSet N) : Type 0 where
    pub sender_bps : ms.sender_bps ≡ rate_at "sum_sent" d
    pub receiver_bps : ms.receiver_bps ≡ rate_at "sum_received" d
    pub sender_mbps : ms.sender_mbps ≡ in_millions (rate_at "sum_sent" d)
    pub receiver_mbps : ms.receiver_mbps ≡ in_millions (rate_at "sum_received" d)
    pub sender_total_pct : ms.sender_total_pct ≡ cpu_at "host_total" d
    pub sender_user_pct : ms.sender_user_pct ≡ cpu_at "host_user" d
    pub sender_system_pct : ms.sender_system_pct ≡ cpu_at "host_system" d
    pub receiver_total_pct : ms.receiver_total_pct ≡ cpu_at "remote_total" d
    pub receiver_user_pct : ms.receiver_user_pct ≡ cpu_at "remote_user" d
    pub receiver_system_pct : ms.receiver_system_pct ≡ cpu_at "remote_system" d

module _ {N P : Type 0} (floats : Floats N) (raw_stdout raw_stderr : Text) (retcode : Option ℤ)
    (loads : Text → Result Text (Json N)) where
  -- The output is an object without an error, and the measurements are read from it.
  abbrev pub Succeeds : BenchmarkRun N P → Type 0
  Succeeds run =
      (run.status ≡ success)
      × (run.error ≡ none)
      × (run.notes ≡ [])
      × ((d : Entries (Scalar N)) × (loads raw_stdout ≡ ok (dict d))
          × ((t : Text) → find (codes "error") d ≡ some (leaf (string t)) → strip t ≡ [])
          × Measured floats d run.measurements)

  -- The one note is the message of the error, and nothing was measured.
  abbrev pub Fails : BenchmarkRun N P → Type 0
  Fails run =
      Reason (loads raw_stdout)
      × (run.status ≡ error)
      × (run.measurements ≡ no_measurements)
      × ((m : Text) × IsMessage m
          × (run.error ≡ some (build_error raw_stdout raw_stderr retcode m))
          × (run.notes ≡ m ∷ []))

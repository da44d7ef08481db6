-- ===== src/Iperf3/Tests.antt =====
-- A client of UDP, and an output with a sender's rate.
use asct.Prelude.{
  ℕ, true, false, ◌≡◌, refl, Option, none, some, List, [], ◌∷◌, Result, ok, err, pos, ltb,
}
use asct.Text.{Text, codes, text_beq}
use asct.Trees.{Entries, leaf, dict, end, entry}
use asct.Iperf3.{value_error, real, check_duration, ClientConfig}
use asct.Iperf3.Output.{Scalar, Json, number, Floats, Setup, BenchmarkRun, parse}

abbrev config : ClientConfig
config = record {
  server_host = some (codes "10.0.0.2");
  port = none;
  protocol = codes "UDP";
  duration = some (pos 10);
  window = none;
  client_affinity = some (pos 3);
  server_affinity = none;
  message_size_bytes = some (pos 1460);
  bandwidth_target_bps = none;
  network_namespace = some (codes "left");
  reverse = false;
  bidirectional = true;
  zerocopy = false;
  extra_args = [];
  run_id = none;
}

abbrev config_cmd : List Text
config_cmd =
    codes "ip"
    ∷ codes "netns"
    ∷ codes "exec"
    ∷ codes "left"
    ∷ codes "iperf3"
    ∷ codes "--client"
    ∷ codes "10.0.0.2"
    ∷ codes "--port"
    ∷ codes "5201"
    ∷ codes "--json"
    ∷ codes "--logfile"
    ∷ codes "iperf3-output.json"
    ∷ codes "--affinity"
    ∷ codes "3"
    ∷ codes "--udp"
    ∷ codes "--time"
    ∷ codes "10"
    ∷ codes "--length"
    ∷ codes "1460"
    ∷ []

half_a_second : check_duration (real (pos 10) false) ≡ err value_error
unfolding check_duration
half_a_second = refl

-- Floats that are natural numbers.
abbrev as_number : Json ℕ → Option ℕ
as_number (leaf (number n)) = some n
as_number _ = none

abbrev counts : Floats ℕ
counts = record { float = as_number; is_true = ltb 0; mega = λ n. Prim.Native.Nat.◌/◌ n 1000000 }

abbrev sent : Entries (Scalar ℕ)
sent =
    entry (codes "end")
      (dict (
        entry (codes "sum_sent")
          (dict (entry (codes "bits_per_second") (leaf (number 5000000)) end)) end))
      end

abbrev load : Text → Result Text (Json ℕ)
load text = ok (dict sent)

abbrev setup : Setup ℕ (Unit {0})
setup = record { tool_version = none; params = tt }

abbrev run : BenchmarkRun ℕ (Unit {0})
run = parse counts [] [] (some (pos 0)) load setup

five_mbps : run.measurements.sender_mbps ≡ some 5
unfolding parse text_beq
five_mbps = refl

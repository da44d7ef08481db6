-- ===== src/Iperf3/Arrival.antt =====
-- The settings of iperf3's client arrive: src/core/benchspec/network_benchspec.py.
use asct.Prelude.{◌==◌, false, ◌≡◌, Option, none, some, List, [], ◌∷◌, ◌++◌, if◌then◌else◌}
use asct.Text.{Text, codes, text_key, text_beq}
use asct.Dict.{contains}
use asct.Iperf3.{
  ClientConfig, Protocol, tcp, udp, unknown, protocol_of, show_ℤ, port_of, json_logfile_name,
  namespace_prefix,
}
use asct.Iperf3.Options.{Setting, shown, affinity_text, entry, udp_entry}

-- The first setting of that name.
unfoldable pub setting : Text → List Setting → Option (Option Text)
unfolding text_beq
setting name [] = none
setting name ((x, v) ∷ l) = if text_beq x name then some v else setting name l

-- An option that stands there exactly if there is a value.
abbrev pub given : Option Text → Option (Option Text)
given none = none
given (some s) = some (some s)

abbrev pub udp_setting : Protocol → Option (Option Text)
udp_setting udp = some none
udp_setting tcp = none
udp_setting unknown = none

-- The options that a command may have.
abbrev pub known_options : List Text
known_options =
    codes "--client"
    ∷ codes "--port"
    ∷ codes "--json"
    ∷ codes "--logfile"
    ∷ codes "--affinity"
    ∷ codes "--udp"
    ∷ codes "--time"
    ∷ codes "--length"
    ∷ codes "-b"
    ∷ codes "--window"
    ∷ []

-- What arrives of the configuration; the server's CPU goes with the client's, and without that one
-- it does not. No other option stands there.
pub record Conveys (c : ClientConfig) (server_host : Text) (read : List Setting) : Type 0 where
  pub client : setting (codes "--client") read ≡ some (some server_host)
  pub port : setting (codes "--port") read ≡ some (some (show_ℤ (port_of c.port)))
  pub json : setting (codes "--json") read ≡ some none
  pub logfile : setting (codes "--logfile") read ≡ some (some (json_logfile_name c.run_id))
  pub affinity :
      setting (codes "--affinity") read ≡ given (affinity_text c.client_affinity c.server_affinity)
  pub protocol : setting (codes "--udp") read ≡ udp_setting (protocol_of c.protocol)
  pub time : setting (codes "--time") read ≡ given (shown c.duration)
  pub length : setting (codes "--length") read ≡ given (shown c.message_size_bytes)
  pub bandwidth : setting (codes "-b") read ≡ given (shown c.bandwidth_target_bps)
  pub window : setting (codes "--window") read ≡ given c.window
  pub nothing_else : (name : Text) → contains name known_options ≡ false → setting name read ≡ none

abbrev Absent : Text → List Text → Type 0
Absent x [] = Unit {0}
Absent x (y ∷ ys) = ((y == x) ≡ false) × Absent x ys

-- The entries in the order of the command line.
module _ (a : Option Text) (p : Protocol) (t l b w : Option Text) where
  abbrev from_bandwidth : List Setting
  from_bandwidth = entry (codes "-b") b ++ entry (codes "--window") w

  abbrev from_length : List Setting
  from_length = entry (codes "--length") l ++ from_bandwidth

  abbrev from_time : List Setting
  from_time = entry (codes "--time") t ++ from_length

  abbrev from_flag : List Setting
  from_flag = udp_entry p ++ from_time

  abbrev from_affinity : List Setting
  from_affinity = entry (codes "--affinity") a ++ from_flag

-- A command line behind the prefix of the namespace and the program's name.
abbrev pub IsCommand : Text → ClientConfig → List Text → List Text → Type 0
IsCommand executable c cmd args = cmd ≡ namespace_prefix c.network_namespace ++ executable ∷ args

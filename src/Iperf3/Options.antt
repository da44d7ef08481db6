-- ===== src/Iperf3/Options.antt =====
-- What iperf3 reads from the client's command line of src/core/benchspec/network_benchspec.py: an
-- independent reading of options, of which some take the next argument as their value.
use asct.Prelude.{
  Bool, true, false, ◌||◌, ◌≡◌, refl, ◌∙◌, Option, none, some, List, [], ◌∷◌, ◌++◌, ℤ,
  if◌then◌else◌, ap,
}
use asct.Text.{Text, codes, text_beq}
use asct.Iperf3.{
  ClientConfig, Protocol, tcp, udp, unknown, protocol_of, show_ℤ, port_of, json_logfile_name,
  option, text_option, affinity, protocol_flag, client_args,
}

-- The options of iperf3 with a value, as far as the program uses them.
unfoldable pub takes_value : Text → Bool
unfolding text_beq
takes_value x =
    text_beq x (codes "--client")
    || text_beq x (codes "--port")
    || text_beq x (codes "--logfile")
    || text_beq x (codes "--affinity")
    || text_beq x (codes "--time")
    || text_beq x (codes "--length")
    || text_beq x (codes "-b")
    || text_beq x (codes "--window")

abbrev pub Setting : Type 0
Setting = Text × Option Text

unfoldable pub read_options : List Text → List Setting
unfolding takes_value
read_options [] = []
read_options (x ∷ []) = (x, none) ∷ []
read_options (x ∷ v ∷ args) =
    let valued = (x, some v) ∷ read_options args in
    let plain = (x, none) ∷ read_options (v ∷ args) in if takes_value x then valued else plain

abbrev pub shown : Option ℤ → Option Text
shown none = none
shown (some n) = some (show_ℤ n)

abbrev pub affinity_text : Option ℤ → Option ℤ → Option Text
affinity_text none server_affinity = none
affinity_text (some c) none = some (show_ℤ c)
affinity_text (some c) (some s) = some (show_ℤ c ++ b',' ∷ show_ℤ s)

-- The settings of an option that takes a value.
abbrev pub entry : Text → Option Text → List Setting
entry name none = []
entry name (some v) = (name, some v) ∷ []

abbrev pub udp_entry : Protocol → List Setting
udp_entry udp = (codes "--udp", none) ∷ []
udp_entry tcp = []
udp_entry unknown = []

read_valued :
    (name v : Text) (rest : List Text)
    → takes_value name ≡ true
    → read_options (name ∷ v ∷ rest) ≡ (name, some v) ∷ read_options rest
unfolding read_options
read_valued name v rest h = rw h refl

read_plain :
    (name : Text) (rest : List Text)
    → takes_value name ≡ false
    → read_options (name ∷ rest) ≡ (name, none) ∷ read_options rest
unfolding read_options
read_plain name [] h = refl
read_plain name (v ∷ rest) h = rw h refl

read_text_option :
    (name : Text) (v : Option Text) (rest : List Text)
    → takes_value name ≡ true
    → read_options (text_option name v ++ rest) ≡ entry name v ++ read_options rest
read_text_option name none rest h = refl
read_text_option name (some v) rest h = read_valued name v rest h

read_option :
    (name : Text) (n : Option ℤ) (rest : List Text)
    → takes_value name ≡ true
    → read_options (option name n ++ rest) ≡ entry name (shown n) ++ read_options rest
read_option name none rest h = refl
read_option name (some n) rest h = read_valued name (show_ℤ n) rest h

read_affinity :
    (c s : Option ℤ) (rest : List Text)
    → read_options (affinity c s ++ rest)
      ≡ entry (codes "--affinity") (affinity_text c s) ++ read_options rest
read_affinity none s rest = refl
read_affinity (some c) none rest =
    read_valued (codes "--affinity") (show_ℤ c) rest (unfold takes_value in refl)
read_affinity (some c) (some s) rest =
    read_valued (codes "--affinity") (show_ℤ c ++ b',' ∷ show_ℤ s) rest (unfold takes_value in refl)

read_protocol_flag :
    (p : Protocol) (rest : List Text)
    → read_options (protocol_flag p ++ rest) ≡ udp_entry p ++ read_options rest
read_protocol_flag udp rest = read_plain (codes "--udp") rest (unfold takes_value in refl)
read_protocol_flag tcp rest = refl
read_protocol_flag unknown rest = refl

-- What a reader finds behind the log file.
abbrev pub tail_settings : ClientConfig → List Setting
tail_settings c =
    entry (codes "--affinity") (affinity_text c.client_affinity c.server_affinity)
    ++ (udp_entry (protocol_of c.protocol)
        ++ (entry (codes "--time") (shown c.duration)
            ++ (entry (codes "--length") (shown c.message_size_bytes)
                ++ (entry (codes "-b") (shown c.bandwidth_target_bps)
                    ++ entry (codes "--window") c.window))))

abbrev pub settings : ClientConfig → Text → List Setting
settings c server_host =
    (codes "--client", some server_host)
    ∷ (codes "--port", some (show_ℤ (port_of c.port)))
    ∷ (codes "--json", none)
    ∷ (codes "--logfile", some (json_logfile_name c.run_id))
    ∷ tail_settings c

abbrev tail_args : ClientConfig → List Text → List Text
tail_args c extra_args =
    affinity c.client_affinity c.server_affinity
    ++ (protocol_flag (protocol_of c.protocol)
        ++ (option (codes "--time") c.duration
            ++ (option (codes "--length") c.message_size_bytes
                ++ (option (codes "-b") c.bandwidth_target_bps
                    ++ (text_option (codes "--window") c.window ++ extra_args)))))

read_window :
    (v : Option Text)
    → read_options (text_option (codes "--window") v ++ []) ≡ entry (codes "--window") v
unfolding read_options takes_value
read_window none = refl
read_window (some v) = refl

read_tail : (c : ClientConfig) → read_options (tail_args c []) ≡ tail_settings c
read_tail c =
    let from_b =
      read_option (codes "-b") c.bandwidth_target_bps
        (text_option (codes "--window") c.window ++ []) (unfold takes_value in refl)
      ∙ ap (λ l. entry (codes "-b") (shown c.bandwidth_target_bps) ++ l) (read_window c.window) in
    let from_length =
      read_option (codes "--length") c.message_size_bytes _ (unfold takes_value in refl)
      ∙ ap (λ l. entry (codes "--length") (shown c.message_size_bytes) ++ l) from_b in
    let from_time =
      read_option (codes "--time") c.duration _ (unfold takes_value in refl)
      ∙ ap (λ l. entry (codes "--time") (shown c.duration) ++ l) from_length in
    let from_flag =
      read_protocol_flag (protocol_of c.protocol) _
      ∙ ap (λ l. udp_entry (protocol_of c.protocol) ++ l) from_time in
    read_affinity c.client_affinity c.server_affinity _
    ∙ ap (λ l. entry (codes "--affinity") (affinity_text c.client_affinity c.server_affinity) ++ l)
        from_flag

pub read_args :
    (c : ClientConfig) (server_host : Text)
    → c.extra_args ≡ []
    → read_options (client_args c server_host) ≡ settings c server_host
unfolding client_args
read_args c server_host plain = rw plain (
    read_valued (codes "--client") server_host _ (unfold takes_value in refl)
    ∙ ap (λ l. (codes "--client", some server_host) ∷ l)
        (read_valued (codes "--port") (show_ℤ (port_of c.port)) _ (unfold takes_value in refl)
          ∙ ap (λ l. (codes "--port", some (show_ℤ (port_of c.port))) ∷ l)
              (read_plain (codes "--json") _ (unfold takes_value in refl)
                ∙ ap (λ l. (codes "--json", none) ∷ l)
                    (read_valued (codes "--logfile") (json_logfile_name c.run_id) _
                        (unfold takes_value in refl)
                      ∙ ap (λ l. (codes "--logfile", some (json_logfile_name c.run_id)) ∷ l)
                          (read_tail c)))))

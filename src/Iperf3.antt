-- ===== src/Iperf3.antt =====
-- The command lines of iperf3: src/core/benchspec/network_benchspec.py, `Iperf3ClientConfig`,
-- `Iperf3BenchSpec.make_cmd` and `Iperf3ServerSpec.make_cmd`.
pub mod Options
pub mod Arrival
pub mod Output
pub mod Outcome
mod Tests
use asct.Prelude.{
  ℕ, ◌+◌, Bool, true, false, not, ◌&&◌, ◌||◌, Option, none, some, List, [], ◌∷◌, ◌++◌, Result, ok,
  err, and_then, ℤ, pos, negsuc, leb_ℤ, if◌then◌else◌, ◌==◌,
}
use asct.Text.{Text, text_key, text_beq, codes, int, show, lower}
use asct.Config.{Item, missing, number, text}
use asct.Ports.{check_port_value}

pub data Iperf3Error : Type 0 where
  type_error value_error : Iperf3Error

-- A setting as it comes in; a float is its integral part and whether that is all of it.
pub data Raw : Type 0 where
  boolean : Bool → Raw
  integer : ℤ → Raw
  real : ℤ → Bool → Raw
  string : Text → Raw

-- `int(value)`
unfoldable pub to_int : Raw → Result Iperf3Error ℤ
unfolding int
to_int (boolean true) = ok (pos 1)
to_int (boolean false) = ok (pos 0)
to_int (integer n) = ok n
to_int (real n whole) = ok n
to_int (string s) = elim (int s) [ none ↦ err value_error | some n ↦ ok n ]

-- The value itself is no text and differs from its integer.
abbrev pub is_fractional : Raw → Bool
is_fractional (real n whole) = not whole
is_fractional _ = false

abbrev pub positive : ℤ → Bool
positive n = leb_ℤ (pos 1) n

pub record RawConfig : Type 0 where
  pub server_host : Option Text
  pub port : Option Raw
  pub protocol : Text
  pub duration : Option Raw
  pub window : Option Text
  pub client_affinity : Option Raw
  pub server_affinity : Option Raw
  pub message_size_bytes : Option Raw
  pub bandwidth_target_bps : Option Raw
  pub network_namespace : Option Text
  pub reverse : Bool
  pub bidirectional : Bool
  pub zerocopy : Bool
  pub extra_args : List Text
  pub run_id : Option Text

pub record ClientConfig : Type 0 where
  pub server_host : Option Text
  pub port : Option ℤ
  pub protocol : Text
  pub duration : Option ℤ
  pub window : Option Text
  pub client_affinity : Option ℤ
  pub server_affinity : Option ℤ
  pub message_size_bytes : Option ℤ
  pub bandwidth_target_bps : Option ℤ
  pub network_namespace : Option Text
  pub reverse : Bool
  pub bidirectional : Bool
  pub zerocopy : Bool
  pub extra_args : List Text
  pub run_id : Option Text

-- What `check_port_value` makes of a value; it calls `int` on it.
abbrev pub as_item : Raw → Item
as_item (boolean b) = number (if b then pos 1 else pos 0)
as_item (integer n) = number n
as_item (real n whole) = number n
as_item (string s) = text s

unfoldable pub check_port : Raw → Result Iperf3Error (Option ℤ)
unfolding check_port_value
check_port port = elim (check_port_value true true (as_item port)) [
  | ok p ↦ ok p
  | err e ↦ err value_error
]

unfoldable pub check_duration : Raw → Result Iperf3Error (Option ℤ)
unfolding to_int
check_duration (boolean b) = err type_error
check_duration value = and_then (to_int value) λ duration.
    if not (positive duration) || is_fractional value then err value_error else ok (some duration)

-- `None if value is None else f(value)`
abbrev pub optional :
    (Raw → Result Iperf3Error (Option ℤ)) → Option Raw → Result Iperf3Error (Option ℤ)
optional f none = ok none
optional f (some value) = f value

unfoldable pub any_int : Raw → Result Iperf3Error (Option ℤ)
unfolding to_int
any_int value = and_then (to_int value) λ n. ok (some n)

-- `None if namespace in (None, "") else namespace`
abbrev pub not_empty : Option Text → Option Text
not_empty none = none
not_empty (some []) = none
not_empty (some (c ∷ s)) = some (c ∷ s)

-- `__post_init__`
unfoldable pub post_init : RawConfig → Result Iperf3Error ClientConfig
unfolding check_port check_duration any_int
post_init c = and_then (optional check_port c.port) λ port.
    and_then (optional check_duration c.duration) λ duration.
      and_then (optional any_int c.client_affinity) λ client_affinity.
        and_then (optional any_int c.server_affinity) λ server_affinity.
          and_then (optional any_int c.message_size_bytes) λ message_size_bytes.
            and_then (optional any_int c.bandwidth_target_bps) λ bandwidth_target_bps. ok (record {
              server_host = c.server_host;
              port = port;
              protocol = c.protocol;
              duration = duration;
              window = c.window;
              client_affinity = client_affinity;
              server_affinity = server_affinity;
              message_size_bytes = message_size_bytes;
              bandwidth_target_bps = bandwidth_target_bps;
              network_namespace = not_empty c.network_namespace;
              reverse = c.reverse;
              bidirectional = c.bidirectional;
              zerocopy = c.zerocopy;
              extra_args = c.extra_args;
              run_id = c.run_id;
            })

pub data Protocol : Type 0 where
  tcp udp unknown : Protocol

-- `_protocol`; a name that is none of the values is UNKNOWN.
unfoldable pub protocol_of : Text → Protocol
unfolding lower
protocol_of name =
    let key = lower name in
    if text_beq key (codes "tcp") then tcp else if text_beq key (codes "udp") then udp else unknown

-- `str(n)`
abbrev pub show_ℤ : ℤ → Text
show_ℤ (pos n) = show n
show_ℤ (negsuc n) = b'-' ∷ show (n + 1)

abbrev pub port_of : Option ℤ → ℤ
port_of none = pos 5201
port_of (some p) = p

abbrev pub json_logfile_name : Option Text → Text
json_logfile_name none = codes "iperf3-output.json"
json_logfile_name (some []) = codes "iperf3-output.json"
json_logfile_name (some (c ∷ run_id)) = (c ∷ run_id) ++ codes ".iperf3.json"

-- An option with its value, where there is one.
abbrev pub option : Text → Option ℤ → List Text
option name none = []
option name (some n) = name ∷ show_ℤ n ∷ []

abbrev pub text_option : Text → Option Text → List Text
text_option name none = []
text_option name (some s) = name ∷ s ∷ []

abbrev pub namespace_prefix : Option Text → List Text
namespace_prefix none = []
namespace_prefix (some []) = []
namespace_prefix (some (c ∷ s)) = codes "ip" ∷ codes "netns" ∷ codes "exec" ∷ (c ∷ s) ∷ []

abbrev pub affinity : Option ℤ → Option ℤ → List Text
affinity none server_affinity = []
affinity (some c) none = codes "--affinity" ∷ show_ℤ c ∷ []
affinity (some c) (some s) = codes "--affinity" ∷ (show_ℤ c ++ b',' ∷ show_ℤ s) ∷ []

-- TCP and UNKNOWN add nothing, and no other protocol is left to raise.
abbrev pub protocol_flag : Protocol → List Text
protocol_flag udp = codes "--udp" ∷ []
protocol_flag tcp = []
protocol_flag unknown = []

abbrev pub is_udp : Protocol → Bool
is_udp udp = true
is_udp tcp = false
is_udp unknown = false

-- `_validate_client_options`
unfoldable pub validate_client_options : ClientConfig → Protocol → Result Iperf3Error (Unit {0})
validate_client_options c protocol =
    if c.reverse && c.bidirectional
    then err value_error
    else if is_udp protocol && c.zerocopy
    then err value_error
    else ok tt

-- The arguments behind the program's name.
unfoldable pub client_args : ClientConfig → Text → List Text
unfolding protocol_of
client_args c server_host =
    codes "--client"
    ∷ server_host
    ∷ codes "--port"
    ∷ show_ℤ (port_of c.port)
    ∷ codes "--json"
    ∷ codes "--logfile"
    ∷ json_logfile_name c.run_id
    ∷ (affinity c.client_affinity c.server_affinity
        ++ (protocol_flag (protocol_of c.protocol)
            ++ (option (codes "--time") c.duration
                ++ (option (codes "--length") c.message_size_bytes
                    ++ (option (codes "-b") c.bandwidth_target_bps
                        ++ (text_option (codes "--window") c.window ++ c.extra_args))))))

-- `Iperf3BenchSpec.make_cmd`
unfoldable pub client_cmd : Text → ClientConfig → Result Iperf3Error (List Text)
unfolding client_args validate_client_options
client_cmd executable c = elim c.server_host [
  | none ↦ err value_error
  | some [] ↦ err value_error
  | some (h ∷ host) ↦
      and_then (validate_client_options c (protocol_of c.protocol))
        λ _. ok (namespace_prefix c.network_namespace ++ executable ∷ client_args c (h ∷ host))
]

-- `Iperf3ServerSpec.make_cmd`
unfoldable pub server_cmd : Text → Option ClientConfig → List Text
server_cmd executable none = executable ∷ codes "--server" ∷ []
server_cmd executable (some c) =
    namespace_prefix c.network_namespace
    ++ (executable
        ∷ codes "--server"
        ∷ (option (codes "--port") c.port
            ++ (option (codes "--affinity") c.server_affinity ++ c.extra_args)))

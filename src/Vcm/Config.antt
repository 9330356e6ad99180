-- ===== src/Vcm/Config.antt =====
-- The object `VCM` of lib/vcm: its state, the constructors and the lookups.
use gsw.Prelude.{ℕ, Option, none, some, List, [], ◌++◌, Exec, ok, lookup, nat_eq}
use gsw.Text.{Text, codes, text_eq}
use gsw.Vcm.Types.{Endianness, MeasurementInfo, PacketInfo}

pub data Protocol : Type 0 where
  udp protocol_not_set : Protocol

-- `net_info_t` in the one mode that the parser accepts, ADDR_AUTO; `port` is behind `addr_info`.
pub record NetInfo : Type 0 where
  pub unique_id : ℕ
  pub port : ℕ

pub record Vcm : Type 0 where
  pub port : ℕ
  pub multicast_addr : ℕ
  pub protocol : Protocol
  pub config_dir : Text
  pub config_file : Text
  pub trigger_file : Text
  pub const_file : Text
  pub device : Text
  pub sys_endianness : Endianness
  pub measurements : List Text
  pub addr_map : List (Text × MeasurementInfo)
  pub packets : List PacketInfo
  pub num_packets : ℕ
  pub net_devices : List Text
  pub net_map : List (Text × NetInfo)
  pub auto_port_map : List (ℕ × NetInfo)
  pub num_net_devices : ℕ
  pub constants : List Text
  pub const_map : List (Text × Text)

-- `VCM(std::string)`. The members that it leaves uninitialised are arguments.
unfoldable pub named_vcm : Endianness → Text → Text → ℕ → Vcm
named_vcm host config_dir config_file num_net_devices = record {
  port = 0;
  multicast_addr = 0;
  protocol = protocol_not_set;
  config_dir = config_dir;
  config_file = config_file;
  trigger_file = [];
  const_file = [];
  device = [];
  sys_endianness = host;
  measurements = [];
  addr_map = [];
  packets = [];
  num_packets = 0;
  net_devices = [];
  net_map = [];
  auto_port_map = [];
  num_net_devices = num_net_devices;
  constants = [];
  const_map = [];
}

-- `VCM()`, where `gsw_home` is the environment variable; without it the constructor throws.
unfoldable pub default_vcm : Endianness → Option Text → Exec Vcm
unfolding named_vcm
default_vcm host none = Exec.fault
default_vcm host (some gsw_home) =
    let config_dir = gsw_home ++ codes "/data/default" in
    ok (named_vcm host config_dir (config_dir ++ codes "/config") 0)

unfoldable pub get_info : Vcm → Text → Option MeasurementInfo
get_info v measurement = lookup measurement v.addr_map

unfoldable pub get_net : Vcm → Text → Option NetInfo
get_net v device_name = lookup device_name v.net_map

abbrev pub get_auto_net : Vcm → ℕ → Option NetInfo
get_auto_net v port = lookup port v.auto_port_map

unfoldable pub get_const : Vcm → Text → Option Text
get_const v name = lookup name v.const_map

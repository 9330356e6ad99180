-- ===== src/Vcm/Parse.antt =====
-- `VCM::init` and `VCM::parse_consts` of lib/vcm/src/vcm.cpp, over the lines of a file.
pub mod Layout
pub mod Steps
pub mod Sound
mod Tests
use mathlib.Core.Bool.{not}
use gsw.Prelude.{
  ℕ, ◌+◌, ◌-◌, ◌*◌, ◌^◌, ◌%◌, Bool, true, false, ◌||◌, ◌&&◌, Option, none, some, List, [], ◌∷◌,
  ◌++◌, Exec, ok, err, fault, failure, ◌>>=◌, ◌>>◌, guard, ◌==◌, if◌then◌else◌, get_or, lookup,
  insert, nat_eq, mem,
}
use gsw.Prelude.Int.{ℤ}
use gsw.Text.{Text, text_eq, codes, reads_as, token, stoi, to_unsigned}
use gsw.Vcm.Types.{
  Endianness, gsw_big_endian, gsw_little_endian, MeasurementInfo, MeasurementType, undefined_type,
  int_type, float_type, string_type, MeasurementSign, signed_type, unsigned_type, PacketInfo,
  LocationInfo,
}
use gsw.Vcm.Config.{Vcm, NetInfo, Protocol, udp, protocol_not_set, get_auto_net}

-- The object with the local variables of `init`: the ports of the packets so far, the next id of a
-- network device, and the packet whose block is open.
pub record Parser : Type 0 where
  pub vcm : Vcm
  pub open vcm use *
  pub port_set : List ℕ
  pub net_id : ℕ
  pub current : Option PacketInfo

abbrev pub size_mod : ℕ
size_mod = 2 ^ 64

abbrev is_blank : Text → Bool
is_blank [] = true
is_blank (c ∷ cs) = c == b'#'

abbrev is_none {ℓ} : {A : Type ℓ} → Option A → Bool
is_none none = true
is_none (some a) = false

abbrev with_vcm : Parser → Vcm → Parser
with_vcm p v = record p { vcm = v }

-- `net NAME auto PORT`
pub net_line : Parser → Text → Exec Parser
net_line p line =
    if reads_as (token line 2) "auto"
    then (do
      n ← stoi (token line 3)
      let port = to_unsigned 16 n
      let info : NetInfo = record { unique_id = p.net_id; port = port }
      guard (is_none (get_auto_net p.vcm port)) failure
      ok (record p {
        net_id = p.net_id + 1;
        vcm = record (p.vcm) {
          auto_port_map = insert port info p.auto_port_map;
          net_map = insert (token line 1) info p.net_map;
          net_devices = p.net_devices ++ token line 1 ∷ [];
          num_net_devices = p.num_net_devices + 1;
        };
      }))
    else err failure

-- `NAME = VALUE`. `inet_pton` is the library's: what it leaves in `multicast_addr`.
pub setting_line : (Text → ℕ → ℕ) → Parser → Text → Exec Parser
setting_line inet_pton p line =
    let fst = token line 0 in
    let value = token line 2 in
    if reads_as fst "multicast"
    then ok (with_vcm p (record (p.vcm) { multicast_addr = inet_pton value p.multicast_addr }))
    else if reads_as fst "port"
    then (stoi value >>= λ n. ok (with_vcm p (record (p.vcm) { port = to_unsigned 16 n })))
    else if reads_as fst "protocol"
    then if reads_as value "udp"
      then ok (with_vcm p (record (p.vcm) { protocol = udp }))
      else err failure
    else if reads_as fst "name"
    then ok (with_vcm p (record (p.vcm) { device = value }))
    else if reads_as fst "triggers"
    then ok (with_vcm p (record (p.vcm) { trigger_file = p.config_dir ++ codes "/" ++ value }))
    else if reads_as fst "constants"
    then ok (with_vcm p (record (p.vcm) { const_file = p.config_dir ++ codes "/" ++ value }))
    else err failure

-- `PORT {` or `virtual {`
pub packet_start : Parser → Text → Exec Parser
packet_start p line =
    if reads_as (token line 0) "virtual"
    then ok (record p { current = some (record { size = 0; port = 0; is_virtual = true }) })
    else (do
      n ← stoi (token line 0)
      let port = to_unsigned 16 n
      guard (not (mem port p.port_set)) failure
      ok (record p {
        port_set = port ∷ p.port_set;
        current = some (record { size = 0; port = port; is_virtual = false });
      }))

-- A line in the block of the packet: its end, or the name of a measurement.
pub packet_line : Parser → PacketInfo → Text → Exec Parser
packet_line p packet line =
    let name = token line 0 in
    if reads_as name "}"
    then ok (record p {
      current = none;
      vcm = record (p.vcm) { packets = p.packets ++ packet ∷ []; num_packets = p.num_packets + 1 };
    })
    else elim (lookup name p.addr_map) [
      | none ↦ err failure
      | some meas ↦
          let loc : LocationInfo = record { offset = packet.size; packet_index = p.num_packets } in
          ok (record p {
            current = some (record packet { size = (packet.size + meas.size) % size_mod });
            vcm = record (p.vcm) {
              addr_map =
                  insert name (record meas { locations = meas.locations ++ loc ∷ [] }) p.addr_map;
            };
          })
    ]

type_of_token : Text → Exec MeasurementType
type_of_token t =
    if reads_as t "int"
    then ok int_type
    else if reads_as t "float"
    then ok float_type
    else if reads_as t "string"
    then ok string_type
    else if reads_as t ""
    then ok undefined_type
    else err failure

endianness_of_token : Text → Option Endianness
endianness_of_token t =
    if reads_as t "big"
    then some gsw_big_endian
    else if reads_as t "little"
    then some gsw_little_endian
    else none

sign_of_token : Text → Exec MeasurementSign
sign_of_token t =
    if reads_as t "unsigned"
    then ok unsigned_type
    else if reads_as t "signed"
    then ok signed_type
    else if reads_as t ""
    then ok signed_type
    else err failure

-- The byte order stands in the fourth or in the fifth token, and the sign in the other one.
order_and_sign : Endianness → Text → Text → Exec (Endianness × MeasurementSign)
unfolding endianness_of_token sign_of_token
order_and_sign sys fourth fifth = elim (endianness_of_token fourth) [
  | some e ↦ (sign_of_token fifth >>= λ s. ok (e, s))
  | none ↦ elim (endianness_of_token fifth) [
    | some e ↦ (sign_of_token fourth >>= λ s. ok (e, s))
    | none ↦ if reads_as fifth "" then (sign_of_token fourth >>= λ s. ok (sys, s)) else err failure
  ]
]

-- `NAME SIZE TYPE ORDER SIGN`
pub measurement_line : Parser → Text → Exec Parser
measurement_line p line = do
  let name = token line 0
  guard (not (reads_as name "" || reads_as (token line 1) "")) failure
  n ← stoi (token line 1)
  type ← type_of_token (token line 2)
  (order, sign) ← order_and_sign p.sys_endianness (token line 3) (token line 4)
  let entry : MeasurementInfo = record {
    locations = [];
    size = to_unsigned 64 n;
    endianness = order;
    type = type;
    sign = sign;
  }
  ok (
      with_vcm p (record (p.vcm) {
        addr_map = insert name entry p.addr_map;
        measurements = p.measurements ++ name ∷ [];
      }))

abbrev outer_line : (Text → ℕ → ℕ) → Parser → Text → Exec Parser
outer_line inet_pton p line =
    if reads_as (token line 0) "net"
    then net_line p line
    else if reads_as (token line 1) "="
    then setting_line inet_pton p line
    else if reads_as (token line 1) "{"
    then packet_start p line
    else measurement_line p line

-- The inner loop is where a packet is open.
dispatch : (Text → ℕ → ℕ) → Parser → Text → Option PacketInfo → Exec Parser
unfolding net_line setting_line packet_start packet_line measurement_line type_of_token
    order_and_sign
dispatch inet_pton p line none = outer_line inet_pton p line
dispatch inet_pton p line (some packet) = packet_line p packet line

-- One round of the two loops.
pub parse_line : (Text → ℕ → ℕ) → Parser → Text → Exec Parser
unfolding dispatch
parse_line inet_pton p line = if is_blank line then ok p else dispatch inet_pton p line p.current

pub parse_lines : (Text → ℕ → ℕ) → Parser → List Text → Exec Parser
unfolding parse_line
parse_lines inet_pton p [] = ok p
parse_lines inet_pton p (line ∷ lines) =
    parse_line inet_pton p line >>= λ p'. parse_lines inet_pton p' lines

abbrev pub start_parser : Vcm → Parser
start_parser v = record { vcm = v; port_set = []; net_id = 0; current = none }

-- Behind the loops: a packet that is still open, and a protocol that is not set, are refused.
abbrev pub finish : Parser → Exec Vcm
finish p = elim p.current [
  | some _ ↦ err failure
  | none ↦ elim p.protocol [ udp ↦ ok p.vcm | protocol_not_set ↦ err failure ]
]

-- `init()`, when the file can be opened.
unfoldable pub init : (Text → ℕ → ℕ) → Vcm → List Text → Exec Vcm
unfolding parse_lines
init inet_pton v lines = parse_lines inet_pton (start_parser v) lines >>= finish

consts_loop : Vcm → List Text → Exec Vcm
consts_loop v [] = ok v
consts_loop v (line ∷ lines) = do
  let name = token line 0
  let value = token line 1
  guard (not (reads_as name "" || reads_as value "")) failure
  consts_loop
      (record v { const_map = insert name value v.const_map; constants = v.constants ++ name ∷ [] })
      lines

-- `parse_consts()`, when the file can be opened.
pub parse_consts : Vcm → List Text → Exec Vcm
unfolding consts_loop
parse_consts v lines = do guard (not (reads_as v.const_file "")) failure; consts_loop v lines

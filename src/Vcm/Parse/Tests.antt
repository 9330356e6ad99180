-- ===== src/Vcm/Parse/Tests.antt =====
-- The parser on a small configuration.
use gsw.Prelude.{◌≡◌, refl, List, [], ◌∷◌, Exec, ok, err, fault, arith, length, map}
use gsw.Text.{Text, codes, stoi, words}
use gsw.Vcm.Types.{gsw_little_endian, PacketInfo}
use gsw.Vcm.Config.{Vcm, named_vcm}
use gsw.Vcm.Parse.{init}
use gsw.Vcm.Parse.Layout.{IsLaidOut}
use gsw.Vcm.Parse.Sound.{init-IsLaidOut}

abbrev empty_vcm : Vcm
unfolding named_vcm
empty_vcm = named_vcm gsw_little_endian [] (codes "config") 0

abbrev config : List Text
config =
    codes "# a vehicle"
    ∷ codes "protocol = udp"
    ∷ codes "ALT 4 int big"
    ∷ codes "TEMP 2 int unsigned little"
    ∷ codes "net fc auto 8081"
    ∷ codes "8080 {"
    ∷ codes "ALT"
    ∷ codes "TEMP"
    ∷ codes "ALT"
    ∷ codes "}"
    ∷ []

abbrev accepted : Exec Vcm → Vcm → Vcm
accepted (ok v) d = v
accepted (err e) d = d
accepted fault d = d

abbrev parsed : Vcm
unfolding init stoi words named_vcm
parsed = accepted (init (λ _ a. a) empty_vcm config) empty_vcm

parsed_size : map (λ (p : PacketInfo). p.size) parsed.packets ≡ 10 ∷ []
unfolding init stoi words named_vcm
parsed_size = refl

init-IsLaidOut_example :
    (parsed.num_packets ≡ length parsed.packets) × IsLaidOut parsed.packets parsed.addr_map
unfolding init stoi words named_vcm
init-IsLaidOut_example =
    init-IsLaidOut (λ _ a. a) empty_vcm parsed config
      (record { packets = refl; num_packets = refl; addr_map = refl }) (omega arith) (ground arith)
      refl

-- ===== src/Xbee/Receive/Tests.antt =====
-- A packet of three bytes that the bridge receives in pieces.
use gsw.Prelude.{ℕ, ◌/◌, ◌%◌, ◌≡◌, refl, List, [], ◌∷◌, ◌++◌, ok, length, arith}
use gsw.Xbee.{start_delimiter}
use gsw.Xbee.Receive.{Rx, Call, bridge, feed_all}
use gsw.Xbee.Receive.Header.{IsIdle}
use gsw.Xbee.Receive.Laws.{IsPacket, rx_body, checksum, received_frame}

abbrev sender : List ℕ
sender = 0x00 ∷ 0x13 ∷ 0xA2 ∷ 0x00 ∷ 0x41 ∷ 0x7E ∷ 0xFF ∷ 0x05 ∷ []

abbrev text : List ℕ
text = b'G' ∷ b'S' ∷ b'W' ∷ []

abbrev body : List ℕ
body = rx_body sender 0xFF 0xFE 0xC1 text

bridge-IsIdle : IsIdle [] bridge
unfolding bridge
bridge-IsIdle = record {
  state = refl;
  check = refl;
  req_off = refl;
  size = refl;
  has_callback = refl;
  same_calls = refl;
}

-- Five bytes, then nine, then the payload's last byte and the checksum.
received_frame_example :
    (m' : Rx) × (call : Call) × (feed_all
        (0 ∷ 0 ∷ [])
        ((start_delimiter ∷ length body / 256 ∷ length body % 256 ∷ [])
          ∷ (((0x90 ∷ 0x00 ∷ 0x13 ∷ 0xA2 ∷ 0x00 ∷ [])
                ∷ (0x41 ∷ 0x7E ∷ 0xFF ∷ 0x05 ∷ 0xFF ∷ 0xFE ∷ 0xC1 ∷ b'G' ∷ b'S' ∷ [])
                ∷ [])
              ++ ((b'W' ∷ []) ++ checksum body ∷ []) ∷ []))
        bridge
      ≡ ok m')
    × IsIdle ([] ++ call ∷ []) m'
    × IsPacket sender text call
received_frame_example =
    received_frame sender text (b'W' ∷ [])
      ((0x90 ∷ 0x00 ∷ 0x13 ∷ 0xA2 ∷ 0x00 ∷ [])
        ∷ (0x41 ∷ 0x7E ∷ 0xFF ∷ 0x05 ∷ 0xFF ∷ 0xFE ∷ 0xC1 ∷ b'G' ∷ b'S' ∷ [])
        ∷ [])
      0xFF 0xFE 0xC1 0 0 [] bridge bridge-IsIdle refl
      (
        omega arith,
        (
          omega arith,
          (
            omega arith,
            (omega arith, (omega arith, (omega arith, (omega arith, (omega arith, _))))),
          ),
        ),
      )
      (omega arith) refl refl

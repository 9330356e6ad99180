-- ===== src/Xbee/Tests.antt =====
-- Frames on a fresh transmit buffer.
use gsw.Prelude.{ℕ, ◌≡◌, refl, List, [], ◌∷◌, Exec, ok, length, replicate, arith}
use gsw.Prelude.Int.{pos}
use gsw.Xbee.{
  Write, Sent, xb_ok, xb_err, broadcast, xb_sendto, xb_remote_at_cmd, xb_at_cmd, xb_set_default_dst,
  wrote_all, wrote_less,
}
use gsw.Xbee.Laws.{api_frame, tx_body, remote_body, xb_sendto-frame, xb_remote_at_cmd-frame}

abbrev fresh : List ℕ
fresh = replicate 1024 0

abbrev write : Write
write sent = pos (length sent)

default_is_broadcast : xb_set_default_dst 0xFFFF ≡ broadcast
unfolding xb_set_default_dst gsw.Xbee.hton_loop
default_is_broadcast = refl

xb_sendto-frame_example :
    (buff : List ℕ) × (xb_sendto write fresh broadcast (1 ∷ 2 ∷ 3 ∷ []) 3
      ≡ ok (record {
        tx_buff = buff;
        sent = api_frame (tx_body broadcast (1 ∷ 2 ∷ 3 ∷ []));
        ret = xb_ok;
      }))
xb_sendto-frame_example =
    xb_sendto-frame write fresh broadcast (1 ∷ 2 ∷ 3 ∷ []) 3 refl refl (omega arith) (omega arith)

xb_remote_at_cmd-frame_example :
    (buff : List ℕ) × (xb_remote_at_cmd write fresh broadcast (b'P' ∷ b'2' ∷ []) (5 ∷ []) 1
      ≡ ok (record {
        tx_buff = buff;
        sent = api_frame (remote_body broadcast b'P' b'2' (5 ∷ []));
        ret = xb_ok;
      }))
xb_remote_at_cmd-frame_example =
    xb_remote_at_cmd-frame write fresh broadcast (5 ∷ []) b'P' b'2' 1 refl refl (omega arith)
      (omega arith)

abbrev sent_of : Exec Sent → List ℕ
sent_of (ok s) = s.sent
sent_of _ = []

-- A local command with a parameter of one byte: 20 bytes are written where the frame has 9.
local_command : length (sent_of (xb_at_cmd write fresh (b'P' ∷ b'2' ∷ []) (5 ∷ []) 1)) ≡ 20
unfolding xb_at_cmd gsw.Xbee.put gsw.Xbee.add_check gsw.Xbee.check_loop gsw.Xbee.hton_loop
local_command = refl

-- ===== src/Xbee/Receive.antt =====
-- `xb_rx_complete` of lib/dev/xbee/src/xbee.c, and the loop of app/xbee/xbee_bridge/src/main.cpp that
-- feeds it, on a little-endian host.
pub mod Reading
pub mod Header
pub mod Laws
mod Tests
use gsw.Prelude.{
  ℕ, zero, suc, ◌+◌, ◌-◌, ◌^◌, ◌%◌, Bool, true, false, List, [], ◌∷◌, ◌++◌, Exec, ok, ◌>>=◌, load,
  store, take, drop, length, ◌==◌, if◌then◌else◌, replicate,
}
use gsw.Bytes.{le_value}
use gsw.Xbee.{hton16, hton64, hton_loop, put, start_delimiter}

pub data RxState : Type 0 where
  waiting_for_frame waiting_for_length reading_payload wait_for_frame_end : RxState

-- A call of `rx_callback`: `buff` is the memory from the pointer on that it is given.
pub record Call : Type 0 where
  pub buff : List ℕ
  pub len : ℕ
  pub src_addr : ℕ

abbrev pub rx_buff_size : ℕ
rx_buff_size = 2048

-- The statics of `xb_rx_complete`, its `len_buff`, and the request, whose pointer is
-- `rx_buff + req_off`. `calls` are the calls of the callback so far.
pub record Rx : Type 0 where
  pub rx_buff : List ℕ
  pub rx_index : ℕ
  pub to_read : ℕ
  pub payload_size : ℕ
  pub state : RxState
  pub check : ℕ
  pub len_buff : List ℕ
  pub req_len : ℕ
  pub req_off : ℕ
  pub has_callback : Bool
  pub calls : List Call

-- The bridge attaches its callback, and starts with a request of no bytes.
unfoldable pub bridge : Rx
bridge = record {
  rx_buff = replicate rx_buff_size 0;
  rx_index = 0;
  to_read = 0;
  payload_size = 0;
  state = waiting_for_frame;
  check = 0;
  len_buff = 0 ∷ 0 ∷ [];
  req_len = 0;
  req_off = 0;
  has_callback = true;
  calls = [];
}

-- ntoh16(*((uint16_t*)bytes)), ntoh64(*((uint64_t*)bytes))
abbrev pub ntoh16 : List ℕ → ℕ
ntoh16 bytes = le_value (hton16 (le_value (take 2 bytes)))

abbrev pub ntoh64 : List ℕ → ℕ
ntoh64 bytes = le_value (hton64 (le_value (take 8 bytes)))

-- sizeof(xb_rx_frame_t) - sizeof(xb_header_t)
abbrev pub rx_header : ℕ
rx_header = 12

-- The callback is called for a received packet. Lengths are size_t.
unfoldable pub call_back : Rx → Exec Rx
call_back m = do
  type ← load m.rx_buff 0
  ok (
      if type == 0x90
      then if m.has_callback
        then record m {
          calls =
              m.calls
              ++ record {
                buff = drop rx_header m.rx_buff;
                len = (m.payload_size + 2 ^ 64 - rx_header) % 2 ^ 64;
                src_addr = ntoh64 (drop 1 m.rx_buff);
              }
                ∷ [];
        }
        else m
      else m)

-- A full frame: its last byte is compared with the checksum.
unfoldable pub frame_read : Rx → Exec Rx
unfolding call_back
frame_read m = do
  last ← load m.rx_buff (m.rx_index - 1)
  m' ← (if 0xFF - m.check == last then call_back m else ok m)
  ok (record m' { check = 0; state = waiting_for_frame })

-- A round of each loop, for the byte `b` = req->buff[i]. `to_read` is not 0 inside of a frame. Each `goto` handles the same byte once more,
-- since it leaves its loop before `i++`.
unfoldable pub in_waiting : ℕ → Rx → Rx
in_waiting b m =
    if b == start_delimiter then record m { state = waiting_for_length; rx_index = 0 } else m

unfoldable pub in_length : ℕ → Rx → Exec Rx
unfolding hton_loop
in_length b m = do
  len_buff ← store m.len_buff m.rx_index b
  let m' = record m { len_buff = len_buff; rx_index = m.rx_index + 1 }
  ok (
      if m.rx_index + 1 == 2
      then record m' {
        payload_size = ntoh16 len_buff;
        to_read = ntoh16 len_buff + 1;
        rx_index = 0;
        state = reading_payload;
      }
      else m')

unfoldable pub in_frame_end : ℕ → Rx → Rx
unfolding in_waiting
in_frame_end b m =
    let m' = record m { to_read = m.to_read - 1 } in
    if m.to_read - 1 == 0 then in_waiting b (record m' { state = waiting_for_frame }) else m'

unfoldable pub in_reading : ℕ → Rx → Exec Rx
unfolding frame_read in_waiting in_frame_end
in_reading b m =
    let m' = record m { rx_index = m.rx_index + 1; to_read = m.to_read - 1 } in
    if m.to_read - 1 == 0
    then (frame_read m' >>= λ m''. ok (in_waiting b m''))
    else if m.rx_index + 1 == rx_buff_size
    then ok (in_frame_end b (record m' { check = 0; state = wait_for_frame_end }))
    else ok (record m' { check = (m.check + b) % 256 })

unfoldable pub rx_byte : ℕ → Rx → Exec Rx
unfolding in_waiting in_length in_reading in_frame_end
rx_byte b m = elim m.state [
  | waiting_for_frame ↦ ok (in_waiting b m)
  | waiting_for_length ↦ in_length b m
  | reading_payload ↦ in_reading b m
  | wait_for_frame_end ↦ ok (in_frame_end b m)
]

-- The rounds for `n` bytes from req->buff[i] on.
unfoldable pub rx_loop : ℕ → ℕ → Rx → Exec Rx
unfolding rx_byte
rx_loop zero i m = ok m
rx_loop (suc n) i m = do b ← load m.rx_buff (m.req_off + i); m' ← rx_byte b m; rx_loop n (i + 1) m'

-- The request for more bytes.
unfoldable pub next_request : Rx → Rx
next_request m = elim m.state [
  | waiting_for_frame ↦ record m { req_len = 3; req_off = 0 }
  | waiting_for_length ↦ record m { req_len = 2 - m.rx_index; req_off = 0 }
  | reading_payload ↦ record m { req_len = m.to_read; req_off = m.rx_index }
  | wait_for_frame_end ↦ m
]

-- `len_buff` is not static: `junk` is what it holds at the start of a call.
unfoldable pub xb_rx_complete : List ℕ → Rx → Exec Rx
unfolding rx_loop next_request
xb_rx_complete junk m = do
  m' ← rx_loop m.req_len 0 (record m { len_buff = junk })
  ok (next_request m')

-- A round of the bridge's loop, without the call for no bytes in front: `serial_read` stores `bytes`.
unfoldable pub feed : List ℕ → List ℕ → Rx → Exec Rx
unfolding xb_rx_complete put
feed junk bytes m = do
  rx_buff ← put m.rx_buff m.req_off bytes
  xb_rx_complete junk (record m { rx_buff = rx_buff; req_len = length bytes })

unfoldable pub feed_all : List ℕ → List (List ℕ) → Rx → Exec Rx
unfolding feed
feed_all junk [] m = ok m
feed_all junk (bytes ∷ more) m = feed junk bytes m >>= feed_all junk more

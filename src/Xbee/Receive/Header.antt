-- ===== src/Xbee/Receive/Header.antt =====
-- The first and the last bytes of a frame.
use gsw.Prelude.{
  ℕ, suc, ◌+◌, ◌-◌, ◌/◌, ◌%◌, ◌^◌, ◌≤◌, ◌<◌, ◌≡◌, refl, ap, ◌∙◌, true, false, List, [], ◌∷◌, ◌++◌,
  ok, load, drop, length, arith, ◌==◌,
}
use gsw.Xbee.{hton_loop, start_delimiter}
use gsw.Xbee.Buffer.{start-Starts, put-Starts, load-append}
use gsw.Xbee.Receive.{
  Rx, RxState, waiting_for_frame, reading_payload, Call, rx_buff_size, rx_header, rx_loop, rx_byte,
  in_waiting, in_length, in_reading, frame_read, call_back, next_request, xb_rx_complete, feed,
  ntoh16, ntoh64,
}
use gsw.Xbee.Receive.Reading.{InFrame, inside, with_bytes}

-- Between frames, with the calls so far.
pub record IsIdle (calls : List Call) (m : Rx) : Type 0 where
  pub state : m.state ≡ waiting_for_frame
  pub check : m.check ≡ 0
  pub req_off : m.req_off ≡ 0
  pub size : length m.rx_buff ≡ rx_buff_size
  pub has_callback : m.has_callback ≡ true
  pub same_calls : m.calls ≡ calls

pub ntoh16-eq : (n : ℕ) → n < 2 ^ 16 → ntoh16 (n / 256 ∷ n % 256 ∷ []) ≡ n
unfolding hton_loop
ntoh16-eq n h = omega arith

-- A receiver that waits for a frame, with its request at the start of the buffer.
abbrev waiting : Rx → List ℕ → Rx
waiting m buff = record m { state = waiting_for_frame; check = 0; req_off = 0; rx_buff = buff }

idle_shape :
    (calls : List Call) (m : Rx) (junk buff : List ℕ) (len : ℕ)
    → IsIdle calls m
    → with_bytes junk buff len m ≡ waiting (with_bytes junk buff len m) buff
idle_shape calls m junk buff len i =
    ap (λ (x : RxState). record (with_bytes junk buff len m) { state = x }) i.state
    ∙ ap (λ (x : ℕ). record (with_bytes junk buff len m) { state = waiting_for_frame; check = x })
        i.check
    ∙ ap
        (λ (x : ℕ). record (with_bytes junk buff len m) {
          state = waiting_for_frame;
          check = 0;
          req_off = x;
        })
        i.req_off

header_run :
    (n a b : ℕ) (rest : List ℕ) (m : Rx)
    → n < 2 ^ 16
    → rx_loop 3 0
        (waiting (record m { len_buff = a ∷ b ∷ [] }) (start_delimiter ∷ n / 256 ∷ n % 256 ∷ rest))
      ≡ ok (record (inside (waiting m (start_delimiter ∷ n / 256 ∷ n % 256 ∷ rest)) 0 (n + 1) 0) {
        len_buff = n / 256 ∷ n % 256 ∷ [];
        payload_size = n;
      })
unfolding rx_loop rx_byte in_waiting in_length
header_run n a b rest m h = rw (ntoh16-eq n h) refl

-- The three bytes of the header, in one call.
pub feed-header :
    (n : ℕ) (calls : List Call) (m : Rx) (a b : ℕ)
    → IsIdle calls m
    → n < rx_buff_size
    → (m' : Rx) × (feed (a ∷ b ∷ []) (start_delimiter ∷ n / 256 ∷ n % 256 ∷ []) m ≡ ok m')
      × InFrame n [] calls m'
unfolding feed xb_rx_complete next_request
feed-header n calls m a b i h =
    let header : List ℕ = start_delimiter ∷ n / 256 ∷ n % 256 ∷ [] in
    let (buff, e, s) =
      put-Starts rx_buff_size [] header m.rx_buff m.req_off
        (start-Starts rx_buff_size m.rx_buff i.size) i.req_off (omega (arith, i.req_off)) in
    let full : List ℕ = start_delimiter ∷ n / 256 ∷ n % 256 ∷ s.rest in
    let size : length full ≡ rx_buff_size = omega (arith, s.total) in
    let m₁ : Rx = with_bytes (a ∷ b ∷ []) full 3 m in
    let run : rx_loop 3 0 (with_bytes (a ∷ b ∷ []) buff 3 m)
        ≡ ok (record (inside (waiting m₁ full) 0 (n + 1) 0) {
          len_buff = n / 256 ∷ n % 256 ∷ [];
          payload_size = n;
        }) =
      ap (λ (x : List ℕ). rx_loop 3 0 (with_bytes (a ∷ b ∷ []) x 3 m)) s.whole
      ∙ ap (λ (x : Rx). rx_loop 3 0 x) (idle_shape calls m (a ∷ b ∷ []) full 3 i)
      ∙ header_run n a b s.rest m₁ (omega arith) in
    (
      record (inside (waiting m₁ full) 0 (n + 1) 0) {
        len_buff = n / 256 ∷ n % 256 ∷ [];
        payload_size = n;
        req_len = n + 1;
        req_off = 0;
      },
      rw (e, run) refl,
      record {
        left = n + 1;
        count = omega arith;
        shape = refl;
        buffer = start-Starts rx_buff_size full size;
        payload_size = refl;
        req_off = refl;
        has_callback = i.has_callback;
        same_calls = i.same_calls;
      },
    )

-- The last byte of a frame, the right checksum, of a received packet.
pub last_run :
    (body rest : List ℕ) (m : Rx) (n check : ℕ)
    → length body ≡ n
    → m.rx_buff ≡ (0x90 ∷ body) ++ (check ∷ rest)
    → 0xFF - m.check ≡ check
    → (check == start_delimiter) ≡ false
    → m.has_callback ≡ true
    → m.payload_size ≡ suc n
    → 12 ≤ suc n
    → n < 2 ^ 16
    → in_reading check (record m { state = reading_payload; rx_index = suc n; to_read = 1 })
      ≡ ok (record m {
        state = waiting_for_frame;
        rx_index = suc n + 1;
        to_read = 0;
        check = 0;
        calls =
            m.calls
            ++ record {
              buff = drop rx_header m.rx_buff;
              len = suc n - 12;
              src_addr = ntoh64 (drop 1 m.rx_buff);
            }
              ∷ [];
      })
unfolding in_reading frame_read call_back in_waiting
last_run body rest m n check l w c d cb p h k =
    let first : load m.rx_buff 0 ≡ ok 0x90 = rw w refl in
    let last : load m.rx_buff (suc n + 1 - 1) ≡ ok check =
      (let at : suc n + 1 - 1 ≡ length (0x90 ∷ body) = omega (arith, l) in
        rw (w, at) (load-append (0x90 ∷ body) rest check)) in
    let len : (m.payload_size + 2 ^ 64 - rx_header) % 2 ^ 64 ≡ suc n - 12 = omega (arith, p) in
    let same : (0xFF - m.check == check) ≡ true = ground (arith, c) in
    rw (last, same, first, cb, len, d) refl

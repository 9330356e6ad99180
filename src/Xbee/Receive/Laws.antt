-- ===== src/Xbee/Receive/Laws.antt =====
-- A frame of the XBee's API, read in pieces.
use mathlib.Core.List.{append_assoc, append-nil, reverse, reverse-cons, reverse-reverse}
use gsw.Prelude.{
  one_result, ℕ, zero, suc, ◌+◌, ◌-◌, ◌*◌, ◌/◌, ◌%◌, ◌<◌, ◌≡◌, refl, sym, ap, ◌∙◌, false, List, [],
  ◌∷◌, ◌++◌, ok, >>=-eq-ok, load, take, drop, length, length-append, All, arith, ◌==◌,
}
use gsw.Bytes.{le_value, be_value}
use gsw.Bytes.Reverse.{be_value-reverse}
use gsw.Xbee.{hton_loop, hton64, start_delimiter}
use gsw.Xbee.Buffer.{put-Starts, take-append_length, load-append, sum_from}
use gsw.Xbee.Laws.{total, sum_from-total}
use gsw.Xbee.Receive.{
  Rx, waiting_for_frame, Call, rx_buff_size, rx_header, rx_loop, rx_byte, in_reading, next_request,
  xb_rx_complete, feed, feed_all, ntoh64,
}
use gsw.Xbee.Receive.Reading.{
  InFrame, inside, with_bytes, rx_loop-with_bytes, feed_all-InFrame, concat,
}
use gsw.Xbee.Receive.Header.{IsIdle, feed-header, last_run}

drop-append : (k n : ℕ) (xs ys : List ℕ) → n ≡ length xs + k → drop n (xs ++ ys) ≡ drop k ys
drop-append k n [] ys e = let same : n ≡ k = omega arith in rw same refl
drop-append k zero (x ∷ xs) ys e = absurd (omega arith)
drop-append k (suc n) (x ∷ xs) ys e = drop-append k n xs ys (omega arith)

-- Each byte of the number goes in front of those before it.
hton_loop-reverse :
    (bs ret : List ℕ)
    → All (λ b. b < 256) bs
    → hton_loop (length bs) (le_value bs) ret ≡ reverse bs ++ ret
unfolding hton_loop
hton_loop-reverse [] ret h = refl
hton_loop-reverse (b ∷ bs) ret h =
    let low : (b + 256 * le_value bs) % 256 ≡ b = omega (arith, h.0) in
    let high : (b + 256 * le_value bs) / 256 ≡ le_value bs = omega (arith, h.0) in
    ap (λ (x : ℕ). hton_loop (length bs) x ((b + 256 * le_value bs) % 256 ∷ ret)) high
    ∙ ap (λ (x : ℕ). hton_loop (length bs) (le_value bs) (x ∷ ret)) low
    ∙ hton_loop-reverse bs (b ∷ ret) h.1
    ∙ sym (append_assoc (reverse bs) (b ∷ []) ret)
    ∙ ap (λ (xs : List ℕ). xs ++ ret) (sym (reverse-cons b bs))

hton64-loop : (n : ℕ) → hton64 n ≡ hton_loop 8 n []
unfolding hton_loop
hton64-loop n = refl

ntoh64-eq :
    (addr rest : List ℕ)
    → length addr ≡ 8
    → All (λ b. b < 256) addr
    → ntoh64 (addr ++ rest) ≡ be_value addr
ntoh64-eq addr rest l h =
    let whole : take 8 (addr ++ rest) ≡ addr = take-append_length addr rest 8 (sym l) in
    let back : hton_loop 8 (le_value addr) [] ≡ reverse addr =
      (let run = hton_loop-reverse addr [] h in rw (l, append-nil (reverse addr)) at run) in
    rw whole (
      ap le_value (hton64-loop (le_value addr) ∙ back)
      ∙ sym (be_value-reverse (reverse addr))
      ∙ ap be_value (reverse-reverse addr))

-- The call of the callback for a packet of that address and payload.
pub record IsPacket (addr payload : List ℕ) (call : Call) : Type 0 where
  pub len : call.len ≡ length payload
  pub bytes : take (length payload) call.buff ≡ payload
  pub src_addr : call.src_addr ≡ be_value addr

-- The body of a received packet: the sender's address, two reserved bytes, options, the payload.
abbrev pub rx_body : List ℕ → ℕ → ℕ → ℕ → List ℕ → List ℕ
rx_body addr high low options payload = 0x90 ∷ (addr ++ (high ∷ low ∷ options ∷ payload))

-- The round for the last byte of a frame.
rx_loop-last :
    (m : Rx) (i index n sum check : ℕ) (r : Rx)
    → load m.rx_buff (m.req_off + i) ≡ ok check
    → index ≡ suc n
    → in_reading check (inside m (suc n) 1 sum) ≡ ok r
    → rx_loop 1 i (inside m index 1 sum) ≡ ok r
unfolding rx_loop rx_byte
rx_loop-last m i index n sum check r read e h = rw (e, read, h) refl

-- The rest of the body and its checksum, in one call.
feed-last :
    (pre bs addr payload : List ℕ) (high low options check : ℕ) (calls : List Call) (m : Rx)
    (junk : List ℕ)
    → InFrame (length (rx_body addr high low options payload)) pre calls m
    → pre ++ bs ≡ rx_body addr high low options payload
    → length addr ≡ 8
    → All (λ b. b < 256) addr
    → length (rx_body addr high low options payload) < rx_buff_size
    → check ≡ 0xFF - sum_from 0 (rx_body addr high low options payload)
    → (check == start_delimiter) ≡ false
    → (m' : Rx) × (call : Call) × (feed junk (bs ++ check ∷ []) m ≡ ok m')
      × IsIdle (calls ++ call ∷ []) m'
      × IsPacket addr payload call
unfolding feed xb_rx_complete next_request
feed-last pre bs addr payload high low options check calls m junk f whole eight small fits sum
      other =
    let tail : List ℕ = addr ++ (high ∷ low ∷ options ∷ payload) in
    let n : ℕ = length tail in
    let parts : length pre + length bs ≡ suc n = sym (length-append pre bs) ∙ ap length whole in
    let long : n ≡ 11 + length payload =
      omega (arith, length-append addr (high ∷ low ∷ options ∷ payload)) in
    let bytes : length (bs ++ check ∷ []) ≡ length bs + 1 = length-append bs (check ∷ []) in
    let (buff, e, s) =
      put-Starts rx_buff_size pre (bs ++ check ∷ []) m.rx_buff m.req_off f.buffer f.req_off
        (omega (arith, f.req_off)) in
    let rounds : ℕ = length (bs ++ check ∷ []) in
    let split : buff ≡ pre ++ (bs ++ (check ∷ s.rest)) =
      s.whole
      ∙ append_assoc pre (bs ++ check ∷ []) s.rest
      ∙ ap (λ (x : List ℕ). pre ++ x) (append_assoc bs (check ∷ []) s.rest) in
    let content : buff ≡ (0x90 ∷ tail) ++ (check ∷ s.rest) =
      split
      ∙ sym (append_assoc pre bs (check ∷ s.rest))
      ∙ ap (λ (x : List ℕ). x ++ (check ∷ s.rest)) whole in
    let run =
      rx_loop-with_bytes (suc n) pre bs (check ∷ s.rest) calls m junk buff f rounds 1 (length bs) 1
        split bytes refl (omega (arith, f.count)) (omega arith) (omega (arith, ap length whole)) in
    let index : length (pre ++ bs) ≡ suc n = ap length whole in
    let w : Rx = record (with_bytes junk buff rounds m) { check = sum_from 0 (pre ++ bs) } in
    let call : Call = record {
      buff = drop rx_header buff;
      len = suc n - 12;
      src_addr = ntoh64 (drop 1 buff);
    } in
    let read : load buff (m.req_off + length bs) ≡ ok check =
      (let at : m.req_off + length bs ≡ length (0x90 ∷ tail) = omega (arith, f.req_off) in
        rw (content, at) (load-append (0x90 ∷ tail) s.rest check)) in
    let last =
      last_run tail s.rest w n check refl content
        (ap (λ (x : List ℕ). 0xFF - sum_from 0 x) whole ∙ sym sum) other f.has_callback
        f.payload_size (omega arith) (omega arith) in
    let all =
      run
      ∙ rx_loop-last (with_bytes junk buff rounds m) (length bs) (length (pre ++ bs)) n
          (sum_from 0 (pre ++ bs)) check _ read index last in
    let data_at : drop 12 buff ≡ payload ++ (check ∷ s.rest) =
      ap (drop 12) content
      ∙ ap (drop 11) (append_assoc addr (high ∷ low ∷ options ∷ payload) (check ∷ s.rest))
      ∙ drop-append 3 11 addr (high ∷ low ∷ options ∷ (payload ++ (check ∷ s.rest)))
          (omega arith) in
    (
      record w {
        state = waiting_for_frame;
        rx_index = suc n + 1;
        to_read = 0;
        check = 0;
        calls = m.calls ++ call ∷ [];
        req_len = 3;
        req_off = 0;
      },
      call,
      rw (e, all) refl,
      record {
        state = refl;
        check = refl;
        req_off = refl;
        size =
            omega
              (arith, ap length s.whole, s.total, length-append (pre ++ (bs ++ check ∷ [])) s.rest);
        has_callback = f.has_callback;
        same_calls = ap (λ (x : List Call). x ++ call ∷ []) f.same_calls;
      },
      record {
        len = omega arith;
        bytes =
            ap (take (length payload)) data_at
            ∙ take-append_length payload (check ∷ s.rest) (length payload) refl;
        src_addr =
            ap (λ (x : List ℕ). ntoh64 (drop 1 x)) content
            ∙ ap ntoh64 (append_assoc addr (high ∷ low ∷ options ∷ payload) (check ∷ s.rest))
            ∙ ntoh64-eq addr (high ∷ low ∷ options ∷ (payload ++ (check ∷ s.rest))) eight small;
      },
    )

feed_all-append :
    (junk : List ℕ) (xs ys : List (List ℕ)) (m m₁ : Rx)
    → feed_all junk xs m ≡ ok m₁
    → feed_all junk (xs ++ ys) m ≡ feed_all junk ys m₁
unfolding feed_all
feed_all-append junk [] ys m m₁ e =
    let same : m ≡ m₁ = one_result (ok m) m m₁ refl e in rw same refl
feed_all-append junk (x ∷ xs) ys m m₁ e =
    let (m₂, f, g) = >>=-eq-ok (feed junk x m) (feed_all junk xs) e in
    rw f (feed_all-append junk xs ys m₂ m₁ g)

-- The checksum that the sender of a frame puts behind the body.
abbrev pub checksum : List ℕ → ℕ
checksum body = 0xFF - total body % 256

-- Between frames, `xb_rx_complete` is given a frame of the API with a received packet of less than
-- 2048 bytes: its first three bytes in one call, and its body and checksum in any pieces, the
-- checksum with what is left of the body. The callback is then called once, with the packet's
-- payload, its length and the sender's address, nothing is accessed out of bounds, and the receiver is
-- between frames again. (The checksum is not the start delimiter, and the address consists of bytes.)
pub received_frame :
    (addr payload fin : List ℕ) (pieces : List (List ℕ)) (high low options a b : ℕ)
    (calls : List Call) (m : Rx)
    → IsIdle calls m
    → length addr ≡ 8
    → All (λ b. b < 256) addr
    → length (rx_body addr high low options payload) < rx_buff_size
    → concat pieces ++ fin ≡ rx_body addr high low options payload
    → (checksum (rx_body addr high low options payload) == start_delimiter) ≡ false
    → (m' : Rx) × (call : Call) × (feed_all
          (a ∷ b ∷ [])
          ((start_delimiter
              ∷ length (rx_body addr high low options payload) / 256
              ∷ length (rx_body addr high low options payload) % 256
              ∷ [])
            ∷ (pieces ++ (fin ++ checksum (rx_body addr high low options payload) ∷ []) ∷ []))
          m
        ≡ ok m')
      × IsIdle (calls ++ call ∷ []) m'
      × IsPacket addr payload call
unfolding feed_all
received_frame addr payload fin pieces high low options a b calls m i eight small fits whole other =
    let body : List ℕ = rx_body addr high low options payload in
    let junk : List ℕ = a ∷ b ∷ [] in
    let (m₁, e₁, f₁) = feed-header (length body) calls m a b i fits in
    let (m₂, e₂, f₂) =
      feed_all-InFrame (length body) [] pieces calls m₁ junk f₁
        (omega (arith, ap length whole, length-append (concat pieces) fin)) fits in
    let sum : sum_from 0 body ≡ total body % 256 =
      sum_from-total 0 body (omega arith) ∙ omega arith in
    let (m₃, call, e₃, idle, packet) =
      feed-last (concat pieces) fin addr payload high low options (checksum body) calls m₂ junk f₂
        whole eight small fits (ap (λ (x : ℕ). 0xFF - x) (sym sum)) other in
    (
      m₃,
      call,
      rw (e₁, feed_all-append junk pieces ((fin ++ checksum body ∷ []) ∷ []) m₁ m₂ e₂, e₃) refl,
      idle,
      packet,
    )

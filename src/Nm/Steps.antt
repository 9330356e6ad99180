-- ===== src/Nm/Steps.antt =====
-- A packet of the device, and a transmission to it.
use gsw.Prelude.{
  ℕ, ◌+◌, ◌^◌, ◌≤◌, ◌<◌, ◌≡◌, refl, sym, ap, ◌∙◌, inl, inr, Bool, true, false, Option, none, some,
  List, [], ◌∷◌, ◌++◌, ok, load, RetType, success, failure, succeeded, ◌==◌, if◌then◌else◌, arith,
  Bool-cases,
}
use gsw.Sem.{SemCalls}
use gsw.Nm.Blocks.{SockaddrIn, NmBlock, NmCall, get_addr, update_addr}
use gsw.Nm.Sockets.{
  Datagram, MqCalls, NetworkTransmitter, Sending, rx, auto_rx, tx, send_on, send_msg,
}
use gsw.Nm.Calls.{
  IsAttached, Posts, Same, Fetched, refused, unchanged, copied, update_addr-cases, if-eq,
}
use gsw.Nm.Net.{packet_from, Net, receive_in, net_act, IsNet}

module _ {S Q : Type 0} (sem : SemCalls S) (mq : MqCalls Q) where
  new_stored :
      (ret : RetType) (p a : SockaddrIn) (old : Option SockaddrIn)
      → ret ≡ success
      → (if succeeded ret then some p else old) ≡ some a
      → p ≡ a
  new_stored ret p a old h e = let same : some p ≡ some a = rw h at e in cc

  old_stored :
      (ret : RetType) (p a : SockaddrIn) (old : Option SockaddrIn)
      → succeeded ret ≡ false
      → (if succeeded ret then some p else old) ≡ some a
      → old ≡ some a
  old_stored ret p a old h e = rw h at e

  packet_run :
      (packet : Datagram) (w : Net S Q) (c : NmCall S)
      → update_addr sem w.receiver.device_id
          (record (w.rx_call) { blocks = w.blocks; addr = packet.addr })
        ≡ ok c
      → net_act sem mq (packet_from packet) w
        ≡ ok (
            receive_in sem mq packet w
              (record (w.receiver) { receiver = (rx (some packet) w.receiver.receiver).1 })
              c)
  unfolding net_act auto_rx rx
  packet_run packet w c e = rw e refl

  module _ (posts : Posts sem) (device_id : ℕ) where
    pub packet-IsNet :
        (packet : Datagram) (n : ℕ) (w : Net S Q)
        → IsNet sem mq device_id n w
        → n + 1 < 2 ^ 32
        → (w' : Net S Q) × (net_act sem mq (packet_from packet) w ≡ ok w')
          × IsNet sem mq device_id (n + 1) w'
    packet-IsNet packet n w g h =
        let c : NmCall S = record (w.rx_call) { blocks = w.blocks; addr = packet.addr } in
        let (c', b', e, read', nm', way) =
          update_addr-cases sem device_id c g.block posts g.rx_attached g.devices g.read in
        let run : update_addr sem w.receiver.device_id c ≡ ok c' =
          ap (λ (d : ℕ). update_addr sem d c) g.rx_device ∙ e in
        (
          receive_in sem mq packet w
              (record (w.receiver) { receiver = (rx (some packet) w.receiver.receiver).1 }) c',
          packet_run packet w c' run,
          elim way [
            | inl (good, nonce', addr') ↦ record {
              block = b';
              read = read';
              low = omega (arith, g.low);
              last = g.last;
              known = g.known;
              behind = omega (arith, g.behind, g.low);
              rx_attached = rw nm' g.rx_attached;
              tx_attached = g.tx_attached;
              devices = rw nm' g.devices;
              rx_device = g.rx_device;
              tx_device = g.tx_device;
              auto_config = g.auto_config;
              kept = λ a st. (
                addr' ∙ new_stored c'.ret packet.addr a w.stored good st,
                omega (arith, nonce', g.low),
              );
              synced = λ same up. absurd (omega (arith, g.behind, g.low));
            }
            | inr (bad, same) ↦ record {
              block = b';
              read = read';
              low = omega (arith, g.low, same.0);
              last = g.last;
              known = g.known;
              behind = omega (arith, g.behind, same.0);
              rx_attached = rw nm' g.rx_attached;
              tx_attached = g.tx_attached;
              devices = rw nm' g.devices;
              rx_device = g.rx_device;
              tx_device = g.tx_device;
              auto_config = g.auto_config;
              kept = λ a st.
                  let (was, up) = g.kept a (old_stored c'.ret packet.addr a w.stored bad st) in
                  (same.1 ∙ was, omega (arith, same.0));
              synced = λ eq up. g.synced (eq ∙ same.0) (omega (arith, same.0)) ∙ sym same.1;
            }
          ],
        )

    -- The world behind a transmission whose call of `get_addr` left `c'`.
    pub Fetched-IsNet :
        (n : ℕ) (w : Net S Q) (s : Sending S Q) (c c' : NmCall S) (b' : NmBlock S) (last' : ℕ)
        (g : IsNet sem mq device_id n w)
        → s.call ≡ c'
        → c.addr ≡ w.sending.call.addr
        → load c'.blocks device_id ≡ ok b'
        → Same sem g.block b'
        → IsAttached c'.nm
        → load c'.nm.last_nonces device_id ≡ ok last'
        → Fetched sem c c' g.block g.last last'
        → IsNet sem mq device_id n (record w { sending = s; blocks = s.call.blocks })
    Fetched-IsNet n w s c c' b' last' g call before read' same attached known way =
        let held : (last' ≤ b'.nonce) × (last' ≡ b'.nonce → 0 < b'.nonce → c'.addr ≡ b'.addr) =
          elim way [
            | refused _ old addr ↦ (
              omega (arith, same.0, g.behind),
              λ eq up.
                  addr
                  ∙ before
                  ∙ g.synced (omega (arith, same.0)) (omega (arith, same.0))
                  ∙ sym same.1,
            )
            | unchanged _ _ old addr ↦ (
              omega (arith, same.0, g.behind),
              λ eq up.
                  addr
                  ∙ before
                  ∙ g.synced (omega (arith, same.0)) (omega (arith, same.0))
                  ∙ sym same.1,
            )
            | copied _ new addr ↦ (omega (arith, same.0), λ eq up. addr ∙ sym same.1)
          ] in
        record {
          block = b';
          read = rw call read';
          low = omega (arith, g.low, same.0);
          last = last';
          known = rw call known;
          behind = held.0;
          rx_attached = g.rx_attached;
          tx_attached = rw call attached;
          devices = g.devices;
          rx_device = g.rx_device;
          tx_device = g.tx_device;
          auto_config = g.auto_config;
          kept = λ a st. let (was, up) = g.kept a st in (same.1 ∙ was, omega (arith, same.0));
          synced = λ eq up. ap (λ (x : NmCall S). x.addr) call ∙ held.1 eq up;
        }

  -- What `tx` makes of a message and the address that it has fetched.
  abbrev pub sent_with : Bool → List ℕ → Sending S Q → NmCall S → Sending S Q
  sent_with can_send msg s c =
      if c.addr.s_addr == 0
      then record s { ret = failure; queue = (mq.receive s.queue).1; call = c }
      else send_on sem mq can_send msg (record s { queue = (mq.receive s.queue).1; call = c })

  pub sent_with-call :
      (can_send : Bool) (msg : List ℕ) (s : Sending S Q) (c : NmCall S)
      → (sent_with can_send msg s c).call ≡ c
  sent_with-call can_send msg s c = elim (Bool-cases (c.addr.s_addr == 0)) [
    | inl none_yet ↦ rw none_yet refl
    | inr some_one ↦ elim (Bool-cases can_send) [
      | inl good ↦ rw (some_one, good) refl
      | inr bad ↦ rw (some_one, bad) refl
    ]
  ]

  pub sent_with-success :
      (can_send : Bool) (msg : List ℕ) (s : Sending S Q) (c : NmCall S)
      → (sent_with can_send msg s c).ret ≡ success
      → (sent_with can_send msg s c).sent ≡ s.sent ++ record { bytes = msg; addr = c.addr } ∷ []
  sent_with-success can_send msg s c h = elim (Bool-cases (c.addr.s_addr == 0)) [
    | inl none_yet ↦ let bad : failure ≡ success = rw none_yet at h in cc
    | inr some_one ↦ elim (Bool-cases can_send) [
      | inl good ↦ rw (some_one, good) refl
      | inr lost ↦ let bad : failure ≡ success = rw (some_one, lost) at h in cc
    ]
  ]

  pub tx-some :
      (can_send : Bool) (t : NetworkTransmitter) (s : Sending S Q) (msg : List ℕ) (c : NmCall S)
      → (mq.receive s.queue).0 ≡ some msg
      → t.auto_config ≡ true
      → get_addr sem t.device_id s.call ≡ ok c
      → tx sem mq can_send t s ≡ ok (sent_with can_send msg s c)
  unfolding tx
  tx-some can_send t s msg c received auto fetched =
      ap (send_msg sem mq can_send t (record s { queue = (mq.receive s.queue).1 })) received
      ∙ if-eq t.auto_config _ _ auto
      ∙ rw fetched refl

  pub tx-none :
      (can_send : Bool) (t : NetworkTransmitter) (s : Sending S Q)
      → (mq.receive s.queue).0 ≡ none
      → tx sem mq can_send t s ≡ ok (record s { ret = failure; queue = (mq.receive s.queue).1 })
  unfolding tx
  tx-none can_send t s received =
      ap (send_msg sem mq can_send t (record s { queue = (mq.receive s.queue).1 })) received

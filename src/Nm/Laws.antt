-- ===== src/Nm/Laws.antt =====
-- Packets and messages of a device whose address is learned from its packets.
use gsw.Prelude.{
  ℕ, suc, ◌+◌, ◌^◌, ◌<◌, ◌≡◌, refl, sym, ap, ◌∙◌, ◌⊎◌, inl, inr, Bool, some, Option-cases, List, [],
  ◌∷◌, ◌++◌, ok, length, success, failure, blocked, nochange, arith,
}
use gsw.Sem.{SemCalls}
use gsw.Nm.Blocks.{SockaddrIn, NmBlock, NmCall, get_addr}
use gsw.Nm.Sockets.{MqCalls, Sending}
use gsw.Nm.Calls.{Posts, Same, Fetched, refused, unchanged, copied, get_addr-cases}
use gsw.Nm.Net.{
  NetAct, packet_from, message_in, message_out, Net, transmit, net_act, net_acts, IsNet,
}
use gsw.Nm.Steps.{
  packet-IsNet, Fetched-IsNet, sent_with, sent_with-call, sent_with-success, tx-none, tx-some,
}

module _ {S Q : Type 0} (sem : SemCalls S) (mq : MqCalls Q) where
  module _ (posts : Posts sem) (device_id : ℕ) where
    same-IsNet :
        (n : ℕ) (w : Net S Q) (s : Sending S Q)
        → IsNet sem mq device_id n w
        → s.call.nm ≡ w.sending.call.nm
        → s.call.addr ≡ w.sending.call.addr
        → IsNet sem mq device_id n (record w { sending = s })
    same-IsNet n w s g nm addr = record {
      block = g.block;
      read = g.read;
      low = g.low;
      last = g.last;
      known = rw nm g.known;
      behind = g.behind;
      rx_attached = g.rx_attached;
      tx_attached = rw nm g.tx_attached;
      devices = g.devices;
      rx_device = g.rx_device;
      tx_device = g.tx_device;
      auto_config = g.auto_config;
      kept = g.kept;
      synced = λ eq up. addr ∙ g.synced eq up;
    }

    later-IsNet :
        (n : ℕ) (w : Net S Q) → IsNet sem mq device_id n w → IsNet sem mq device_id (n + 1) w
    later-IsNet n w g = record {
      block = g.block;
      read = g.read;
      low = omega (arith, g.low);
      last = g.last;
      known = g.known;
      behind = g.behind;
      rx_attached = g.rx_attached;
      tx_attached = g.tx_attached;
      devices = g.devices;
      rx_device = g.rx_device;
      tx_device = g.tx_device;
      auto_config = g.auto_config;
      kept = g.kept;
      synced = g.synced;
    }

    abbrev call_in : Net S Q → NmCall S
    call_in w = record (w.sending.call) { blocks = w.blocks }

    abbrev sending_in : Net S Q → Sending S Q
    sending_in w = record (w.sending) { call = call_in w }

    -- A transmission of a message.
    transmit-some :
        (can_send : Bool) (n : ℕ) (w : Net S Q) (msg : List ℕ) (g : IsNet sem mq device_id n w)
        → (mq.receive w.sending.queue).0 ≡ some msg
        → (c' : NmCall S) × (b' : NmBlock S) × (last' : ℕ) × (transmit sem mq can_send w
            ≡ ok (sent_with sem mq can_send msg (sending_in w) c'))
          × Same sem g.block b'
          × Fetched sem (call_in w) c' g.block g.last last'
          × IsNet sem mq device_id n (record w {
            sending = sent_with sem mq can_send msg (sending_in w) c';
            blocks = (sent_with sem mq can_send msg (sending_in w) c').call.blocks;
          })
    transmit-some can_send n w msg g received =
        let (c', b', last', e, read', same', attached', known', way) =
          get_addr-cases sem device_id (call_in w) g.block g.last posts g.tx_attached g.read
            g.known in
        let fetched : get_addr sem w.transmitter.device_id (call_in w) ≡ ok c' =
          ap (λ (d : ℕ). get_addr sem d (call_in w)) g.tx_device ∙ e in
        (
          c',
          b',
          last',
          tx-some sem mq can_send w.transmitter (sending_in w) msg c' received g.auto_config
              fetched,
          same',
          way,
          Fetched-IsNet sem mq posts device_id n w (sent_with sem mq can_send msg (sending_in w) c')
              (call_in w) c' b' last' g (sent_with-call sem mq can_send msg (sending_in w) c') refl
              read' same' attached' known' way,
        )

    net_act-IsNet :
        (a : NetAct) (n : ℕ) (w : Net S Q)
        → IsNet sem mq device_id n w
        → n + 1 < 2 ^ 32
        → (w' : Net S Q) × (net_act sem mq a w ≡ ok w') × IsNet sem mq device_id (n + 1) w'
    unfolding net_act
    net_act-IsNet (packet_from packet) n w g h = packet-IsNet sem mq posts device_id packet n w g h
    net_act-IsNet (message_in msg) n w g h =
        (_, refl, later-IsNet n _ (same-IsNet n w _ g refl refl))
    net_act-IsNet (message_out can_send) n w g h =
        elim (Option-cases (mq.receive w.sending.queue).0) [
          | inl none_there ↦
              let e = tx-none sem mq can_send w.transmitter (sending_in w) none_there in
              let s : Sending S Q = record (sending_in w) {
                ret = failure;
                queue = (mq.receive w.sending.queue).1;
              } in
              (
                record w { sending = s },
                rw e refl,
                later-IsNet n (record w { sending = s }) (same-IsNet n w s g refl refl),
              )
          | inr (msg, received) ↦
              let (c', b', last', e, _, _, g') = transmit-some can_send n w msg g received in
              let s : Sending S Q = sent_with sem mq can_send msg (sending_in w) c' in
              let w' : Net S Q = record w { sending = s; blocks = s.call.blocks } in
              (w', rw e refl, later-IsNet n w' g')
        ]

    net_acts-IsNet :
        (more : List NetAct) (n : ℕ) (w : Net S Q)
        → IsNet sem mq device_id n w
        → n + length more < 2 ^ 32
        → (w' : Net S Q) × (net_acts sem mq more w ≡ ok w')
          × IsNet sem mq device_id (n + length more) w'
    unfolding net_acts
    net_acts-IsNet [] n w g h = (w, refl, let same : n + 0 ≡ n = omega arith in rw same g)
    net_acts-IsNet (a ∷ more) n w g h =
        let (w₁, e₁, g₁) = net_act-IsNet a n w g (omega arith) in
        let (w₂, e₂, g₂) = net_acts-IsNet more (n + 1) w₁ g₁ (omega arith) in
        let same : n + 1 + length more ≡ n + suc (length more) = omega arith in
        (w₂, rw (e₁, e₂) refl, rw same at g₂)

    Fetched-addr :
        (n : ℕ) (w : Net S Q) (g : IsNet sem mq device_id n w) (c' : NmCall S) (last' : ℕ)
        (a : SockaddrIn)
        → Fetched sem (call_in w) c' g.block g.last last'
        → w.stored ≡ some a
        → (c'.ret ≡ success) ⊎ (c'.ret ≡ nochange)
        → c'.addr ≡ a
    Fetched-addr n w g c' last' a (refused (inl bad) _ _) st (inl good) =
        let e : blocked ≡ success = sym bad ∙ good in cc
    Fetched-addr n w g c' last' a (refused (inl bad) _ _) st (inr good) =
        let e : blocked ≡ nochange = sym bad ∙ good in cc
    Fetched-addr n w g c' last' a (refused (inr bad) _ _) st (inl good) =
        let e : failure ≡ success = sym bad ∙ good in cc
    Fetched-addr n w g c' last' a (refused (inr bad) _ _) st (inr good) =
        let e : failure ≡ nochange = sym bad ∙ good in cc
    Fetched-addr n w g c' last' a (unchanged _ same _ addr) st answered =
        let (was, up) = g.kept a st in addr ∙ g.synced (sym same) up ∙ was
    Fetched-addr n w g c' last' a (copied _ _ addr) st answered = addr ∙ (g.kept a st).0

    -- A receiver with an auto configuration and a transmitter of one device start on fresh shared
    -- memory, and packets of the device, messages to it and transmissions come in any order, fewer than
    -- 2 ^ 32 in all, with any answers of the semaphore's locks, of the queue and of the socket. (Posts of
    -- the semaphore succeed.) Then nothing is accessed out of bounds. If the queue gives a message and
    -- the transmission of it succeeds, the message is sent once, as it is, and if the call of `get_addr`
    -- was not blocked it goes to the last address that the receiver has stored, if there is one.
    pub net_acts-transmit :
        (more : List NetAct) (w₀ : Net S Q) (can_send : Bool)
        → IsNet sem mq device_id 0 w₀
        → length more < 2 ^ 32
        → (w : Net S Q) × (net_acts sem mq more w₀ ≡ ok w)
          × ((msg : List ℕ)
              → (mq.receive w.sending.queue).0 ≡ some msg
              → (s : Sending S Q) × (transmit sem mq can_send w ≡ ok s)
                × (s.ret ≡ success
                    → (s.sent ≡ w.sending.sent ++ record { bytes = msg; addr = s.call.addr } ∷ [])
                      × ((a : SockaddrIn)
                          → w.stored ≡ some a
                          → (s.call.ret ≡ success) ⊎ (s.call.ret ≡ nochange)
                          → s.call.addr ≡ a)))
    net_acts-transmit more w₀ can_send g h =
        let (w, e, g₁) = net_acts-IsNet more 0 w₀ g (omega arith) in
        (
          w,
          e,
          λ msg received.
              let (c', b', last', e', same, way, _) =
                transmit-some can_send (0 + length more) w msg g₁ received in
              (
                sent_with sem mq can_send msg (sending_in w) c',
                e',
                λ good.
                    let call = sent_with-call sem mq can_send msg (sending_in w) c' in
                    (
                      sent_with-success sem mq can_send msg (sending_in w) c' good
                          ∙ ap
                              (λ (x : NmCall S).
                                w.sending.sent ++ record { bytes = msg; addr = x.addr } ∷ [])
                              (sym call),
                      λ a st answered.
                          ap (λ (x : NmCall S). x.addr) call
                          ∙ Fetched-addr (0 + length more) w g₁ c' last' a way st
                              (rw call at answered),
                    ),
              ),
        )

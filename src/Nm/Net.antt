-- ===== src/Nm/Net.antt =====
-- A receiver and a transmitter of lib/nm for one device, with what goes in and out.
use gsw.Prelude.{
  ℕ, ◌≤◌, ◌<◌, ◌≡◌, Bool, true, Option, some, List, [], ◌∷◌, Exec, ok, ◌>>=◌, load, length,
  succeeded, if◌then◌else◌,
}
use gsw.Sem.{SemCalls}
use gsw.Nm.Blocks.{SockaddrIn, NmBlock, NmCall}
use gsw.Nm.Sockets.{
  Datagram, MqCalls, AutoNetworkReceiver, NetworkTransmitter, Sending, auto_rx, tx,
  queue_udp_message,
}
use gsw.Nm.Calls.{IsAttached}

pub data NetAct : Type 0 where
  packet_from : Datagram → NetAct
  message_in : List ℕ → NetAct
  message_out : Bool → NetAct

-- A receiver and a transmitter of a device, each in its process, with the shared memory, and the last
-- address that the receiver has stored.
pub record Net (S Q : Type 0) : Type 0 where
  pub blocks : List (NmBlock S)
  pub receiver : AutoNetworkReceiver
  pub rx_call : NmCall S
  pub transmitter : NetworkTransmitter
  pub sending : Sending S Q
  pub stored : Option SockaddrIn

module _ {S Q : Type 0} (sem : SemCalls S) (mq : MqCalls Q) where
  abbrev pub transmit : Bool → Net S Q → Exec (Sending S Q)
  transmit can_send w =
      tx sem mq can_send w.transmitter
        (record (w.sending) { call = record (w.sending.call) { blocks = w.blocks } })

  abbrev pub receive_in : Datagram → Net S Q → AutoNetworkReceiver → NmCall S → Net S Q
  receive_in packet w r c = record w {
    receiver = r;
    rx_call = c;
    blocks = c.blocks;
    stored = if succeeded c.ret then some packet.addr else w.stored;
  }

  unfoldable pub net_act : NetAct → Net S Q → Exec (Net S Q)
  unfolding auto_rx queue_udp_message
  net_act (packet_from packet) w = do
    (read, r, c) ← auto_rx sem (some packet) w.receiver (record (w.rx_call) { blocks = w.blocks })
    ok (receive_in packet w r c)
  net_act (message_in msg) w = ok (record w {
    sending = record (w.sending) {
      queue = (queue_udp_message sem mq msg (length msg) w.sending.queue).1;
    };
  })
  net_act (message_out can_send) w = do
    s ← transmit can_send w
    ok (record w { sending = s; blocks = s.call.blocks })

  unfoldable pub net_acts : List NetAct → Net S Q → Exec (Net S Q)
  unfolding net_act
  net_acts [] w = ok w
  net_acts (a ∷ more) w = net_act a w >>= net_acts more

  -- The invariant, behind at most `n` packets of the device.
  pub record IsNet (device_id n : ℕ) (w : Net S Q) : Type 0 where
    pub block : NmBlock S
    pub read : load w.blocks device_id ≡ ok block
    pub low : block.nonce ≤ n
    pub last : ℕ
    pub known : load w.sending.call.nm.last_nonces device_id ≡ ok last
    pub behind : last ≤ block.nonce
    pub rx_attached : IsAttached w.rx_call.nm
    pub tx_attached : IsAttached w.sending.call.nm
    pub devices : device_id < w.rx_call.nm.num_devices
    pub rx_device : w.receiver.device_id ≡ device_id
    pub tx_device : w.transmitter.device_id ≡ device_id
    pub auto_config : w.transmitter.auto_config ≡ true
    pub kept : (a : SockaddrIn) → w.stored ≡ some a → (block.addr ≡ a) × (0 < block.nonce)
    pub synced : last ≡ block.nonce → 0 < block.nonce → w.sending.call.addr ≡ block.addr

-- ===== src/Nm/Sockets.antt =====
-- lib/nm/src/nm.cpp: receivers, transmitters and the interface that queues messages. What the system's
-- calls on sockets and message queues answer is a parameter.
use gsw.Prelude.{
  ℕ, ◌*◌, ◌/◌, ◌%◌, Bool, true, false, ◌&&◌, Option, none, some, List, [], ◌∷◌, ◌++◌, Exec, ok, err,
  ◌>>=◌, RetType, success, failure, succeeded, ltb, ◌==◌, if◌then◌else◌, take, drop, length,
}
use gsw.Text.{Text}
use gsw.Vcm.Config.{Vcm, get_net, get_auto_net}
use gsw.Sem.{SemCalls}
use gsw.Shm.{ShmCalls}
use gsw.Nm.Blocks.{SockaddrIn, NmShm, NmCall, nm_shm_of, init, attach_nm, get_addr, update_addr}

abbrev pub max_msg_size : ℕ
max_msg_size = 2048

-- Answers of the calls that set up a socket; true is a result that is not an error. `rcv_timeout` is
-- given tv_sec and tv_usec, `bind` the port and `join` the multicast address.
pub record SocketCalls : Type 0 where
  pub socket : Option ℕ
  pub reuse_addr : Bool
  pub reuse_port : Bool
  pub rcv_timeout : ℕ → ℕ → Bool
  pub bind : ℕ → Bool
  pub join : ℕ → Bool

-- Calls on a message queue with the state `Q`. `none` is the result -1.
pub record MqCalls (Q : Type 0) : Type 0 where
  pub send : List ℕ → Q → Bool × Q
  pub receive : Q → Option (List ℕ) × Q

pub record Datagram : Type 0 where
  pub bytes : List ℕ
  pub addr : SockaddrIn

-- `inited` stays false: `init` does not set it.
pub record NetworkReceiver : Type 0 where
  pub sockfd : Option ℕ
  pub buffer_size : ℕ
  pub rx_buffer : List ℕ
  pub remote_addr : SockaddrIn

abbrev if_true : Bool → RetType × NetworkReceiver → NetworkReceiver → RetType × NetworkReceiver
if_true true next r = next
if_true false next r = (failure, r)

-- `memory` is the new receive buffer.
unfoldable pub init_receiver :
    SocketCalls → List ℕ → ℕ → ℕ → ℕ → ℕ → NetworkReceiver → RetType × NetworkReceiver
init_receiver net memory port multicast_addr rx_timeout buffer_size r =
    let r' = record r { buffer_size = buffer_size; sockfd = net.socket } in
    elim net.socket [
      | none ↦ (failure, r')
      | some fd ↦
          if_true net.reuse_addr
            (if_true net.reuse_port
              (if_true
                (if ltb 0 rx_timeout
                  then net.rcv_timeout (rx_timeout / 1000) (rx_timeout % 1000 * 1000)
                  else true)
                (if_true (net.bind port)
                  (if_true (if multicast_addr == 0 then true else net.join multicast_addr)
                    (success, record r' { rx_buffer = memory }) r')
                  r')
                r')
              r')
            r'
    ]

-- What `recvfrom` with MSG_TRUNC does with a datagram, and its result, which is none for -1.
unfoldable pub rx : Option Datagram → NetworkReceiver → Option ℕ × NetworkReceiver
rx none r = (none, r)
rx (some packet) r = (
  some (length packet.bytes),
  record r {
    rx_buffer =
        take r.buffer_size packet.bytes
        ++ drop (length (take r.buffer_size packet.bytes)) r.rx_buffer;
    remote_addr = packet.addr;
  },
)

pub record AutoNetworkReceiver : Type 0 where
  pub receiver : NetworkReceiver
  pub device_id : ℕ
  pub inited : Bool

-- A process's part of `NmShm`, with shared memory. `addr` is the address that is passed.
module _ {S : Type 0} (sem : SemCalls S) where
  unfoldable pub auto_rx :
      Option Datagram
      → AutoNetworkReceiver
      → NmCall S
      → Exec (Option ℕ × AutoNetworkReceiver × NmCall S)
  unfolding rx update_addr
  auto_rx none r c = ok (none, r, c)
  auto_rx (some packet) r c = do
    let (read, receiver) = rx (some packet) r.receiver
    c' ← update_addr sem r.device_id (record c { addr = packet.addr })
    ok (read, record r { receiver = receiver }, c')

  module _ {K : Type 0} (calls : ShmCalls K) where
    -- `NmShm` is made with its default count of blocked calls, 10.
    unfoldable pub init_auto :
        SocketCalls
        → List ℕ
        → ℕ
        → Option Text
        → Vcm
        → ℕ
        → ℕ
        → ℕ
        → ℕ
        → AutoNetworkReceiver
        → NmShm
        → K
        → Exec (RetType × AutoNetworkReceiver × NmShm × K)
    unfolding init attach_nm init_receiver
    init_auto net memory block_size home vcm port multicast_addr rx_timeout buffer_size r old
          kernel =
        if r.inited
        then ok (failure, r, old, kernel)
        else (let r' : AutoNetworkReceiver = record r {
          receiver = record (r.receiver) { buffer_size = buffer_size };
        } in
            elim (get_auto_net vcm port) [
              | none ↦ ok (failure, r', old, kernel)
              | some device ↦
                  let r'' : AutoNetworkReceiver = record r' { device_id = device.unique_id } in
                  let (made, nm) = init block_size home vcm.num_net_devices (nm_shm_of 10) in
                  if succeeded made
                  then (do
                    (found, nm', kernel') ← attach_nm calls nm kernel
                    let (ret, receiver) =
                        init_receiver net memory port multicast_addr rx_timeout buffer_size
                          (r''.receiver)
                    ok (
                        if succeeded found
                        then (ret, record r'' { receiver = receiver; inited = true }, nm', kernel')
                        else (failure, r'', nm', kernel')))
                  else ok (failure, r'', nm, kernel)
            ])

-- `mq` is whether the queue is open. `inited` stays false here too.
pub record NetworkTransmitter : Type 0 where
  pub mq : Bool
  pub sockfd : Option ℕ
  pub device_id : ℕ
  pub auto_config : Bool

-- What `tx` leaves: the queue, the process's part of `NmShm` with `dst_addr`, and what was sent.
pub record Sending (S Q : Type 0) : Type 0 where
  pub ret : RetType
  pub queue : Q
  pub call : NmCall S
  pub sent : List Datagram

module _ {S Q : Type 0} (sem : SemCalls S) (mq : MqCalls Q) where
  -- `can_send` is whether `sendto` succeeds.
  abbrev pub send_on : Bool → List ℕ → Sending S Q → Sending S Q
  send_on can_send msg s =
      if can_send
      then record s {
        ret = success;
        sent = s.sent ++ record { bytes = msg; addr = s.call.addr } ∷ [];
      }
      else record s { ret = failure }

  -- Behind `mq_receive`. An endpoint that is not learned is fixed.
  abbrev pub send_msg :
      Bool → NetworkTransmitter → Sending S Q → Option (List ℕ) → Exec (Sending S Q)
  send_msg can_send t s none = ok (record s { ret = failure })
  send_msg can_send t s (some msg) =
      if t.auto_config
      then (do
        c ← get_addr sem t.device_id s.call
        ok (
            if c.addr.s_addr == 0
            then record s { ret = failure; call = c }
            else send_on can_send msg (record s { call = c })))
      else ok (send_on can_send msg s)

  unfoldable pub tx : Bool → NetworkTransmitter → Sending S Q → Exec (Sending S Q)
  tx can_send t s =
      let (received, queue) = mq.receive s.queue in
      send_msg can_send t (record s { queue = queue }) received

  unfoldable pub queue_udp_message : List ℕ → ℕ → Q → RetType × Q
  queue_udp_message msg size queue =
      if ltb max_msg_size size
      then (failure, queue)
      else (let (good, queue') = mq.send (take size msg) queue in
          if good then (success, queue') else (failure, queue'))

-- `init(device_id)`: the address of the device is fetched once. `mq_opened` is whether `mq_open` succeeds.
unfoldable pub init_transmitter :
    {S K : Type 0}
    → SemCalls S
    → ShmCalls K
    → Bool
    → SocketCalls
    → ℕ
    → Option Text
    → Vcm
    → ℕ
    → ℕ
    → NetworkTransmitter
    → NmCall S
    → K
    → Exec (RetType × NetworkTransmitter × NmCall S × K)
unfolding init attach_nm get_addr
init_transmitter sem calls mq_opened net block_size home vcm device_id port t c kernel =
    let t₁ : NetworkTransmitter = record t { device_id = device_id; mq = mq_opened } in
    let t₂ : NetworkTransmitter = record t₁ { sockfd = net.socket } in
    let (made, nm) = init block_size home vcm.num_net_devices (nm_shm_of 10) in
    let opened : Bool = elim net.socket [ none ↦ false | some fd ↦ true ] in
    if mq_opened
    then if opened && net.reuse_addr && net.reuse_port && net.bind port
      then if succeeded made
        then (do
          (found, nm', kernel') ← attach_nm calls nm kernel
          let c₁ = record c { nm = nm' }
          if succeeded found
              then (do
                c₂ ← get_addr sem device_id c₁
                let auto : Bool = elim (get_auto_net vcm port) [
                  | none ↦ t.auto_config
                  | some device ↦ true
                ]
                ok (elim c₂.ret [
                  | failure ↦ (failure, t₂, c₂, kernel')
                  | _ ↦ (
                    success,
                    (if port == 0 then t₂ else record t₂ { auto_config = auto }),
                    c₂,
                    kernel',
                  )
                ]))
              else ok (failure, t₂, c₁, kernel'))
        else ok (failure, t₂, record c { nm = nm }, kernel)
      else ok (failure, t₂, c, kernel)
    else ok (failure, t₁, c, kernel)

-- `init(device_name)`: the device of the name, or FAILURE.
unfoldable pub device_of : Vcm → Text → Exec ℕ
unfolding get_net
device_of vcm device_name = elim (get_net vcm device_name) [
  | none ↦ err failure
  | some device ↦ ok device.unique_id
]

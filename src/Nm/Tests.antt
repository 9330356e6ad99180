-- ===== src/Nm/Tests.antt =====
-- A device that moves to another address.
use gsw.Prelude.{
  ℕ, zero, suc, ◌≡◌, refl, ◌⊎◌, true, Option, none, some, List, [], ◌∷◌, ◌++◌, ok, success,
  nochange, arith,
}
use gsw.Sem.{Answer, done, again, SemCalls}
use gsw.Shm.{Shm}
use gsw.Nm.Blocks.{SockaddrIn, NmShm, NmCall}
use gsw.Nm.Sockets.{MqCalls, Sending}
use gsw.Nm.Net.{NetAct, packet_from, message_in, message_out, Net, IsNet, transmit, net_acts}
use gsw.Nm.Laws.{net_acts-transmit}

abbrev take_one : ℕ → Answer × ℕ
take_one zero = (again, zero)
take_one (suc s) = (done, s)

abbrev sem : SemCalls ℕ
sem = record {
  size = 32;
  init = λ n s. (true, n);
  trywait = take_one;
  wait = take_one;
  timedwait = λ sec nsec. take_one;
  post = λ s. (done, suc s);
}

-- A queue as the list of its messages.
abbrev next_msg : List (List ℕ) → Option (List ℕ) × List (List ℕ)
next_msg [] = (none, [])
next_msg (msg ∷ queue) = (some msg, queue)

abbrev mq : MqCalls (List (List ℕ))
mq = record { send = λ msg queue. (true, queue ++ msg ∷ []); receive = next_msg }

abbrev address : ℕ → SockaddrIn
address n = record { sin_family = 2; sin_port = 8080; s_addr = n }

abbrev attached : Shm
attached = record { data_at = some 4096; size = 56; key_file = []; key_id = 0x54; shmid = some 1 }

abbrev nm : NmShm
nm = record { shm = some attached; last_nonces = 0 ∷ []; block_count = 10; num_devices = 1 }

abbrev call : NmCall ℕ
call = record { ret = success; nm = nm; blocked_now = none; blocks = []; addr = address 0 }

abbrev start : Net ℕ (List (List ℕ))
start = record {
  blocks = record { sem = 1; nonce = 0; addr = address 0 } ∷ [];
  receiver = record {
    receiver = record { sockfd = some 3; buffer_size = 8; rx_buffer = []; remote_addr = address 0 };
    device_id = 0;
    inited = true;
  };
  rx_call = call;
  transmitter = record { mq = true; sockfd = some 4; device_id = 0; auto_config = true };
  sending = record { ret = success; queue = []; call = call; sent = [] };
  stored = none;
}

start-IsNet : IsNet sem mq 0 0 start
start-IsNet = record {
  block = record { sem = 1; nonce = 0; addr = address 0 };
  read = refl;
  low = omega arith;
  last = 0;
  known = refl;
  behind = omega arith;
  rx_attached = (attached, 4096, refl, refl);
  tx_attached = (attached, 4096, refl, refl);
  devices = omega arith;
  rx_device = refl;
  tx_device = refl;
  auto_config = refl;
  kept = λ a st. cc;
  synced = λ same up. absurd (omega arith);
}

-- Two messages are queued; the device sends from one address and then from another.
abbrev turns : List NetAct
turns =
    packet_from (record { bytes = 1 ∷ []; addr = address 167772161 })
    ∷ message_in (7 ∷ [])
    ∷ message_in (8 ∷ 9 ∷ [])
    ∷ message_out true
    ∷ packet_from (record { bytes = 1 ∷ []; addr = address 167772162 })
    ∷ []

net_acts-transmit_example :
    (w : Net ℕ (List (List ℕ))) × (net_acts sem mq turns start ≡ ok w)
    × ((msg : List ℕ)
        → (mq.receive w.sending.queue).0 ≡ some msg
        → (s : Sending ℕ (List (List ℕ))) × (transmit sem mq true w ≡ ok s)
          × (s.ret ≡ success
              → (s.sent ≡ w.sending.sent ++ record { bytes = msg; addr = s.call.addr } ∷ [])
                × ((a : SockaddrIn)
                    → w.stored ≡ some a
                    → (s.call.ret ≡ success) ⊎ (s.call.ret ≡ nochange)
                    → s.call.addr ≡ a)))
net_acts-transmit_example =
    net_acts-transmit sem mq (λ s. refl) 0 turns start true start-IsNet (omega arith)

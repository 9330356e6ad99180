-- ===== src/Telemetry/Shm/Tests.antt =====
-- A vehicle with two packets, read and written.
use gsw.Prelude.{
  ℕ, zero, suc, ◌<◌, ◌≡◌, ◌↔◌, refl, true, false, none, some, List, [], ◌∷◌, ok, arith, get_or, mem,
  ◌&&◌, if◌then◌else◌, success, ◌^◌, ◌%◌,
}
use gsw.Vcm.Types.{PacketInfo}
use gsw.Telemetry.Shm.State.{
  Shared, TelemetryShm, blocking_read, init, create, open_shm, set_read_mode,
}
use gsw.Telemetry.Shm.Write.{write, clear}
use gsw.Telemetry.Shm.Write.Laws.{IsOpen, Published, write-Published, clear-Published}
use gsw.Telemetry.Shm.Read.{
  Round, woken, read_lock, read_loop, attempt, check_loop, note_packet, wakes,
}
use gsw.Telemetry.Shm.Read.Lock.{Locked}
use gsw.Telemetry.Shm.Read.Notes.{changed}
use gsw.Telemetry.Shm.Read.Wakes.{wakes-eq}
use gsw.Telemetry.Shm.Query.{packet_updated, update_value}
use gsw.Telemetry.Shm.Query.Laws.{
  packet_updated-Locked, write-noticed, Told, update_value-order, IsStamped,
}

abbrev packets : List PacketInfo
packets =
    record { size = 2; port = 8080; is_virtual = false }
    ∷ record { size = 1; port = 0; is_virtual = true }
    ∷ []

abbrev fresh : Shared
unfolding create
fresh = create packets

-- A reader or writer that has opened the memory.
abbrev handle : TelemetryShm
unfolding init open_shm
handle = open_shm (init packets)

abbrev blocking : TelemetryShm
unfolding init open_shm set_read_mode
blocking = set_read_mode handle blocking_read

-- Packet 1 has been written once.
abbrev written : Shared
unfolding create
written = record fresh {
  info = record (fresh.info) { nonce = 2 };
  nonces = 1 ∷ 2 ∷ [];
  packets = (0 ∷ 0 ∷ []) ∷ (7 ∷ []) ∷ [];
}

-- A reader waits in vain once, and is woken by the write.
abbrev rounds : List Round
unfolding create
rounds =
    record { shared = fresh; wait = woken; nonce_after = 2 }
    ∷ record { shared = written; wait = woken; nonce_after = 2 }
    ∷ []

-- The reader with its lock.
abbrev locked : TelemetryShm
unfolding init open_shm set_read_mode
locked = record blocking {
  last_nonce = 2;
  last_nonces = 1 ∷ 2 ∷ [];
  updated = false ∷ true ∷ [];
  read_locked = true;
  entered = 1;
}

handle-IsOpen : IsOpen handle fresh
unfolding init open_shm create
handle-IsOpen = ground arith

write_once : write handle fresh 1 (7 ∷ []) ≡ ok (written, some 2)
unfolding write init open_shm create
write_once = refl

read_once : read_lock blocking (1 ∷ 0 ∷ []) rounds ≡ ok (locked, some success)
unfolding read_lock read_loop attempt check_loop note_packet init open_shm create set_read_mode
read_once = refl

write-Published_example :
    (s' : Shared) × (write handle fresh 0 (5 ∷ 6 ∷ 9 ∷ []) ≡ ok (s', some 1))
    × Published handle fresh s' 0 (5 ∷ 6 ∷ [])
unfolding init open_shm create
write-Published_example =
    write-Published handle fresh 0 (5 ∷ 6 ∷ 9 ∷ []) handle-IsOpen (omega arith) (omega arith)

clear-Published_example :
    (s' : Shared) × (clear handle fresh 0 3 ≡ ok (s', none))
    × Published handle fresh s' 0 (3 ∷ 3 ∷ [])
unfolding init open_shm create
clear-Published_example = clear-Published handle fresh 0 3 handle-IsOpen (omega arith)

-- A reader of packet 5 alone is not woken by a write of packet 5.
missed_wake : wakes (5 ∷ []) (2 ^ (5 % 32)) ≡ false
unfolding wakes
missed_wake = refl

wakes-eq_example : wakes (5 ∷ []) (2 ^ (5 % 32)) ≡ false
wakes-eq_example = wakes-eq (5 ∷ []) 5 (omega arith)

locked-last :
    (j : ℕ)
    → get_or locked.last_nonces j 0
      ≡ (if mem j (1 ∷ 0 ∷ []) then get_or written.nonces j 0 else get_or blocking.last_nonces j 0)
unfolding init open_shm create set_read_mode
locked-last zero = refl
locked-last (suc zero) = refl
locked-last (suc (suc j)) = ground arith

locked-marks :
    (j : ℕ) → get_or locked.updated j false ≡ (mem j (1 ∷ 0 ∷ []) && changed written blocking j)
unfolding init open_shm create set_read_mode
locked-marks zero = refl
locked-marks (suc zero) = refl
locked-marks (suc (suc j)) = ground arith

locked-Locked : Locked (1 ∷ 0 ∷ []) written blocking locked
unfolding init open_shm create set_read_mode
locked-Locked = record {
  locked = refl;
  nonce = refl;
  last = locked-last;
  marks = locked-marks;
  news = refl;
  sized = record { nonces = refl; last = refl; updated = refl };
  rest = refl;
}

fresh-IsStamped : IsStamped fresh
unfolding create
fresh-IsStamped zero = omega arith
fresh-IsStamped (suc zero) = omega arith
fresh-IsStamped (suc (suc j)) = omega arith

written-IsStamped : IsStamped written
unfolding create
written-IsStamped zero = omega arith
written-IsStamped (suc zero) = omega arith
written-IsStamped (suc (suc j)) = omega arith

packet_updated-Locked_example : packet_updated locked written 0 ≡ ok true
unfolding init open_shm create set_read_mode
packet_updated-Locked_example =
    packet_updated-Locked (1 ∷ 0 ∷ []) written blocking locked 0 locked-Locked refl (omega arith)
      (omega arith) (omega arith)

write-noticed_example :
    (s' : Shared) × (t' : TelemetryShm) × (write handle fresh 1 (7 ∷ [])
      ≡ ok (s', some (2 ^ (1 % 32))))
    × (read_lock blocking (1 ∷ 0 ∷ []) (record { shared = s'; wait = woken; nonce_after = 2 } ∷ [])
        ≡ ok (t', some success))
    × Told t' (1 ∷ 0 ∷ []) 1
unfolding init open_shm create set_read_mode
write-noticed_example =
    write-noticed handle blocking fresh 1 (7 ∷ []) (1 ∷ 0 ∷ []) woken 2 [] handle-IsOpen
      (omega arith) (omega arith) fresh-IsStamped (omega arith)
      (record { nonces = refl; last = refl; updated = refl }) refl refl refl (omega arith)
      (omega arith) refl

update_value-order_example :
    (v : ℕ) × (w : ℕ) × (update_value locked 0 ≡ ok v)
    × (update_value locked 1 ≡ ok w)
    × ((v < w) ↔ (2 < 1))
unfolding init open_shm create set_read_mode
update_value-order_example =
    update_value-order (1 ∷ 0 ∷ []) written blocking locked 0 1 written-IsStamped (omega arith)
      locked-Locked refl refl (omega arith) (omega arith) (omega arith) (omega arith)

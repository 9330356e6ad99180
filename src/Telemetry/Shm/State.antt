-- ===== src/Telemetry/Shm/State.antt =====
-- The shared memory of a vehicle, and the object that a process accesses it with
-- (include/lib/telemetry/TelemetryShm.h), with the operations that set them up.
use gsw.Prelude.{ℕ, Bool, true, false, List, map, ◌%◌, ◌^◌, length, replicate}
use gsw.Vcm.Types.{PacketInfo}

-- `shm_info_t`. A semaphore is its value.
pub record ShmInfo : Type 0 where
  pub nonce : ℕ
  pub readers : ℕ
  pub writers : ℕ
  pub rmutex : ℕ
  pub wmutex : ℕ
  pub read_try : ℕ
  pub resource : ℕ

-- The blocks behind `master_block`, `info_blocks`, `packet_blocks` and `write_locks`.
pub record Shared : Type 0 where
  pub info : ShmInfo
  pub open info use *
  pub nonces : List ℕ
  pub packets : List (List ℕ)
  pub write_locks : List ℕ

pub data ReadMode : Type 0 where
  standard_read blocking_read nonblocking_read : ReadMode

-- `initialised` says that the arrays of blocks are not NULL, `attached` that the `data` of the
-- blocks is not. `entered` is no member: it says how often `readers` counts the object in shared memory,
-- as a reader that has entered and not left again.
pub record TelemetryShm : Type 0 where
  pub initialised : Bool
  pub attached : Bool
  pub num_packets : ℕ
  pub read_mode : ReadMode
  pub last_nonce : ℕ
  pub last_nonces : List ℕ
  pub updated : List Bool
  pub read_locked : Bool
  pub locked_packets : List Bool
  pub entered : ℕ

-- A uint32_t.
abbrev pub u32 : ℕ → ℕ
u32 n = n % 2 ^ 32

-- The constructor, and `init(VCM*)`, of a configuration with these packets; its `num_packets` is their
-- number.
unfoldable pub init : List PacketInfo → TelemetryShm
init packets = record {
  initialised = true;
  attached = false;
  num_packets = length packets;
  read_mode = standard_read;
  last_nonce = 1;
  last_nonces = replicate (length packets) 1;
  updated = replicate (length packets) false;
  read_locked = false;
  locked_packets = replicate (length packets) false;
  entered = 0;
}

-- `create()`, when no call of the system fails. The system fills a new block with zeros.
unfoldable pub create : List PacketInfo → Shared
create packets = record {
  info = record {
    nonce = 1;
    readers = 0;
    writers = 0;
    rmutex = 1;
    wmutex = 1;
    read_try = 1;
    resource = 1;
  };
  nonces = map (λ _. 1) packets;
  packets = map (λ p. replicate p.size 0) packets;
  write_locks = map (λ _. 1) packets;
}

-- `open()` and `close()`, when every block can be attached and detached.
unfoldable pub open_shm : TelemetryShm → TelemetryShm
open_shm t = record t { attached = true }

unfoldable pub close_shm : TelemetryShm → TelemetryShm
close_shm t = record t { attached = false }

unfoldable pub set_read_mode : TelemetryShm → ReadMode → TelemetryShm
set_read_mode t mode = record t { read_mode = mode }

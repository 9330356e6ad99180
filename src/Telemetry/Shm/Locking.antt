-- ===== src/Telemetry/Shm/Locking.antt =====
-- The semaphores of `write`, `clear`, `read_lock` and `read_unlock` in
-- lib/telemetry/src/TelemetryShm.cpp, with any number of processes interleaved in any order. A
-- step is one access to shared memory. Calls of the semaphores do not fail.
pub mod Counts
pub mod Roles
pub mod Invariant
pub mod Safety
pub mod Progress
pub mod Interrupted
mod Tests
use gsw.Prelude.{
  ℕ, suc, ◌+◌, ◌-◌, ◌^◌, ◌<◌, ◌≡◌, Option, none, some, List, ◌==◌, if◌then◌else◌, set,
}
use gsw.Telemetry.Shm.State.{Shared, ShmInfo, u32}
use Counts.{change}

-- What a writer does next.
pub data WriteStage : Type 0 where
  wait_wmutex count_writer first_writer free_wmutex : WriteStage
  wait_resource copy advance_nonce stamp wake free_resource : WriteStage
  rewait_wmutex uncount_writer last_writer refree_wmutex : WriteStage

-- What a reader does next. In `holding` it has the lock, and `read_unlock` is the next call.
pub data ReadStage : Type 0 where
  wait_read_try wait_rmutex count_reader first_reader free_rmutex free_read_try : ReadStage
  check_nonce : ReadStage
  holding uncount_reader last_reader refree_rmutex : ReadStage

-- The `read_lock` of a list of packets, and that of all.
pub data ReadCall : Type 0 where
  of_list of_all : ReadCall

-- A writer carries the packet's id and the new content of its block. A call that has returned
-- INTERRUPTED at master nonce 0 stays `interrupted`: it goes on to be counted, whatever its caller does
-- next, which is another process of the family.
pub data Process : Type 0 where
  idle : Process
  writer : WriteStage → ℕ → List ℕ → Process
  reader : ReadCall → ReadStage → Process
  interrupted : Process

-- A change of the master block.
abbrev pub with_info : Shared → ShmInfo → Shared
with_info m info = record m { info = info }

abbrev pub pred32 : ℕ → ℕ
pred32 n = u32 (n + (2 ^ 32 - 1))

-- The next step of a writer; none if it waits for a semaphore.
unfoldable pub write_step : Shared → WriteStage → ℕ → List ℕ → Option (Shared × Process)
write_step m wait_wmutex id block =
    if m.wmutex == 0
    then none
    else some
        (with_info m (record (m.info) { wmutex = m.wmutex - 1 }), writer count_writer id block)
write_step m count_writer id block =
    some (
      with_info m (record (m.info) { writers = u32 (m.writers + 1) }),
      writer first_writer id block,
    )
write_step m first_writer id block =
    if m.writers == 1
    then if m.read_try == 0
      then none
      else some
          (with_info m (record (m.info) { read_try = m.read_try - 1 }), writer free_wmutex id block)
    else some (m, writer free_wmutex id block)
write_step m free_wmutex id block =
    some (with_info m (record (m.info) { wmutex = m.wmutex + 1 }), writer wait_resource id block)
write_step m wait_resource id block =
    if m.resource == 0
    then none
    else some (with_info m (record (m.info) { resource = m.resource - 1 }), writer copy id block)
write_step m copy id block =
    some (record m { packets = set m.packets id block }, writer advance_nonce id block)
write_step m advance_nonce id block =
    some (with_info m (record (m.info) { nonce = u32 (m.nonce + 1) }), writer stamp id block)
write_step m stamp id block =
    some (record m { nonces = set m.nonces id m.nonce }, writer wake id block)
write_step m wake id block = some (m, writer free_resource id block)
write_step m free_resource id block =
    some
      (with_info m (record (m.info) { resource = m.resource + 1 }), writer rewait_wmutex id block)
write_step m rewait_wmutex id block =
    if m.wmutex == 0
    then none
    else some
        (with_info m (record (m.info) { wmutex = m.wmutex - 1 }), writer uncount_writer id block)
write_step m uncount_writer id block =
    some (with_info m (record (m.info) { writers = pred32 m.writers }), writer last_writer id block)
write_step m last_writer id block =
    if m.writers == 0
    then some
        (with_info m (record (m.info) { read_try = m.read_try + 1 }), writer refree_wmutex id block)
    else some (m, writer refree_wmutex id block)
write_step m refree_wmutex id block =
    some (with_info m (record (m.info) { wmutex = m.wmutex + 1 }), idle)

-- The next step of a reader. What it does while it holds the lock is in `Read`.
unfoldable pub read_step : Shared → ReadCall → ReadStage → Option (Shared × Process)
read_step m call wait_read_try =
    if m.read_try == 0
    then none
    else some (with_info m (record (m.info) { read_try = m.read_try - 1 }), reader call wait_rmutex)
read_step m call wait_rmutex =
    if m.rmutex == 0
    then none
    else some (with_info m (record (m.info) { rmutex = m.rmutex - 1 }), reader call count_reader)
read_step m call count_reader =
    some (with_info m (record (m.info) { readers = u32 (m.readers + 1) }), reader call first_reader)
read_step m call first_reader =
    if m.readers == 1
    then if m.resource == 0
      then none
      else some
          (with_info m (record (m.info) { resource = m.resource - 1 }), reader call free_rmutex)
    else some (m, reader call free_rmutex)
read_step m call free_rmutex =
    some (with_info m (record (m.info) { rmutex = m.rmutex + 1 }), reader call free_read_try)
read_step m call free_read_try =
    some (with_info m (record (m.info) { read_try = m.read_try + 1 }), reader call check_nonce)
read_step m of_list check_nonce =
    some (m, (if m.nonce == 0 then interrupted else reader of_list holding))
read_step m of_all check_nonce = some (m, reader of_all holding)
read_step m call holding =
    if m.rmutex == 0
    then none
    else some (with_info m (record (m.info) { rmutex = m.rmutex - 1 }), reader call uncount_reader)
read_step m call uncount_reader =
    some (with_info m (record (m.info) { readers = pred32 m.readers }), reader call last_reader)
read_step m call last_reader =
    if m.readers == 0
    then some
        (with_info m (record (m.info) { resource = m.resource + 1 }), reader call refree_rmutex)
    else some (m, reader call refree_rmutex)
read_step m call refree_rmutex =
    some (with_info m (record (m.info) { rmutex = m.rmutex + 1 }), idle)

abbrev pub advance : Shared → Process → Option (Shared × Process)
advance m idle = none
advance m (writer stage id block) = write_step m stage id block
advance m (reader call stage) = read_step m call stage
advance m interrupted = none

-- Shared memory and `n` processes over it.
pub record System : Type 0 where
  pub mem : Shared
  pub process : ℕ → Process

pub data Step (n : ℕ) (s : System) : System → Type 0 where
  begin_write :
      (i id : ℕ) (block : List ℕ)
      → i < n
      → s.process i ≡ idle
      → Step n s (record s { process = change s.process i (writer wait_wmutex id block) })
  begin_read :
      (i : ℕ) (call : ReadCall)
      → i < n
      → s.process i ≡ idle
      → Step n s (record s { process = change s.process i (reader call wait_read_try) })
  move :
      (i : ℕ) {m : Shared} {p : Process}
      → i < n
      → advance s.mem (s.process i) ≡ some (m, p)
      → Step n s (record { mem = m; process = change s.process i p })

-- Every process starts idle, over memory that `create` made.
abbrev pub start_system : Shared → System
start_system m = record { mem = m; process = λ _. idle }

pub data Reach (n : ℕ) (m : Shared) : System → Type 0 where
  here : Reach n m (start_system m)
  next : {s t : System} → Reach n m s → Step n s t → Reach n m t

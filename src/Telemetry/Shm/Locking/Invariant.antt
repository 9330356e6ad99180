-- ===== src/Telemetry/Shm/Locking/Invariant.antt =====
-- The invariant of the semaphores is true at the start and kept by every step.
use gsw.Prelude.{ℕ, ◌+◌, ◌^◌, ◌≤◌, ◌<◌, ◌≡◌, refl, some, List, arith, ◌⊎◌, inl, inr}
use gsw.Vcm.Types.{PacketInfo}
use gsw.Telemetry.Shm.State.{Shared, create}
use gsw.Telemetry.Shm.Locking.Counts.{change, tally, tally-change, le-tally, tally-eq-zero}
use gsw.Telemetry.Shm.Locking.{
  WriteStage, wait_wmutex, ReadCall, of_list, of_all, ReadStage, wait_read_try, check_nonce,
  interrupted, Process, idle, writer, reader, write_step, read_step, advance, System, Step,
  begin_write, begin_read, move, Reach, here, next,
}
use gsw.Telemetry.Shm.Locking.Roles.{
  in_wmutex, at_first_writer, at_last_writer, bars_readers, counted_writer, writes, in_rmutex,
  in_read_try, at_first_reader, at_last_reader, counted_reader, reads, Inv, Balanced, balanced,
}

-- One process goes from `p` to `p'`.
record Moved (n : ℕ) (f g : ℕ → Process) (p p' : Process) : Type 0 where
  in_wmutex_moved : tally in_wmutex n g + in_wmutex p ≡ tally in_wmutex n f + in_wmutex p'
  in_rmutex_moved : tally in_rmutex n g + in_rmutex p ≡ tally in_rmutex n f + in_rmutex p'
  in_read_try_moved : tally in_read_try n g + in_read_try p ≡ tally in_read_try n f + in_read_try p'
  bars_moved : tally bars_readers n g + bars_readers p ≡ tally bars_readers n f + bars_readers p'
  writers_moved :
      tally counted_writer n g + counted_writer p ≡ tally counted_writer n f + counted_writer p'
  readers_moved :
      tally counted_reader n g + counted_reader p ≡ tally counted_reader n f + counted_reader p'
  writes_moved : tally writes n g + writes p ≡ tally writes n f + writes p'
  reads_moved : tally reads n g + reads p ≡ tally reads n f + reads p'
  a_writer : counted_writer p ≤ tally counted_writer n f
  a_reader : counted_reader p ≤ tally counted_reader n f
  a_first_writer : at_first_writer p ≤ tally at_first_writer n f
  a_first_reader : at_first_reader p ≤ tally at_first_reader n f
  a_last_writer : at_last_writer p ≤ tally at_last_writer n f
  a_last_reader : at_last_reader p ≤ tally at_last_reader n f
  before : Balanced n f
  after : Balanced n g

moved :
    (n : ℕ) (f : ℕ → Process) (i : ℕ) (p' : Process) → i < n → Moved n f (change f i p') (f i) p'
moved n f i p' h = record {
  in_wmutex_moved = tally-change in_wmutex n f i p' h;
  in_rmutex_moved = tally-change in_rmutex n f i p' h;
  in_read_try_moved = tally-change in_read_try n f i p' h;
  bars_moved = tally-change bars_readers n f i p' h;
  writers_moved = tally-change counted_writer n f i p' h;
  readers_moved = tally-change counted_reader n f i p' h;
  writes_moved = tally-change writes n f i p' h;
  reads_moved = tally-change reads n f i p' h;
  a_writer = le-tally counted_writer n f i h;
  a_reader = le-tally counted_reader n f i h;
  a_first_writer = le-tally at_first_writer n f i h;
  a_first_reader = le-tally at_first_reader n f i h;
  a_last_writer = le-tally at_last_writer n f i h;
  a_last_reader = le-tally at_last_reader n f i h;
  before = balanced n f;
  after = balanced n (change f i p');
}

module _ {n : ℕ} {f g : ℕ → Process} (m m' : Shared) (p' : Process) where
  write_step-Inv :
      (stage : WriteStage) (id : ℕ) (block : List ℕ)
      → Moved n f g (writer stage id block) p'
      → Inv n m f
      → write_step m stage id block ≡ some (m', p')
      → Inv n m' g
  unfolding write_step
  write_step-Inv wait_wmutex id block c v e = ground arith
  write_step-Inv stage id block c v e = ground arith

  read_step-Inv :
      (call : ReadCall) (stage : ReadStage)
      → Moved n f g (reader call stage) p'
      → Inv n m f
      → read_step m call stage ≡ some (m', p')
      → Inv n m' g
  unfolding read_step
  read_step-Inv of_list check_nonce c v e = ground arith
  read_step-Inv of_all check_nonce c v e = ground arith
  read_step-Inv call wait_read_try c v e = ground arith
  read_step-Inv call stage c v e = ground arith

advance-Inv :
    {n : ℕ} {f g : ℕ → Process} (m m' : Shared) (p p' : Process)
    → Moved n f g p p'
    → Inv n m f
    → advance m p ≡ some (m', p')
    → Inv n m' g
advance-Inv m m' idle p' c v e = cc
advance-Inv m m' (writer stage id block) p' c v e = write_step-Inv m m' p' stage id block c v e
advance-Inv m m' (reader call stage) p' c v e = read_step-Inv m m' p' call stage c v e
advance-Inv m m' interrupted p' c v e = cc

begin-Inv :
    {n : ℕ} {f g : ℕ → Process} (m : Shared) (p p' : Process)
    → Moved n f g p p'
    → p ≡ idle
    → ((call : ReadCall) × (p' ≡ reader call wait_read_try))
      ⊎ ((id : ℕ) × (block : List ℕ) × (p' ≡ writer wait_wmutex id block))
    → Inv n m f
    → Inv n m g
begin-Inv m p p' c e q v = ground arith

-- Every step of every process keeps the counts and the semaphores in agreement.
pub Step-Inv : {n : ℕ} {s t : System} → Step n s t → Inv n s.mem s.process → Inv n t.mem t.process
Step-Inv {n} {s} (begin_write i id block h e) v =
    begin-Inv s.mem (s.process i) _ (moved n s.process i (writer wait_wmutex id block) h) e
      (inr (id, block, refl)) v
Step-Inv {n} {s} (begin_read i call h e) v =
    begin-Inv s.mem (s.process i) _ (moved n s.process i (reader call wait_read_try) h) e
      (inl (call, refl)) v
Step-Inv {n} {s} (move i {m} {p} h e) v =
    advance-Inv s.mem m (s.process i) p (moved n s.process i p h) v e

tally-idle : (w : Process → ℕ) (n : ℕ) → w idle ≡ 0 → tally w n (λ _. idle) ≡ 0
tally-idle w n h = tally-eq-zero w n (λ _. idle) (λ _. h)

-- Memory whose semaphores nobody holds.
pub record IsFree (m : Shared) : Type 0 where
  pub wmutex : m.wmutex ≡ 1
  pub rmutex : m.rmutex ≡ 1
  pub read_try : m.read_try ≡ 1
  pub resource : m.resource ≡ 1
  pub writers : m.writers ≡ 0
  pub readers : m.readers ≡ 0

pub IsFree-Inv : (n : ℕ) (m : Shared) → n < 2 ^ 32 → IsFree m → Inv n m (λ _. idle)
IsFree-Inv n m h v = ground (
  arith,
  v.wmutex,
  v.rmutex,
  v.read_try,
  v.resource,
  v.writers,
  v.readers,
  tally-idle in_wmutex n refl,
  tally-idle in_rmutex n refl,
  tally-idle in_read_try n refl,
  tally-idle bars_readers n refl,
  tally-idle counted_writer n refl,
  tally-idle counted_reader n refl,
  tally-idle writes n refl,
  tally-idle reads n refl,
)

create-IsFree : (packets : List PacketInfo) → IsFree (create packets)
unfolding create
create-IsFree packets = record {
  wmutex = refl;
  rmutex = refl;
  read_try = refl;
  resource = refl;
  writers = refl;
  readers = refl;
}

pub Reach-Inv_from :
    {n : ℕ} {m : Shared} {s : System} → Inv n m (λ _. idle) → Reach n m s → Inv n s.mem s.process
Reach-Inv_from v here = v
Reach-Inv_from v (next r st) = Step-Inv st (Reach-Inv_from v r)

-- It holds in every state that is reached from memory made by `create`.
pub Reach-Inv :
    {n : ℕ} (packets : List PacketInfo) {s : System}
    → n < 2 ^ 32
    → Reach n (create packets) s
    → Inv n s.mem s.process
Reach-Inv {n} packets h r =
    Reach-Inv_from (IsFree-Inv n (create packets) h (create-IsFree packets)) r

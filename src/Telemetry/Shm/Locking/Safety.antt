-- ===== src/Telemetry/Shm/Locking/Safety.antt =====
-- What readers and writers may rely on while they hold the lock.
use gsw.Prelude.{ℕ, ◌^◌, ◌<◌, ◌≡◌, ◌≢◌, refl, ap, some, none, List, arith}
use gsw.Vcm.Types.{PacketInfo}
use gsw.Telemetry.Shm.State.{Shared, create}
use gsw.Telemetry.Shm.Locking.Counts.{le-tally, le-tally-two}
use gsw.Telemetry.Shm.Locking.Roles.{writes, reads, bars_readers}
use gsw.Telemetry.Shm.Locking.Invariant.{Reach-Inv}
use gsw.Telemetry.Shm.Locking.{
  WriteStage, wait_wmutex, ReadCall, of_list, of_all, ReadStage, wait_read_try, check_nonce,
  holding, interrupted, Process, idle, writer, reader, write_step, read_step, advance, System, Step,
  begin_write, begin_read, move, Reach,
}

-- With fewer than 2 ^ 32 processes over memory that `create` made: in every reachable state, while
-- a process writes the packets and nonces, no other process does and no reader holds the lock.
pub write_excludes :
    {n : ℕ} (packets : List PacketInfo) {s : System}
    → n < 2 ^ 32
    → Reach n (create packets) s
    → (i j : ℕ) → i < n
    → j < n
    → writes (s.process i) ≡ 1
    → i ≢ j
    → (writes (s.process j) ≡ 0) × (reads (s.process j) ≡ 0)
write_excludes {n} packets {s} h r i j hi hj w d =
    let v = Reach-Inv packets h r in
    (
      omega (arith, v.resource, le-tally-two writes n s.process i j hi hj d),
      omega (arith, v.resource, le-tally writes n s.process i hi, le-tally reads n s.process j hj),
    )

-- What a reader looks at: the packets, their nonces and the master nonce.
pub record SameView (m m' : Shared) : Type 0 where
  pub packets : m'.packets ≡ m.packets
  pub nonces : m'.nonces ≡ m.nonces
  pub nonce : m'.nonce ≡ m.nonce

write_step-SameView :
    (m m' : Shared) (p : Process) (stage : WriteStage) (id : ℕ) (block : List ℕ)
    → writes (writer stage id block) ≡ 0
    → write_step m stage id block ≡ some (m', p)
    → SameView m m'
unfolding write_step
write_step-SameView m m' p wait_wmutex id block w e = ground arith
write_step-SameView m m' p stage id block w e = ground arith

read_step-SameView :
    (m m' : Shared) (p : Process) (call : ReadCall) (stage : ReadStage)
    → read_step m call stage ≡ some (m', p)
    → SameView m m'
unfolding read_step
read_step-SameView m m' p of_list check_nonce e = ground arith
read_step-SameView m m' p of_all check_nonce e = ground arith
read_step-SameView m m' p call wait_read_try e = ground arith
read_step-SameView m m' p call stage e = ground arith

advance-SameView :
    (m m' : Shared) (q p : Process) → writes q ≡ 0 → advance m q ≡ some (m', p) → SameView m m'
advance-SameView m m' idle p w e = cc
advance-SameView m m' (writer stage id block) p w e = write_step-SameView m m' p stage id block w e
advance-SameView m m' (reader call stage) p w e = read_step-SameView m m' p call stage e
advance-SameView m m' interrupted p w e = cc

-- With fewer than 2 ^ 32 processes over memory that `create` made: while a reader holds the lock,
-- no step of any process changes a packet, a packet's nonce or the master nonce.
pub held_view_stable :
    {n : ℕ} (packets : List PacketInfo) {s t : System}
    → n < 2 ^ 32
    → Reach n (create packets) s
    → (j : ℕ) (call : ReadCall) → j < n
    → s.process j ≡ reader call holding
    → Step n s t
    → SameView s.mem t.mem
held_view_stable packets h r j call hj e (begin_write i id block hi ei) = record {
  packets = refl;
  nonces = refl;
  nonce = refl;
}
held_view_stable packets h r j call hj e (begin_read i of hi ei) = record {
  packets = refl;
  nonces = refl;
  nonce = refl;
}
held_view_stable {n} packets {s} h r j call hj e (move i {m} {p} hi ei) =
    let v = Reach-Inv packets h r in
    let holds : reads (s.process j) ≡ 1 = ap reads e in
    advance-SameView s.mem m (s.process i) p
      (omega (arith, v.resource, le-tally writes n s.process i hi, le-tally reads n s.process j hj))
      ei

-- With fewer than 2 ^ 32 processes over memory that `create` made, writers go first: once a writer
-- has passed the first one's wait for `readTry`, and until the last one is done, a reader that is
-- about to enter waits.
pub writers_first :
    {n : ℕ} (packets : List PacketInfo) {s : System}
    → n < 2 ^ 32
    → Reach n (create packets) s
    → (i : ℕ) (call : ReadCall) → i < n
    → bars_readers (s.process i) ≡ 1
    → advance s.mem (reader call wait_read_try) ≡ none
unfolding read_step
writers_first {n} packets {s} h r i call hi b =
    let v = Reach-Inv packets h r in
    let closed : s.mem.read_try ≡ 0 =
      omega (arith, v.read_try, le-tally bars_readers n s.process i hi) in
    rw closed refl

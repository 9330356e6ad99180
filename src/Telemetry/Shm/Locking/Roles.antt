-- ===== src/Telemetry/Shm/Locking/Roles.antt =====
-- What a process holds at each of its steps, and the invariant that counts it.
use Prim.Native.Nat.{min}
use gsw.Prelude.{ℕ, ◌+◌, ◌^◌, ◌≤◌, ◌<◌, ◌≡◌, arith}
use gsw.Telemetry.Shm.State.{Shared}
use gsw.Telemetry.Shm.Locking.Counts.{tally, tally-le, tally-balance, tally-sum-le}
use gsw.Telemetry.Shm.Locking.{
  wait_wmutex, count_writer, first_writer, free_wmutex, copy, advance_nonce, stamp, wake,
  free_resource, uncount_writer, last_writer, refree_wmutex, wait_rmutex, count_reader,
  first_reader, free_rmutex, free_read_try, check_nonce, holding, uncount_reader, last_reader,
  refree_rmutex, Process, writer, reader, interrupted,
}

-- A process holds `wmutex`.
abbrev pub in_wmutex : Process → ℕ
in_wmutex (writer count_writer _ _) = 1
in_wmutex (writer first_writer _ _) = 1
in_wmutex (writer free_wmutex _ _) = 1
in_wmutex (writer uncount_writer _ _) = 1
in_wmutex (writer last_writer _ _) = 1
in_wmutex (writer refree_wmutex _ _) = 1
in_wmutex _ = 0

abbrev pub at_first_writer : Process → ℕ
at_first_writer (writer first_writer _ _) = 1
at_first_writer _ = 0

abbrev pub at_last_writer : Process → ℕ
at_last_writer (writer last_writer _ _) = 1
at_last_writer _ = 0

-- A writer for which the writers together keep `readTry` taken.
abbrev pub bars_readers : Process → ℕ
bars_readers (writer wait_wmutex _ _) = 0
bars_readers (writer count_writer _ _) = 0
bars_readers (writer first_writer _ _) = 0
bars_readers (writer refree_wmutex _ _) = 0
bars_readers (writer _ _ _) = 1
bars_readers _ = 0

-- A writer that `writers` counts.
abbrev pub counted_writer : Process → ℕ
counted_writer (writer wait_wmutex _ _) = 0
counted_writer (writer count_writer _ _) = 0
counted_writer (writer last_writer _ _) = 0
counted_writer (writer refree_wmutex _ _) = 0
counted_writer (writer _ _ _) = 1
counted_writer _ = 0

-- A writer that holds `resource`.
abbrev pub writes : Process → ℕ
writes (writer copy _ _) = 1
writes (writer advance_nonce _ _) = 1
writes (writer stamp _ _) = 1
writes (writer wake _ _) = 1
writes (writer free_resource _ _) = 1
writes _ = 0

abbrev pub in_rmutex : Process → ℕ
in_rmutex (reader _ count_reader) = 1
in_rmutex (reader _ first_reader) = 1
in_rmutex (reader _ free_rmutex) = 1
in_rmutex (reader _ uncount_reader) = 1
in_rmutex (reader _ last_reader) = 1
in_rmutex (reader _ refree_rmutex) = 1
in_rmutex _ = 0

-- A reader that holds `readTry`.
abbrev pub in_read_try : Process → ℕ
in_read_try (reader _ wait_rmutex) = 1
in_read_try (reader _ count_reader) = 1
in_read_try (reader _ first_reader) = 1
in_read_try (reader _ free_rmutex) = 1
in_read_try (reader _ free_read_try) = 1
in_read_try _ = 0

abbrev pub at_first_reader : Process → ℕ
at_first_reader (reader _ first_reader) = 1
at_first_reader _ = 0

abbrev pub at_last_reader : Process → ℕ
at_last_reader (reader _ last_reader) = 1
at_last_reader _ = 0

-- A reader that `readers` counts.
abbrev pub counted_reader : Process → ℕ
counted_reader (reader _ first_reader) = 1
counted_reader (reader _ free_rmutex) = 1
counted_reader (reader _ free_read_try) = 1
counted_reader (reader _ check_nonce) = 1
counted_reader (reader _ holding) = 1
counted_reader interrupted = 1
counted_reader (reader _ uncount_reader) = 1
counted_reader _ = 0

-- A reader for which the readers together keep `resource` taken.
abbrev pub reads : Process → ℕ
reads (reader _ free_rmutex) = 1
reads (reader _ free_read_try) = 1
reads (reader _ check_nonce) = 1
reads (reader _ holding) = 1
reads interrupted = 1
reads (reader _ uncount_reader) = 1
reads (reader _ last_reader) = 1
reads _ = 0

pub record Inv (n : ℕ) (m : Shared) (f : ℕ → Process) : Type 0 where
  pub few : n < 2 ^ 32
  pub wmutex : m.wmutex + tally in_wmutex n f ≡ 1
  pub rmutex : m.rmutex + tally in_rmutex n f ≡ 1
  pub writers : m.writers ≡ tally counted_writer n f
  pub readers : m.readers ≡ tally counted_reader n f
  pub read_try : m.read_try + tally in_read_try n f + min 1 (tally bars_readers n f) ≡ 1
  pub resource : m.resource + tally writes n f + min 1 (tally reads n f) ≡ 1

-- What holds of the counts of any family.
pub record Balanced (n : ℕ) (f : ℕ → Process) : Type 0 where
  pub writers :
      tally counted_writer n f + tally at_last_writer n f
      ≡ tally bars_readers n f + tally at_first_writer n f
  pub writer_ends : tally at_first_writer n f + tally at_last_writer n f ≤ tally in_wmutex n f
  pub readers :
      tally counted_reader n f + tally at_last_reader n f
      ≡ tally reads n f + tally at_first_reader n f
  pub reader_ends : tally at_first_reader n f + tally at_last_reader n f ≤ tally in_rmutex n f
  pub few_writers : tally counted_writer n f ≤ n
  pub few_readers : tally counted_reader n f ≤ n

pub balanced : (n : ℕ) (f : ℕ → Process) → Balanced n f
balanced n f = record {
  writers =
      tally-balance counted_writer at_last_writer bars_readers at_first_writer (λ p. ground arith) n
        f;
  writer_ends = tally-sum-le at_first_writer at_last_writer in_wmutex (λ p. ground arith) n f;
  readers =
      tally-balance counted_reader at_last_reader reads at_first_reader (λ p. ground arith) n f;
  reader_ends = tally-sum-le at_first_reader at_last_reader in_rmutex (λ p. ground arith) n f;
  few_writers = tally-le counted_writer (λ p. ground arith) n f;
  few_readers = tally-le counted_reader (λ p. ground arith) n f;
}

-- ===== src/Sem.antt =====
-- Semaphores of the system, as lib/vlock and lib/nm use them.
use gsw.Prelude.{ℕ, Bool}

-- The result 0 of a call on a semaphore, or its errno: EAGAIN, ETIMEDOUT, another.
pub data Answer : Type 0 where
  done again timed_out broken : Answer

-- The calls on a semaphore, a `S`, that the source uses, and sizeof(sem_t). A call that waits is given
-- the semaphore as it is when the call returns. `timedwait` is given tv_sec and tv_nsec.
pub record SemCalls (S : Type 0) : Type 0 where
  pub size : ℕ
  pub init : ℕ → S → Bool × S
  pub trywait : S → Answer × S
  pub wait : S → Answer × S
  pub timedwait : ℕ → ℕ → S → Answer × S
  pub post : S → Answer × S

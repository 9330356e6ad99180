-- ===== src/Vlock.antt =====
-- lib/vlock/src/vlock.cpp: locks of the vehicle's resources, semaphores in shared memory.
pub mod World
pub mod Guarded
pub mod Laws
mod Tests
use gsw.Prelude.{
  ℕ, zero, suc, ◌+◌, ◌*◌, ◌/◌, ◌%◌, ◌^◌, Bool, true, false, Option, none, some, List, [], ◌∷◌, ◌++◌,
  Exec, ok, ◌>>=◌, load, store, succeeded, RetType, success, failure, locked, leb, ◌==◌,
  if◌then◌else◌,
}
use gsw.Sem.{Answer, done, again, timed_out, broken, SemCalls}
use gsw.Text.{Text, codes}
use gsw.Shm.{ShmCalls, Shm, shm_of, Done, create, attach, destroy}

abbrev pub num_resources : ℕ
num_resources = 2

abbrev pub vlock_key : ℕ
vlock_key = 0x57

-- The library's shared memory below GSW_HOME.
unfoldable pub vlock_shm : {S : Type 0} → SemCalls S → Text → Shm
unfolding shm_of
vlock_shm sem home =
    shm_of (home ++ codes "/" ++ codes "lib/bin/libvlock.so") vlock_key (sem.size * num_resources)

-- What a call leaves: `locks` of the process, the semaphores in shared memory, and the kernel.
pub record Vlock (S K : Type 0) : Type 0 where
  pub ret : RetType
  pub locks : Option ℕ
  pub sems : List S
  pub kernel : K

module _ {S : Type 0} (sem : SemCalls S) where
  -- The loop of INIT. It ends at the first failure.
  unfoldable pub init_loop : List S → Bool × List S
  init_loop [] = (true, [])
  init_loop (s ∷ sems) =
      let (inited, s') = sem.init 1 s in
      let (rest, sems') = init_loop sems in
      if inited then (rest, s' ∷ sems') else (false, s' ∷ sems)

  module _ {K : Type 0} (calls : ShmCalls K) where
    unfoldable pub create_shm : Option Text → Vlock S K → Vlock S K
    unfolding vlock_shm create attach init_loop
    create_shm none v = record v { ret = failure }
    create_shm (some home) v =
        let made = create calls (vlock_shm sem home) v.kernel in
        let found = attach calls made.shm made.kernel in
        let (inited, sems) = init_loop v.sems in
        if succeeded made.ret
        then if succeeded found.ret
          then record {
            ret = if inited then success else failure;
            locks = found.shm.data_at;
            sems = sems;
            kernel = found.kernel;
          }
          else record v { ret = failure; kernel = found.kernel }
        else record v { ret = failure; kernel = made.kernel }

    unfoldable pub destroy_shm : Option Text → Vlock S K → Vlock S K
    unfolding vlock_shm attach destroy
    destroy_shm none v = record v { ret = failure }
    destroy_shm (some home) v =
        let found = attach calls (vlock_shm sem home) v.kernel in
        let gone = destroy calls found.shm found.kernel in
        if succeeded found.ret
        then record v {
          ret = if succeeded gone.ret then success else failure;
          kernel = gone.kernel;
        }
        else record v { ret = failure; kernel = found.kernel }

    unfoldable pub init : Option Text → Vlock S K → Vlock S K
    unfolding vlock_shm attach
    init none v = record v { ret = failure }
    init (some home) v =
        let found = attach calls (vlock_shm sem home) v.kernel in
        if succeeded found.ret
        then record v { ret = success; locks = found.shm.data_at; kernel = found.kernel }
        else record v { ret = failure; kernel = found.kernel }

-- What try_lock, lock and unlock return for an answer.
abbrev pub try_result : Answer → RetType
try_result done = success
try_result again = locked
try_result _ = failure

abbrev pub timed_result : Answer → RetType
timed_result done = success
timed_result timed_out = locked
timed_result _ = failure

abbrev pub plain_result : Answer → RetType
plain_result done = success
plain_result _ = failure

module _ {S : Type 0} where
  -- A call on locks[resource], behind the tests of `locks` and of the resource.
  unfoldable pub on_sem :
      (S → Answer × S) → (Answer → RetType) → Option ℕ → ℕ → List S → Exec (RetType × List S)
  on_sem call result none resource sems = ok (failure, sems)
  on_sem call result (some locks) resource sems =
      if leb num_resources resource then ok (failure, sems) else (do
        s ← load sems resource
        let (answer, s') = call s
        sems' ← store sems resource s'
        ok (result answer, sems'))

  unfoldable pub try_lock : SemCalls S → Option ℕ → ℕ → List S → Exec (RetType × List S)
  unfolding on_sem
  try_lock sem locks resource sems = on_sem sem.trywait try_result locks resource sems

  -- `now` is systime(), the time in milliseconds modulo 2 ^ 32.
  unfoldable pub lock : SemCalls S → Option ℕ → ℕ → ℕ → ℕ → List S → Exec (RetType × List S)
  unfolding on_sem
  lock sem locks resource wait now sems =
      if wait == 0
      then on_sem sem.wait plain_result locks resource sems
      else on_sem
          (sem.timedwait ((now + wait) % 2 ^ 32 / 1000) ((now + wait) % 2 ^ 32 % 1000 * 1000000))
          timed_result locks resource sems

  unfoldable pub unlock : SemCalls S → Option ℕ → ℕ → List S → Exec (RetType × List S)
  unfolding on_sem
  unlock sem locks resource sems = on_sem sem.post plain_result locks resource sems

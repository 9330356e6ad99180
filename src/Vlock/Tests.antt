-- ===== src/Vlock/Tests.antt =====
-- Two processes and one resource.
use gsw.Prelude.{
  ℕ, zero, suc, ◌≡◌, refl, sym, ap, subst, Bool, true, Option, none, some, List, [], ◌∷◌, ok,
  success, one_result,
}
use gsw.Text.{codes}
use gsw.Shm.{ShmCalls}
use gsw.Sem.{Answer, done, again, timed_out, broken, SemCalls}
use gsw.Vlock.{Vlock, create_shm, try_lock}
use gsw.Vlock.World.{
  Taken, IsSem, Act, try_lock_by, lock_by, unlock_by, World, act, acts, Allowed, holders_of,
}
use gsw.Vlock.Laws.{IsExclusive, created, acts-IsExclusive}

-- A semaphore that is its value. Who waits for one that is 0 is interrupted, or out of time.
abbrev take : Answer → ℕ → Answer × ℕ
take answer zero = (answer, zero)
take answer (suc s) = (done, s)

abbrev sem : SemCalls ℕ
sem = record {
  size = 32;
  init = λ n s. (true, n);
  trywait = take again;
  wait = take broken;
  timedwait = λ sec nsec. take timed_out;
  post = λ s. (done, suc s);
}

take-Taken :
    (b : Answer)
    → Taken (λ n. n) 0 0 b
    → (s s' : ℕ) (a : Answer) → take b s ≡ (a, s')
    → Taken (λ n. n) s s' a
take-Taken b none_left zero s' a h =
    subst (λ (o : Answer × ℕ). Taken (λ n. n) 0 o.1 o.0) h none_left
take-Taken b none_left (suc s) s' a h =
    subst (λ (o : Answer × ℕ). Taken (λ n. n) (suc s) o.1 o.0) h refl

take-again : (s s' : ℕ) → take again s ≡ (again, s') → s ≡ 0
take-again zero s' h = refl
take-again (suc s) s' h = let other : done ≡ again = ap (λ (o : Answer × ℕ). o.0) h in cc

sem-IsSem : IsSem sem (λ n. n)
sem-IsSem = record {
  inited = λ n s s' h. ap (λ (o : Bool × ℕ). o.1) (sym h);
  tried = take-Taken again refl;
  waited = take-Taken broken refl;
  timed = λ sec nsec. take-Taken timed_out refl;
  again = take-again;
  posted = λ s s' a h. subst (λ (o : Answer × ℕ). Taken (λ n. n) o.1 s o.0) h refl;
}

-- A kernel of one segment, whose state is the number of attachments.
abbrev kernel_calls : ShmCalls ℕ
kernel_calls = record {
  ftok = λ file id k. some id;
  shmget = λ key size new k. (some 1, k);
  shmat = λ id k. (some 4096, suc k);
  shmdt = λ address k. (true, k);
  lock_pages = λ id k. k;
  remove = λ id k. (true, k);
}

abbrev home : Option (List ℕ)
home = some (codes "/opt/gsw")

abbrev fresh : Vlock ℕ ℕ
fresh = record { ret = success; locks = none; sems = 5 ∷ 9 ∷ []; kernel = 0 }

abbrev attached : ℕ → Option ℕ
attached p = some 4096

abbrev start : World ℕ
start = created (1 ∷ 1 ∷ []) attached

-- Process 1 locks the first resource, process 2 tries it, and process 1 unlocks it.
abbrev turns : List Act
turns = try_lock_by 1 0 ∷ try_lock_by 2 0 ∷ unlock_by 1 0 ∷ []

abbrev held_by_1 : World ℕ
held_by_1 = record { locks = attached; sems = 0 ∷ 1 ∷ []; holders = (1 ∷ []) ∷ [] ∷ [] }

turns-Allowed : Allowed sem turns start
unfolding Allowed gsw.Vlock.World.MayAct act try_lock gsw.Vlock.on_sem
turns-Allowed = (
  _,
  λ w₁ e₁. (
    _,
    λ w₂ e₂.
        let same₁ : held_by_1 ≡ w₁ = one_result (ok held_by_1) held_by_1 w₁ refl e₁ in
        let e₂' : ok held_by_1 ≡ ok w₂ = rw (sym same₁) at e₂ in
        let same₂ : held_by_1 ≡ w₂ = one_result (ok held_by_1) held_by_1 w₂ refl e₂' in
        (rw⁻¹ same₂ refl, λ w₃ e₃. _),
  ),
)

acts-IsExclusive_example :
    (w : World ℕ) × (acts sem turns (created (create_shm sem kernel_calls home fresh).sems attached)
      ≡ ok w)
    × IsExclusive sem w
unfolding create_shm gsw.Vlock.vlock_shm gsw.Shm.create gsw.Shm.attach gsw.Shm.shm_of
    gsw.Vlock.init_loop
acts-IsExclusive_example =
    acts-IsExclusive sem (λ n. n) sem-IsSem kernel_calls home fresh attached turns refl refl
      turns-Allowed

-- ===== src/Vlock/World.antt =====
-- Processes that lock and unlock the resources, and what is documented of semaphores.
use gsw.Prelude.{
  succeeded, ℕ, suc, ◌≡◌, true, Option, List, [], ◌∷◌, Exec, ok, ◌>>=◌, set, get_or, RetType, mem,
  ◌==◌, if◌then◌else◌,
}
use gsw.Sem.{Answer, done, again, SemCalls}
use gsw.Vlock.{try_lock, lock, unlock}

-- A call took one from a semaphore, if its answer says so.
abbrev pub Taken : {S : Type 0} → (S → ℕ) → S → S → Answer → Type 0
Taken value s s' done = value s ≡ suc (value s')
Taken value s s' _ = value s ≡ value s'

-- What is documented of semaphores with the value `value`. A call that is not done leaves the value.
pub record IsSem {S : Type 0} (sem : SemCalls S) (value : S → ℕ) : Type 0 where
  pub inited : (n : ℕ) (s s' : S) → sem.init n s ≡ (true, s') → value s' ≡ n
  pub tried : (s s' : S) (a : Answer) → sem.trywait s ≡ (a, s') → Taken value s s' a
  pub waited : (s s' : S) (a : Answer) → sem.wait s ≡ (a, s') → Taken value s s' a
  pub timed :
      (sec nsec : ℕ) (s s' : S) (a : Answer)
      → sem.timedwait sec nsec s ≡ (a, s')
      → Taken value s s' a
  pub again : (s s' : S) → sem.trywait s ≡ (again, s') → value s ≡ 0
  pub posted : (s s' : S) (a : Answer) → sem.post s ≡ (a, s') → Taken value s' s a

pub data Act : Type 0 where
  try_lock_by : ℕ → ℕ → Act
  lock_by : ℕ → ℕ → ℕ → ℕ → Act
  unlock_by : ℕ → ℕ → Act

-- The processes' `locks`, the semaphores, and for each resource the processes that have locked it.
pub record World (S : Type 0) : Type 0 where
  pub locks : ℕ → Option ℕ
  pub sems : List S
  pub holders : List (List ℕ)

abbrev pub leave : ℕ → List ℕ → List ℕ
leave p [] = []
leave p (q ∷ qs) = if q == p then qs else q ∷ leave p qs

abbrev pub holders_of : {S : Type 0} → ℕ → World S → List ℕ
holders_of r w = get_or w.holders r []

-- A call's result, with the new holders of the resource if it was SUCCESS.
abbrev pub settle : {S : Type 0} → ℕ → List ℕ → World S → RetType × List S → World S
settle r held w (ret, sems) = record w {
  sems = sems;
  holders = if succeeded ret then set w.holders r held else w.holders;
}

module _ {S : Type 0} (sem : SemCalls S) where
  -- A process's call, for a number of a process and of a resource.
  unfoldable pub act : Act → World S → Exec (World S)
  unfolding try_lock lock unlock
  act (try_lock_by p r) w = do
    out ← try_lock sem (w.locks p) r w.sems
    ok (settle r (p ∷ holders_of r w) w out)
  act (lock_by p r wait now) w = do
    out ← lock sem (w.locks p) r wait now w.sems
    ok (settle r (p ∷ holders_of r w) w out)
  act (unlock_by p r) w = do
    out ← unlock sem (w.locks p) r w.sems
    ok (settle r (leave p (holders_of r w)) w out)

  unfoldable pub acts : List Act → World S → Exec (World S)
  unfolding act
  acts [] w = ok w
  acts (a ∷ more) w = act a w >>= acts more

  -- Only a process that has locked a resource unlocks it.
  unfoldable pub MayAct : Act → World S → Type 0
  MayAct (unlock_by p r) w = mem p (holders_of r w) ≡ true
  MayAct _ w = Unit

  unfoldable pub Allowed : List Act → World S → Type 0
  unfolding MayAct
  Allowed [] w = Unit
  Allowed (a ∷ more) w = MayAct a w × ((w' : World S) → act a w ≡ ok w' → Allowed more w')

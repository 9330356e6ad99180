-- ===== src/Vlock/Laws.antt =====
-- Mutual exclusion of the processes that use lib/vlock.
use gsw.Prelude.{
  ℕ, zero, suc, ◌+◌, ◌<◌, ◌≤◌, ◌≡◌, ◌≢◌, refl, sym, ap, Bool, true, false, Option, none, some, List,
  [], ◌∷◌, ok, set, length, replicate, RetType, success, failure, locked, leb, arith, ◌⊎◌, inl, inr,
  one_result, Bool-cases, Option-cases, store-eq,
}
use gsw.Text.{Text}
use gsw.Shm.{ShmCalls}
use gsw.Sem.{Answer, done, again, timed_out, broken, SemCalls}
use gsw.Vlock.{Vlock, num_resources, create_shm, init_loop, on_sem, try_lock, try_result}
use gsw.Vlock.World.{IsSem, Act, World, holders_of, acts, Allowed}
use gsw.Vlock.Guarded.{Guarded, IsGuarded, acts-IsGuarded, load-Guarded}

length-nil : (held : List ℕ) → length held ≡ 0 → held ≡ []
length-nil [] h = refl
length-nil (p ∷ held) h = absurd (omega arith)

module _ {S : Type 0} where
  -- The vehicle library is created, and no process holds a resource.
  abbrev pub created : List S → (ℕ → Option ℕ) → World S
  created sems locks = record { locks = locks; sems = sems; holders = [] ∷ [] ∷ [] }

  module _ (sem : SemCalls S) where
    init_loop-Guarded :
        (value : S → ℕ) (laws : IsSem sem value) (sems : List S) (n : ℕ)
        → length sems ≡ n
        → (init_loop sem sems).0 ≡ true
        → Guarded sem value (init_loop sem sems).1 (replicate n [])
          × (length (init_loop sem sems).1 ≡ n)
    unfolding init_loop
    init_loop-Guarded value laws [] zero l h = (_, refl)
    init_loop-Guarded value laws [] (suc n) l h = absurd (omega arith)
    init_loop-Guarded value laws (s ∷ sems) zero l h = absurd (omega arith)
    init_loop-Guarded value laws (s ∷ sems) (suc n) l h = elim (Bool-cases (sem.init 1 s).0) [
      | inl inited ↦
          let rest = init_loop-Guarded value laws sems n (omega arith) (rw inited at h) in
          let one : value (sem.init 1 s).1 ≡ 1 =
            laws.inited 1 s (sem.init 1 s).1 (ap (λ (b : Bool). (b, (sem.init 1 s).1)) inited) in
          rw inited ((omega arith, rest.0), ap suc rest.1)
      | inr not ↦ let no : false ≡ true = rw not at h in cc
    ]

    module _ {K : Type 0} (calls : ShmCalls K) where
      create_shm-init_loop :
          (home : Option Text) (v : Vlock S K)
          → (create_shm sem calls home v).ret ≡ success
          → ((init_loop sem v.sems).0 ≡ true)
            × ((create_shm sem calls home v).sems ≡ (init_loop sem v.sems).1)
      unfolding create_shm
      create_shm-init_loop none v h = cc
      create_shm-init_loop (some home) v h = ground arith

  -- What mutual exclusion means for a state of the world.
  pub record IsExclusive (sem : SemCalls S) (w : World S) : Type 0 where
    pub one_holder : (r : ℕ) → r < num_resources → length (holders_of r w) ≤ 1
    pub held :
        (r p : ℕ) (sems : List S)
        → r < num_resources
        → holders_of r w ≢ []
        → try_lock sem (w.locks p) r w.sems ≢ ok (success, sems)
    pub free :
        (r p : ℕ) (sems : List S)
        → r < num_resources
        → holders_of r w ≡ []
        → try_lock sem (w.locks p) r w.sems ≢ ok (locked, sems)

  module _ (sem : SemCalls S) (value : S → ℕ) (laws : IsSem sem value) where
    -- A try fails, or does what the semaphore answers.
    try_lock-cases :
        (w : World S) (r p : ℕ) (ret : RetType) (sems : List S)
        → IsGuarded sem value w
        → r < num_resources
        → try_lock sem (w.locks p) r w.sems ≡ ok (ret, sems)
        → (ret ≡ failure)
          ⊎ ((s : S) × (value s + length (holders_of r w) ≡ 1)
              × (try_result (sem.trywait s).0 ≡ ret))
    unfolding try_lock on_sem
    try_lock-cases w r p ret sems g h e =
        let (s, read, n) =
          load-Guarded sem value w.sems w.holders r g.guarded (omega (arith, g.size)) in
        let stored = store-eq w.sems r (sem.trywait s).1 (omega (arith, g.size)) in
        let small : leb num_resources r ≡ false = ground arith in
        elim (Option-cases (w.locks p)) [
          | inl null ↦
              let same =
                one_result (ok (failure, w.sems)) (failure, w.sems) (ret, sems) refl
                  (rw null at e) in
              inl (ap (λ (o : RetType × List S). o.0) (sym same))
          | inr (l, there) ↦
              let sems' : List S = set w.sems r (sem.trywait s).1 in
              let answer : RetType = try_result (sem.trywait s).0 in
              let run : try_lock sem (w.locks p) r w.sems ≡ ok (answer, sems') =
                rw (there, small, read, stored) refl in
              let same =
                one_result (try_lock sem (w.locks p) r w.sems) (answer, sems') (ret, sems) run e in
              inr (s, n, ap (λ (o : RetType × List S). o.0) same)
        ]

    try_result-success : (a : Answer) → try_result a ≡ success → a ≡ done
    try_result-success done h = refl
    try_result-success again h = cc
    try_result-success timed_out h = cc
    try_result-success broken h = cc

    try_result-locked : (a : Answer) → try_result a ≡ locked → a ≡ again
    try_result-locked done h = cc
    try_result-locked again h = refl
    try_result-locked timed_out h = cc
    try_result-locked broken h = cc

    -- The semaphore's answer, with its new state.
    answered : (s : S) (a : Answer) → (sem.trywait s).0 ≡ a → sem.trywait s ≡ (a, (sem.trywait s).1)
    answered s a h = ap (λ (x : Answer). (x, (sem.trywait s).1)) h

    IsGuarded-IsExclusive : (w : World S) → IsGuarded sem value w → IsExclusive sem w
    IsGuarded-IsExclusive w g = record {
      one_holder = λ r h.
          let (s, read, n) =
            load-Guarded sem value w.sems w.holders r g.guarded (omega (arith, g.size)) in
          omega arith;
      held = λ r p sems h some_one e. elim (try_lock-cases w r p success sems g h e) [
        | inl bad ↦ let bad' : success ≡ failure = bad in cc
        | inr (s, n, same) ↦
            let taken : value s ≡ suc (value (sem.trywait s).1) =
              laws.tried s (sem.trywait s).1 done
                (answered s done (try_result-success (sem.trywait s).0 same)) in
            some_one (length-nil (holders_of r w) (omega arith))
      ];
      free = λ r p sems h nobody e. elim (try_lock-cases w r p locked sems g h e) [
        | inl bad ↦ let bad' : locked ≡ failure = bad in cc
        | inr (s, n, same) ↦
            let zero_left : value s ≡ 0 =
              laws.again s (sem.trywait s).1
                (answered s again (try_result-locked (sem.trywait s).0 same)) in
            absurd (omega (arith, ap length nobody))
      ];
    }

    module _ {K : Type 0} (calls : ShmCalls K) where
      -- A process creates the shared memory of the vehicle's locks with `create_shm`, and any processes
      -- then call `try_lock`, `lock` and `unlock` in any order, for any resources and with any answers
      -- that semaphores may give; a process only unlocks a resource that it has locked. Then nothing is
      -- accessed out of bounds, a resource is locked by at most one process at a time, a `try_lock` of a resource that
      -- is locked does not succeed, and one of a resource that is not locked does not answer LOCKED.
      pub acts-IsExclusive :
          (home : Option Text) (v : Vlock S K) (locks : ℕ → Option ℕ) (more : List Act)
          → length v.sems ≡ num_resources
          → (create_shm sem calls home v).ret ≡ success
          → Allowed sem more (created (create_shm sem calls home v).sems locks)
          → (w : World S) × (acts sem more (created (create_shm sem calls home v).sems locks)
              ≡ ok w)
            × IsExclusive sem w
      acts-IsExclusive home v locks more l h may =
          let (all, same) = create_shm-init_loop sem calls home v h in
          let (g, size) = init_loop-Guarded sem value laws v.sems 2 l all in
          let (w, e, g') =
            acts-IsGuarded sem value laws more (created (create_shm sem calls home v).sems locks)
              may (rw same (record { size = size; guarded = g })) in
          (w, e, IsGuarded-IsExclusive w g')

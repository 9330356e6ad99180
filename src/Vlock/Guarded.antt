-- ===== src/Vlock/Guarded.antt =====
-- The semaphores count the processes that hold the resources.
use gsw.Prelude.{
  succeeded, ℕ, zero, suc, ◌+◌, ◌*◌, ◌/◌, ◌%◌, ◌^◌, ◌<◌, ◌≡◌, refl, ap, ◌∙◌, Bool, true, false,
  Option, none, some, List, [], ◌∷◌, ok, ◌>>=◌, load, store, set, get_or, length, RetType, failure,
  mem, leb, ◌==◌, if◌then◌else◌, arith, inl, inr, Bool-cases,
}
use gsw.Sem.{Answer, done, again, timed_out, broken, SemCalls}
use gsw.Vlock.{
  num_resources, on_sem, try_lock, lock, unlock, try_result, timed_result, plain_result,
}
use gsw.Vlock.World.{
  Taken, IsSem, Act, try_lock_by, lock_by, unlock_by, World, leave, holders_of, settle, act, acts,
  MayAct, Allowed,
}

module _ {S : Type 0} (sem : SemCalls S) (value : S → ℕ) where
  -- Each semaphore counts the free places of its resource, which has one.
  abbrev pub Guarded : List S → List (List ℕ) → Type 0
  Guarded [] [] = Unit
  Guarded (s ∷ sems) (held ∷ holders) = (value s + length held ≡ 1) × Guarded sems holders
  Guarded _ _ = zero ≡ 1

  pub load-Guarded :
      (sems : List S) (holders : List (List ℕ)) (r : ℕ)
      → Guarded sems holders
      → r < length sems
      → (s : S) × (load sems r ≡ ok s) × (value s + length (get_or holders r []) ≡ 1)
  load-Guarded [] holders r g h = absurd (omega arith)
  load-Guarded (s ∷ sems) [] r g h = absurd (omega (arith, g))
  load-Guarded (s ∷ sems) (held ∷ holders) zero g h = (s, refl, g.0)
  load-Guarded (s ∷ sems) (held ∷ holders) (suc r) g h =
      load-Guarded sems holders r g.1 (omega arith)

  store-Guarded :
      (sems : List S) (holders : List (List ℕ)) (r : ℕ) (s : S) (held : List ℕ)
      → Guarded sems holders
      → r < length sems
      → value s + length held ≡ 1
      → (sems' : List S) × (store sems r s ≡ ok sems')
        × Guarded sems' (set holders r held)
        × (length sems' ≡ length sems)
  store-Guarded [] holders r s held g h e = absurd (omega arith)
  store-Guarded (s₁ ∷ sems) [] r s held g h e = absurd (omega (arith, g))
  store-Guarded (s₁ ∷ sems) (held₁ ∷ holders) zero s held g h e = (s ∷ sems, refl, (e, g.1), refl)
  store-Guarded (s₁ ∷ sems) (held₁ ∷ holders) (suc r) s held g h e =
      let (sems', f, g', l) = store-Guarded sems holders r s held g.1 (omega arith) e in
      (s₁ ∷ sems', rw f refl, (g.0, g'), ap suc l)

  -- What a call does to the semaphore of a resource that `n` processes hold, and `n'` if it succeeds.
  abbrev Keeps : (S → Answer × S) → (Answer → RetType) → ℕ → ℕ → Type 0
  Keeps call result n n' =
      (s s' : S) (a : Answer)
      → call s ≡ (a, s')
      → value s + n ≡ 1
      → value s' + (if succeeded (result a) then n' else n) ≡ 1

  set-get_or : (holders : List (List ℕ)) (r : ℕ) → set holders r (get_or holders r []) ≡ holders
  set-get_or [] r = refl
  set-get_or (held ∷ holders) zero = refl
  set-get_or (held ∷ holders) (suc r) =
      ap (λ (hs : List (List ℕ)). held ∷ hs) (set-get_or holders r)

  set-if :
      (b : Bool) (holders : List (List ℕ)) (r : ℕ) (held : List ℕ)
      → set holders r (if b then held else get_or holders r [])
        ≡ (if b then set holders r held else holders)
  set-if true holders r held = refl
  set-if false holders r held = set-get_or holders r

  length-if :
      (b : Bool) (xs ys : List ℕ)
      → length (if b then xs else ys) ≡ (if b then length xs else length ys)
  length-if true xs ys = refl
  length-if false xs ys = refl

  -- An invariant of the world: every semaphore is there, and counts.
  pub record IsGuarded (w : World S) : Type 0 where
    pub size : length w.sems ≡ num_resources
    pub guarded : Guarded w.sems w.holders

  on_sem-IsGuarded :
      (call : S → Answer × S) (result : Answer → RetType) (locks : Option ℕ) (r : ℕ) (held : List ℕ)
      (w : World S)
      → Keeps call result (length (holders_of r w)) (length held)
      → IsGuarded w
      → (w' : World S) × ((on_sem call result locks r w.sems >>= λ out. ok (settle r held w out))
          ≡ ok w')
        × IsGuarded w'
  unfolding on_sem
  on_sem-IsGuarded call result none r held w keeps g =
      (settle r held w (failure, w.sems), refl, record { size = g.size; guarded = g.guarded })
  on_sem-IsGuarded call result (some l) r held w keeps g = elim (Bool-cases (leb num_resources r)) [
    | inl big ↦ (
      settle r held w (failure, w.sems),
      rw big refl,
      record { size = g.size; guarded = g.guarded },
    )
    | inr small ↦
        let inside : r < length w.sems = ground (arith, g.size) in
        let (s, read, n) = load-Guarded w.sems w.holders r g.guarded inside in
        let a : Answer = (call s).0 in
        let held' : List ℕ = if succeeded (result a) then held else holders_of r w in
        let count : value (call s).1 + length held' ≡ 1 =
          ap (λ (x : ℕ). value (call s).1 + x)
            (length-if (succeeded (result a)) held (holders_of r w))
          ∙ keeps s (call s).1 a refl n in
        let (sems', stored, g', l') =
          store-Guarded w.sems w.holders r (call s).1 held' g.guarded inside count in
        (
          settle r held w (result a, sems'),
          rw (small, read, stored) refl,
          record {
            size = l' ∙ g.size;
            guarded = rw (set-if (succeeded (result a)) w.holders r held) at g';
          },
        )
  ]

  abbrev is_done : Answer → Bool
  is_done done = true
  is_done _ = false

  count_down :
      (a : Answer) (s s' : S) (n : ℕ)
      → Taken value s s' a
      → value s + n ≡ 1
      → value s' + (if is_done a then suc n else n) ≡ 1
  count_down done s s' n t h = omega arith
  count_down again s s' n t h = omega arith
  count_down timed_out s s' n t h = omega arith
  count_down broken s s' n t h = omega arith

  count_up :
      (a : Answer) (s s' : S) (n n' : ℕ)
      → n ≡ suc n'
      → Taken value s' s a
      → value s + n ≡ 1
      → value s' + (if is_done a then n' else n) ≡ 1
  count_up done s s' n n' e t h = omega arith
  count_up again s s' n n' e t h = omega arith
  count_up timed_out s s' n n' e t h = omega arith
  count_up broken s s' n n' e t h = omega arith

  Taken-Keeps :
      (call : S → Answer × S) (result : Answer → RetType)
      → ((s s' : S) (a : Answer) → call s ≡ (a, s') → Taken value s s' a)
      → ((a : Answer) → succeeded (result a) ≡ is_done a)
      → (n : ℕ) → Keeps call result n (suc n)
  Taken-Keeps call result taken same n s s' a e h =
      rw (same a) (count_down a s s' n (taken s s' a e) h)

  length-leave :
      (p : ℕ) (held : List ℕ) → mem p held ≡ true → length held ≡ suc (length (leave p held))
  length-leave p [] h = cc
  length-leave p (q ∷ qs) h = elim (Bool-cases (q == p)) [
    | inl same ↦ rw same refl
    | inr other ↦ rw other (ap suc (length-leave p qs (rw other at h)))
  ]

  try_done : (a : Answer) → succeeded (try_result a) ≡ is_done a
  try_done done = refl
  try_done again = refl
  try_done timed_out = refl
  try_done broken = refl

  timed_done : (a : Answer) → succeeded (timed_result a) ≡ is_done a
  timed_done done = refl
  timed_done again = refl
  timed_done timed_out = refl
  timed_done broken = refl

  plain_done : (a : Answer) → succeeded (plain_result a) ≡ is_done a
  plain_done done = refl
  plain_done again = refl
  plain_done timed_out = refl
  plain_done broken = refl

  module _ (laws : IsSem sem value) where
    act-IsGuarded :
        (a : Act) (w : World S)
        → MayAct sem a w
        → IsGuarded w
        → (w' : World S) × (act sem a w ≡ ok w') × IsGuarded w'
    unfolding act MayAct try_lock lock unlock
    act-IsGuarded (try_lock_by p r) w may g =
        on_sem-IsGuarded sem.trywait try_result (w.locks p) r (p ∷ holders_of r w) w
          (Taken-Keeps sem.trywait try_result laws.tried try_done (length (holders_of r w))) g
    act-IsGuarded (lock_by p r wait now) w may g = elim (Bool-cases (wait == 0)) [
      | inl forever ↦ rw forever (
          on_sem-IsGuarded sem.wait plain_result (w.locks p) r (p ∷ holders_of r w) w
            (Taken-Keeps sem.wait plain_result laws.waited plain_done (length (holders_of r w))) g)
      | inr timed ↦
          let sec : ℕ = (now + wait) % 2 ^ 32 / 1000 in
          let nsec : ℕ = (now + wait) % 2 ^ 32 % 1000 * 1000000 in
          rw timed (
            on_sem-IsGuarded (sem.timedwait sec nsec) timed_result (w.locks p) r
              (p ∷ holders_of r w) w
              (Taken-Keeps (sem.timedwait sec nsec) timed_result (laws.timed sec nsec) timed_done
                (length (holders_of r w)))
              g)
    ]
    act-IsGuarded (unlock_by p r) w may g =
        on_sem-IsGuarded sem.post plain_result (w.locks p) r (leave p (holders_of r w)) w
          (λ s s' a e h. rw (plain_done a) (
            count_up a s s' (length (holders_of r w)) (length (leave p (holders_of r w)))
              (length-leave p (holders_of r w) may) (laws.posted s s' a e) h))
          g

    pub acts-IsGuarded :
        (more : List Act) (w : World S)
        → Allowed sem more w
        → IsGuarded w
        → (w' : World S) × (acts sem more w ≡ ok w') × IsGuarded w'
    unfolding acts Allowed
    acts-IsGuarded [] w may g = (w, refl, g)
    acts-IsGuarded (a ∷ more) w may g =
        let (w₁, e, g₁) = act-IsGuarded a w may.0 g in
        let (w₂, f, g₂) = acts-IsGuarded more w₁ (may.1 w₁ e) g₁ in (w₂, rw (e, f) refl, g₂)

-- ===== src/Telemetry/Shm/Locking/Interrupted.antt =====
-- What is left of a `read_lock` that returns INTERRUPTED at master nonce 0.
use gsw.Prelude.{ℕ, ◌^◌, ◌<◌, ◌≡◌, ◌≢◌, refl, ap, sym, ◌∙◌, some, none, List, arith}
use gsw.Telemetry.Shm.State.{Shared}
use gsw.Telemetry.Shm.Locking.Counts.{change, le-tally}
use gsw.Telemetry.Shm.Locking.Roles.{writes, reads}
use gsw.Telemetry.Shm.Locking.Invariant.{IsFree, IsFree-Inv, Reach-Inv_from}
use gsw.Telemetry.Shm.Locking.{
  Process, idle, interrupted, writer, wait_resource, write_step, advance, System, Step, begin_write,
  begin_read, move, Reach, next,
}

-- `t` comes from `s` by steps.
data Later (n : ℕ) (s : System) : System → Type 0 where
  now : Later n s s
  after : {t u : System} → Later n s t → Step n t u → Later n s u

Later-Reach : {n : ℕ} {m : Shared} {s t : System} → Reach n m s → Later n s t → Reach n m t
Later-Reach r now = r
Later-Reach r (after l st) = next (Later-Reach r l) st

change_other :
    (f : ℕ → Process) (i j : ℕ) (p : Process)
    → f j ≡ interrupted
    → f i ≢ interrupted
    → change f i p j ≡ interrupted
change_other f i j p e d =
    let met : i ≡ j → f i ≡ interrupted = (λ same. rw same e) in ground (arith, met)

-- A call that has returned INTERRUPTED takes no further step.
interrupted-Step :
    {n : ℕ} {s t : System} (j : ℕ)
    → s.process j ≡ interrupted
    → Step n s t
    → t.process j ≡ interrupted
interrupted-Step {s = s} j e (begin_write i id block l f) =
    change_other s.process i j _ e (λ x. let both : idle ≡ interrupted = sym f ∙ x in cc)
interrupted-Step {s = s} j e (begin_read i call l f) =
    change_other s.process i j _ e (λ x. let both : idle ≡ interrupted = sym f ∙ x in cc)
interrupted-Step {s = s} j e (move i {m} {p} l f) =
    change_other s.process i j p e
      (λ x. let stuck : none ≡ some (m, p) = ap (advance s.mem) (sym x) ∙ f in cc)

Later-interrupted :
    {n : ℕ} {s t : System} (j : ℕ)
    → s.process j ≡ interrupted
    → Later n s t
    → t.process j ≡ interrupted
Later-interrupted j e now = e
Later-interrupted j e (after l st) = interrupted-Step j (Later-interrupted j e l) st

-- With fewer than 2 ^ 32 processes over memory whose semaphores were free: from the moment when a
-- `read_lock` of a list has returned INTERRUPTED because the master nonce was 0, whatever any process
-- does, no process ever writes again, and each writer that comes to wait for `resource` waits for ever.
interrupted_stops_writers :
    {n : ℕ} {m : Shared} {s t : System}
    → n < 2 ^ 32
    → IsFree m
    → Reach n m s
    → (j : ℕ) → j < n
    → s.process j ≡ interrupted
    → Later n s t
    → ((i : ℕ) → i < n → writes (t.process i) ≡ 0)
      × ((id : ℕ) (block : List ℕ) → advance t.mem (writer wait_resource id block) ≡ none)
unfolding write_step
interrupted_stops_writers {n} {m} {s} {t} h free r j l e later =
    let v = Reach-Inv_from (IsFree-Inv n m h free) (Later-Reach r later) in
    let counted : reads (t.process j) ≡ 1 = ap reads (Later-interrupted j e later) in
    let taken = le-tally reads n t.process j l in
    (
      λ i hi. omega (arith, v.resource, counted, taken, le-tally writes n t.process i hi),
      λ id block.
          let closed : t.mem.resource ≡ 0 = omega (arith, v.resource, counted, taken) in
          rw closed refl,
    )

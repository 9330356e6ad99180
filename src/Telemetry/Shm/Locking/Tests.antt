-- ===== src/Telemetry/Shm/Locking/Tests.antt =====
-- Runs of two processes over one packet.
use gsw.Prelude.{
  zero, suc, ◌<◌, ◌≢◌, ℕ, ◌≡◌, refl, none, List, [], ◌∷◌, arith, Option-cases, dec_lt, foldl, false,
  inl, inr, ℕ_discrete,
}
use gsw.Vcm.Types.{PacketInfo}
use gsw.Telemetry.Shm.State.{create}
use gsw.Telemetry.Shm.Locking.Roles.{writes, reads}
use gsw.Telemetry.Shm.Locking.Safety.{SameView, write_excludes, held_view_stable, writers_first}
use gsw.Telemetry.Shm.Locking.Progress.{CanMove, no_deadlock}
use gsw.Telemetry.Shm.Locking.{
  wait_read_try, interrupted, of_list, reader, write_step, read_step, advance, System, begin_write,
  begin_read, move, Reach, here, next,
}

abbrev packets : List PacketInfo
packets = record { size = 1; port = 8080; is_virtual = false } ∷ []

abbrev Run : Type 0
Run = (s : System) × Reach 2 (create packets) s

-- A process takes its next step, if it can.
turn : Run → ℕ → Run
turn (s, r) i = elim (dec_lt i 2) [
  | no _ ↦ (s, r)
  | yes h ↦ elim (Option-cases (advance s.mem (s.process i))) [
    | inl _ ↦ (s, r)
    | inr ((m, p), e) ↦ (_, next r (move i h e))
  ]
]

abbrev run : Run → List ℕ → Run
unfolding turn
run = foldl turn

-- Process 0 has begun to write, process 1 to read.
abbrev begun : Run
unfolding ℕ_discrete create
begun = (
  _,
  next (next here (begin_write 0 0 (7 ∷ []) (omega arith) refl))
      (begin_read 1 of_list (omega arith) refl),
)

-- Process 0 is about to copy.
abbrev copying : Run
copying = run begun (0 ∷ 0 ∷ 0 ∷ 0 ∷ 0 ∷ [])

-- Process 1 holds the read lock.
abbrev reading : Run
reading = run begun (1 ∷ 1 ∷ 1 ∷ 1 ∷ 1 ∷ 1 ∷ 1 ∷ [])

-- The writer runs to its end over the packet.
written : (run begun (0 ∷ 0 ∷ 0 ∷ 0 ∷ 0 ∷ 0 ∷ 0 ∷ 0 ∷ [])).0.mem.packets ≡ (7 ∷ []) ∷ []
unfolding turn write_step read_step create Option-cases dec_lt ℕ_discrete
written = refl

write_excludes_example : (writes (copying.0.process 1) ≡ 0) × (reads (copying.0.process 1) ≡ 0)
unfolding turn write_step read_step create Option-cases dec_lt ℕ_discrete
write_excludes_example =
    write_excludes packets (omega arith) copying.1 0 1 (omega arith) (omega arith) refl
      (omega arith)

held_view_stable_example : SameView reading.0.mem (run reading (0 ∷ [])).0.mem
unfolding turn write_step read_step create Option-cases dec_lt ℕ_discrete
held_view_stable_example =
    held_view_stable packets (omega arith) reading.1 1 of_list (omega arith) refl
      (move 0 (omega arith) refl)

writers_first_example : advance copying.0.mem (reader of_list wait_read_try) ≡ none
unfolding turn write_step read_step create Option-cases dec_lt ℕ_discrete
writers_first_example = writers_first packets (omega arith) copying.1 0 of_list (omega arith) refl

copying_live : (j : ℕ) → j < 2 → copying.0.process j ≢ interrupted
unfolding turn write_step read_step create Option-cases dec_lt ℕ_discrete
copying_live zero h e = cc
copying_live (suc zero) h e = cc
copying_live (suc (suc j)) h e = absurd (omega arith)

no_deadlock_example : CanMove 2 copying.0.mem copying.0.process
unfolding turn write_step read_step create Option-cases dec_lt ℕ_discrete
no_deadlock_example =
    no_deadlock packets (omega arith) copying.1 copying_live 0 (omega arith) (λ e. cc)

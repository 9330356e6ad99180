-- ===== src/Telemetry/Shm/Read/Calls.antt =====
-- What a call of either `read_lock` gives: the lock over the memory of one of its passes, or no lock.
use gsw.Prelude.{
  ℕ, zero, suc, ◌+◌, ◌≤◌, ◌<◌, ◌≡◌, refl, ap, sym, ◌∙◌, Bool, true, false, ◌&&◌, inl, inr, List, ok,
  length, get_or, ◌==◌, Bool-cases, All, range, arith, replicate, get_or-replicate,
}
use mathlib.Core.Bool.{not}
use gsw.Telemetry.Shm.State.{Shared, TelemetryShm}
use gsw.Telemetry.Shm.Read.{
  signalled, Round, attempt, attempt_all, update_loop, read_loop, read_lock, read_lock_all,
  clear_updated, is_standard,
}
use gsw.Telemetry.Shm.Read.Notes.{
  IsSized, Noted, after_note, note_packet-eq, after_note-Noted, Noted-cons,
}
use gsw.Telemetry.Shm.Read.Lock.{attempt-cases, read_lock-eq, IsFitted, IsFitted-clear}
use gsw.Telemetry.Shm.Read.Held.{held, PassCases, HeldReplies, loop-Held, HeldReplies-shift}

module _ (t₀ : TelemetryShm) (b : t₀.updated ≡ replicate t₀.num_packets false) where
  attempt-PassCases :
      (ids : List ℕ) → All (λ id. id < t₀.num_packets) ids → PassCases (attempt ids) ids t₀
  attempt-PassCases ids h s n z =
      let t : TelemetryShm = record t₀ { last_nonce = n; read_locked = false } in
      let z' : IsSized s t = record { nonces = z.nonces; last = z.last; updated = z.updated } in
      elim (attempt-cases ids s t z' h b) [
        | inl (signal, e) ↦ inl (
            e
            ∙ ap
                (λ (k : ℕ). ok (
                  record t₀ { last_nonce = k; read_locked = false; entered = t₀.entered + 1 },
                  signalled,
                ))
                signal)
        | inr (inl (_, _, e)) ↦ inr (inl (s.nonce, e))
        | inr (inr (t', e, l)) ↦ inr (
            inr (
              t',
              e,
              record {
                nonce = l.nonce;
                last = l.last;
                marks = l.marks;
                sized = l.sized;
                rest = l.rest;
              },
            ))
      ]

  blank_at : (j : ℕ) → get_or t₀.updated j false ≡ false
  blank_at j = rw b (get_or-replicate t₀.num_packets false j)

update_loop-Noted :
    (s : Shared) (n i : ℕ) (t : TelemetryShm)
    → IsSized s t
    → i + n ≤ t.num_packets
    → (t' : TelemetryShm) × (update_loop n i s t ≡ ok t') × Noted s (range n i) t t'
unfolding update_loop
update_loop-Noted s zero i t z h =
    (t, refl, record { sized = z; same = refl; last = λ j. refl; marks = λ j. refl })
update_loop-Noted s (suc n) i t z h =
    let p = after_note-Noted s t i z (omega arith) in
    let (t', e, q) =
      update_loop-Noted s n (i + 1) (after_note s t i) p.sized
        (rw (ap (λ (u : TelemetryShm). u.num_packets) p.same) (omega arith)) in
    (
      t',
      rw (note_packet-eq s t i z (omega arith)) e,
      Noted-cons s i (range n (i + 1)) t (after_note s t i) t' p q,
    )

module _ (t₀ : TelemetryShm) (b : t₀.updated ≡ replicate t₀.num_packets false) where
  attempt_all-PassCases : PassCases attempt_all (range t₀.num_packets 0) t₀
  unfolding attempt_all
  attempt_all-PassCases s n z =
      let t : TelemetryShm = record t₀ { last_nonce = n; read_locked = false } in
      let z' : IsSized s t = record { nonces = z.nonces; last = z.last; updated = z.updated } in
      elim (Bool-cases (not (is_standard t₀.read_mode) && (n == s.nonce))) [
        | inl e ↦ inr (inl (n, rw e refl))
        | inr e ↦
            let (t', f, p) = update_loop-Noted s t₀.num_packets 0 t z' (omega arith) in
            inr (
              inr (
                record t' { last_nonce = s.nonce; read_locked = true; entered = t'.entered + 1 },
                rw (e, f) refl,
                record {
                  nonce = refl;
                  last = p.last;
                  marks = λ j. ground (arith, p.marks j, blank_at t₀ b j);
                  sized = record {
                    nonces = p.sized.nonces;
                    last = p.sized.last;
                    updated = p.sized.updated;
                  };
                  rest =
                      ap
                        (λ (u : TelemetryShm). record u {
                          last_nonce = s.nonce;
                          read_locked = true;
                          entered = u.entered + 1;
                        })
                        p.same;
                },
              ))
      ]

read_lock_all-eq :
    (t : TelemetryShm) (rounds : List Round)
    → t.read_locked ≡ false
    → t.initialised ≡ true
    → t.attached ≡ true
    → read_lock_all t rounds
      ≡ read_loop attempt_all rounds
          (record (clear_updated t) { last_nonce = t.last_nonce; read_locked = false })
unfolding read_lock_all
read_lock_all-eq t rounds l i a = ground arith

reset-eq :
    (t : TelemetryShm)
    → t.read_locked ≡ false
    → record (clear_updated t) { last_nonce = t.last_nonce; read_locked = false } ≡ clear_updated t
reset-eq t l = ap (λ (b : Bool). record (clear_updated t) { read_locked = b }) (sym l)

-- `read_lock` of a list returns, without an access out of bounds: when it succeeds, the object has
-- taken the lock over the memory of the pass in which it succeeded, else it is unlocked, and counted as
-- a reader as often as before, unless the master nonce was 0.
pub read_lock-Held :
    (t : TelemetryShm) (ids : List ℕ) (rounds : List Round)
    → t.read_locked ≡ false
    → t.initialised ≡ true
    → t.attached ≡ true
    → length t.updated ≡ t.num_packets
    → IsFitted t rounds
    → All (λ id. id < t.num_packets) ids
    → HeldReplies
        (attempt ids)
        ids
        (clear_updated t)
        rounds
        (clear_updated t)
        (read_lock t ids rounds)
read_lock-Held t ids rounds l i a u z h = rw (read_lock-eq t ids rounds l i a) (
    HeldReplies-shift (attempt ids) ids (clear_updated t) (clear_updated t)
      (record (clear_updated t) { last_nonce = t.last_nonce; read_locked = false }) rounds rounds
      (read_loop (attempt ids) rounds
        (record (clear_updated t) { last_nonce = t.last_nonce; read_locked = false }))
      (ap (held (attempt ids) rounds) (sym (reset-eq t l)))
      (loop-Held (attempt ids) ids (clear_updated t)
        (attempt-PassCases (clear_updated t) refl ids h) rounds t.last_nonce
        (IsFitted-clear t rounds u z)))

-- The same of the `read_lock` of all packets, in every read mode: its list is that of all packets.
pub read_lock_all-Held :
    (t : TelemetryShm) (rounds : List Round)
    → t.read_locked ≡ false
    → t.initialised ≡ true
    → t.attached ≡ true
    → length t.updated ≡ t.num_packets
    → IsFitted t rounds
    → HeldReplies attempt_all
        (range t.num_packets 0)
        (clear_updated t)
        rounds
        (clear_updated t)
        (read_lock_all t rounds)
read_lock_all-Held t rounds l i a u z = rw (read_lock_all-eq t rounds l i a) (
    HeldReplies-shift attempt_all (range t.num_packets 0) (clear_updated t) (clear_updated t)
      (record (clear_updated t) { last_nonce = t.last_nonce; read_locked = false }) rounds rounds
      (read_loop attempt_all rounds
        (record (clear_updated t) { last_nonce = t.last_nonce; read_locked = false }))
      (ap (held attempt_all rounds) (sym (reset-eq t l)))
      (loop-Held attempt_all (range t.num_packets 0) (clear_updated t)
        (attempt_all-PassCases (clear_updated t) refl) rounds t.last_nonce
        (IsFitted-clear t rounds u z)))

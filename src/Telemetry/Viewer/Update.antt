-- ===== src/Telemetry/Viewer/Update.antt =====
-- What `update` leaves in the viewer's buffers.
use gsw.Prelude.{
  ℕ, ◌+◌, ◌^◌, ◌≤◌, ◌<◌, ◌≡◌, ap, ◌∙◌, inl, inr, true, false, some, List, ok, err, fault, success,
  length, mem, ◌==◌, ==_iff, get_or, All, arith, Bool-cases,
}
use gsw.Telemetry.Shm.State.{Shared, TelemetryShm}
use gsw.Telemetry.Shm.Read.{Round}
use gsw.Telemetry.Shm.Read.Notes.{IsSized}
use gsw.Telemetry.Shm.Read.Lock.{Leaves}
use gsw.Telemetry.Shm.Write.Laws.{Published, block_of}
use gsw.Telemetry.Viewer.{TelemetryViewer, Update}
use gsw.Telemetry.Viewer.Tracking.{IsTracking}
use gsw.Telemetry.Viewer.Copies.{buffer_of, HasBlocks}

-- An object that may lock shared memory of the vehicle.
pub record IsReader (v : TelemetryViewer) (t : TelemetryShm) : Type 0 where
  pub unlocked : t.read_locked ≡ false
  pub initialised : t.initialised ≡ true
  pub attached : t.attached ≡ true
  pub updated : length t.updated ≡ t.num_packets
  pub same_count : t.num_packets ≡ v.vcm.num_packets

-- The viewer has the packets whose nonces its object knows as they are in shared memory.
abbrev pub IsCurrent : TelemetryViewer → TelemetryShm → Shared → Type 0
IsCurrent v t s =
    (id : ℕ)
    → mem id v.packet_ids ≡ true
    → get_or s.nonces id 0 ≡ get_or t.last_nonces id 0
    → buffer_of v id ≡ some (block_of s id)

-- The viewer and its object behind an update: the copies of the packets that it tracks are the blocks
-- of one state of shared memory, whose nonces the object has, and the object is unlocked.
pub record Snapshot (v v' : TelemetryViewer) (t' : TelemetryShm) (s : Shared) : Type 0 where
  pub tracking : IsTracking v'
  pub rest : v' ≡ record v { packet_buffers = v'.packet_buffers }
  pub whole : (id : ℕ) → mem id v.packet_ids ≡ true → buffer_of v' id ≡ some (block_of s id)
  pub unlocked : t'.read_locked ≡ false
  pub nonce : t'.last_nonce ≡ s.nonce
  pub nonces :
      (id : ℕ) → mem id v.packet_ids ≡ true → get_or t'.last_nonces id 0 ≡ get_or s.nonces id 0
  pub sized : length t'.last_nonces ≡ t'.num_packets
  pub same_count : t'.num_packets ≡ v.vcm.num_packets

-- Of every pass of the call.
abbrev pub AreCurrent : TelemetryViewer → TelemetryShm → List Round → Type 0
AreCurrent v t =
    All (λ (r : Round). IsSized r.shared t × HasBlocks v.vcm r.shared × IsCurrent v t r.shared)

-- What `update` comes to: with SUCCESS a snapshot of the memory of one of the passes; with any other
-- code, or while it waits, the viewer is as it was and the object unlocked. The object is no longer counted
-- as a reader, but for one that returned INTERRUPTED at master nonce 0.
abbrev pub Updates : TelemetryViewer → TelemetryShm → List Round → Update → Type 0
Updates v t rounds (ok (v', t', some success)) =
    (s : Shared) × HasBlocks v.vcm s × Snapshot v v' t' s × (t'.entered ≡ t.entered)
Updates v t rounds (ok (v', t', r)) = (v' ≡ v) × (t'.read_locked ≡ false) × Leaves t t' r
Updates v t rounds (err e) = ⊥
Updates v t rounds fault = ⊥

-- A write of a packet keeps the viewer current, if the object's nonces are none that the write is yet
-- to give out: it knows none above the master nonce, which does not wrap.
pub Published-IsCurrent :
    (v : TelemetryViewer) (t r : TelemetryShm) (s s' : Shared) (id : ℕ) (block : List ℕ)
    → Published r s s' id block
    → s.nonce + 1 < 2 ^ 32
    → ((j : ℕ) → get_or t.last_nonces j 0 ≤ s.nonce)
    → IsCurrent v t s
    → IsCurrent v t s'
Published-IsCurrent v t r s s' id block p w h c j m e = elim (Bool-cases (id == j)) [
  | inl q ↦
      let same : id ≡ j = (==_iff _ _).0 q in
      absurd (ground (arith, rw same at p.stamp, p.master, h j))
  | inr q ↦
      let other = p.others j (λ x. ground arith) in
      c j m (ground (arith, other.1)) ∙ ground (arith, other.0)
]

-- Behind an update the viewer is current with the memory that it has copied.
pub Snapshot-IsCurrent :
    (v v' : TelemetryViewer) (t' : TelemetryShm) (s : Shared)
    → Snapshot v v' t' s
    → IsCurrent v' t' s
Snapshot-IsCurrent v v' t' s p j m e =
    p.whole j (rw (ap (λ (u : TelemetryViewer). u.packet_ids) p.rest) at m)

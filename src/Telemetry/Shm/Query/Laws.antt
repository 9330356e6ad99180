-- ===== src/Telemetry/Shm/Query/Laws.antt =====
-- What the queries say of a reader that holds the lock, and of a packet that was just written.
use mathlib.Core.Logic.{◌≢◌}
use gsw.Prelude.{
  ap, ◌∙◌, refl, success, ◌%◌, length-replicate, mem-All, ℕ, ◌+◌, ◌-◌, ◌^◌, ◌≤◌, ◌<◌, ◌≡◌, ◌↔◌,
  true, false, inl, inr, List, [], ◌∷◌, ◌++◌, ok, Option, none, some, length, get_or, ◌==◌,
  if◌then◌else◌, Bool-cases, All, mem, arith, load-eq, ltb,
}
use gsw.Telemetry.Shm.State.{Shared, TelemetryShm}
use gsw.Telemetry.Shm.Write.{write}
use gsw.Telemetry.Shm.Write.Laws.{IsOpen, Published, block_of, write-Published}
use gsw.Telemetry.Shm.Read.{Round, WaitResult, clear_updated, read_loop, read_lock}
use gsw.Telemetry.Shm.Read.Notes.{IsSized, changed, any_changed}
use gsw.Telemetry.Shm.Read.Lock.{Locked, attempt-cases, read_lock-eq}
use gsw.Telemetry.Shm.Query.{
  packet_updated, update_value, more_recent_packet, recent_loop, sub32, uint_max,
}

-- To a reader that holds a lock on a packet, `packet_updated` says true of it as long as shared
-- memory is as it was at the lock, whether or not the packet was updated before the lock.
pub packet_updated-Locked :
    (ids : List ℕ) (s : Shared) (t t' : TelemetryShm) (id : ℕ)
    → Locked ids s t t'
    → mem id ids ≡ true
    → id < t'.num_packets
    → id < length s.nonces
    → id < length t'.last_nonces
    → packet_updated t' s id ≡ ok true
unfolding packet_updated
packet_updated-Locked ids s t t' id l m h a b =
    ground (arith, l.locked, l.last id, load-eq s.nonces id 0 a, load-eq t'.last_nonces id 0 b)

recent_loop-last :
    (t : TelemetryShm) (i k : ℕ) (ids : List ℕ) (id : ℕ) (recent : Option ℕ)
    → All (λ id. id < t.num_packets) (ids ++ id ∷ [])
    → i + length ids ≡ k
    → k < length t.last_nonces
    → sub32 t.last_nonce (get_or t.last_nonces k 0) ≢ uint_max
    → recent_loop t i (ids ++ id ∷ []) recent ≡ ok (some k)
unfolding recent_loop
recent_loop-last t i k [] id recent h e l d =
    let e' : i ≡ k = omega arith in rw e' (ground (arith, load-eq t.last_nonces k 0 l))
recent_loop-last t i k (x ∷ ids) id recent h e l d = ground (
  arith,
  load-eq t.last_nonces i 0 (omega arith),
  recent_loop-last t (i + 1) k ids id
      (if ltb (sub32 t.last_nonce (get_or t.last_nonces i 0)) uint_max then some i else recent) h.1
      (omega arith) l d,
)

-- `more_recent_packet` of a list of packets that exist answers with the last index of the list,
-- however old that packet is, unless the nonce that it reads for it lies just 2 ^ 32 - 1 behind
-- the master nonce.
more_recent_packet-last :
    (t : TelemetryShm) (ids : List ℕ) (id : ℕ)
    → All (λ id. id < t.num_packets) (ids ++ id ∷ [])
    → length ids < length t.last_nonces
    → sub32 t.last_nonce (get_or t.last_nonces (length ids) 0) ≢ uint_max
    → more_recent_packet t (ids ++ id ∷ []) ≡ ok (some (length ids))
unfolding more_recent_packet
more_recent_packet-last t ids id h l d =
    recent_loop-last t 0 (length ids) ids id none h (omega arith) l d

-- No packet is stamped later than the master nonce.
abbrev pub IsStamped : Shared → Type 0
IsStamped s = (j : ℕ) → get_or s.nonces j 0 ≤ s.nonce

-- A write keeps this, as long as the master nonce does not wrap.
pub Published-IsStamped :
    (t : TelemetryShm) (s s' : Shared) (id : ℕ) (block : List ℕ)
    → Published t s s' id block
    → s.nonce + 1 < 2 ^ 32
    → IsStamped s
    → IsStamped s'
Published-IsStamped t s s' id block p w z j = elim (Bool-cases (id == j)) [
  | inl e ↦ let e' : id ≡ j = ground arith in rw (← e') (ground (arith, p.stamp))
  | inr e ↦ ground (arith, p.master, p.others j (ground arith), z j)
]

-- For a reader that holds a lock on two packets of its own, in shared memory whose packet nonces
-- are at most the master nonce, the one with the smaller update value is the one that was written
-- later.
pub update_value-order :
    (ids : List ℕ) (s : Shared) (t t' : TelemetryShm) (i j : ℕ)
    → IsStamped s
    → s.nonce < 2 ^ 32
    → Locked ids s t t'
    → mem i ids ≡ true
    → mem j ids ≡ true
    → i < t'.num_packets
    → j < t'.num_packets
    → i < length t'.last_nonces
    → j < length t'.last_nonces
    → (v : ℕ) × (w : ℕ) × (update_value t' i ≡ ok v)
      × (update_value t' j ≡ ok w)
      × ((v < w) ↔ (get_or s.nonces j 0 < get_or s.nonces i 0))
unfolding update_value
update_value-order ids s t t' i j z n l mi mj hi hj bi bj = (
  s.nonce - get_or s.nonces i 0,
  s.nonce - get_or s.nonces j 0,
  ground (arith, l.last i, l.nonce, z i, load-eq t'.last_nonces i 0 bi),
  ground (arith, l.last j, l.nonce, z j, load-eq t'.last_nonces j 0 bj),
  (λ h. omega (arith, z i, z j), λ h. omega (arith, z i, z j)),
)

mem-any_changed :
    (s : Shared) (t : TelemetryShm) (ids : List ℕ) (id : ℕ)
    → mem id ids ≡ true
    → changed s t id ≡ true
    → any_changed s t ids ≡ true
mem-any_changed s t [] id m c = absurd cc
mem-any_changed s t (x ∷ ids) id m c = elim (Bool-cases (x == id)) [
  | inl e ↦ let e' : x ≡ id = ground arith in rw (e', c) refl
  | inr e ↦ ground (arith, mem-any_changed s t ids id (ground (arith, e)) c)
]

-- What a reader that has locked `ids` after a write of packet `id` is told.
pub record Told (t' : TelemetryShm) (ids : List ℕ) (id : ℕ) : Type 0 where
  pub locked : t'.read_locked ≡ true
  pub marked : get_or t'.updated id false ≡ true
  pub newest : update_value t' id ≡ ok 0
  pub older : (j : ℕ) → mem j ids ≡ true → id ≢ j → (w : ℕ) × (update_value t' j ≡ ok w) × 0 < w

Locked-Told :
    (ids : List ℕ) (r t t' : TelemetryShm) (s s' : Shared) (id : ℕ) (block : List ℕ)
    → Published r s s' id block
    → IsStamped s
    → s.nonce + 1 < 2 ^ 32
    → get_or t.last_nonces id 0 ≤ s.nonce
    → All (λ id. id < t.num_packets) ids
    → mem id ids ≡ true
    → Locked ids s' t t'
    → Told t' ids id
unfolding update_value
Locked-Told ids r t t' s s' id block p z w k h m l =
    let same : t'.num_packets ≡ t.num_packets = ap (λ (u : TelemetryShm). u.num_packets) l.rest in
    let inside : (j : ℕ) → mem j ids ≡ true → j < t.num_packets =
      λ j mj. mem-All (λ j. j < t.num_packets) j ids h mj in
    record {
      locked = l.locked;
      marked = ground (arith, p.stamp, p.master, l.marks id);
      newest = ground (
        arith,
        p.stamp,
        p.master,
        l.last id,
        l.nonce,
        same,
        inside id m,
        load-eq t'.last_nonces id 0 (omega (arith, same, l.sized.last, inside id m)),
      );
      older = λ j mj ne. (
        s'.nonce - get_or s'.nonces j 0,
        ground (
          arith,
          p.master,
          l.last j,
          l.nonce,
          same,
          inside j mj,
          (p.others j ne).1,
          z j,
          load-eq t'.last_nonces j 0 (omega (arith, same, l.sized.last, inside j mj)),
        ),
        ground (arith, p.master, (p.others j ne).1, z j),
      );
    }

-- In shared memory whose packet nonces are at most the master nonce, which does not wrap: a write of
-- one of its packets by an open object, from a source that fills the packet, succeeds. When then a
-- reader that is open, holds no lock and has no newer nonce of the packet calls `read_lock`, its first
-- pass right after the write, on any list of its packets with this one in it and in any read mode, it
-- gets the lock; the packet is marked and its update value is 0, and each other packet of the list has
-- a greater update value.
pub write-noticed :
    (r t : TelemetryShm) (s : Shared) (id : ℕ) (src : List ℕ) (ids : List ℕ) (wait : WaitResult)
    (nonce_after : ℕ) (rounds : List Round)
    → IsOpen r s
    → id < r.num_packets
    → length (block_of s id) ≤ length src
    → IsStamped s
    → s.nonce + 1 < 2 ^ 32
    → IsSized s t
    → t.read_locked ≡ false
    → t.initialised ≡ true
    → t.attached ≡ true
    → get_or t.last_nonces id 0 ≤ s.nonce
    → All (λ id. id < t.num_packets) ids
    → mem id ids ≡ true
    → (s' : Shared) × (t' : TelemetryShm) × (write r s id src ≡ ok (s', some (2 ^ (id % 32))))
      × (read_lock t ids (record { shared = s'; wait = wait; nonce_after = nonce_after } ∷ rounds)
          ≡ ok (t', some success))
      × Told t' ids id
unfolding read_loop
write-noticed r t s id src ids wait n rounds o hr len z w size unlocked i a k h m =
    let (s', e, p) = write-Published r s id src o hr len in
    let t₀ : TelemetryShm = record (clear_updated t) {
      last_nonce = t.last_nonce;
      read_locked = false;
    } in
    let size₀ : IsSized s' t₀ = record {
      nonces = omega (arith, size.nonces, o.nonces, p.open_after.nonces);
      last = size.last;
      updated = length-replicate t.num_packets false;
    } in
    let start =
      read_lock-eq t ids (record { shared = s'; wait = wait; nonce_after = n } ∷ rounds) unlocked i
        a in
    elim (attempt-cases ids s' t₀ size₀ h refl) [
      | inl (zero_nonce, _) ↦ absurd (ground (arith, zero_nonce, p.master))
      | inr (inl (quiet, _, _)) ↦
          let new : changed s' t₀ id ≡ true = ground (arith, p.stamp, p.master) in
          absurd (ground (arith, quiet, mem-any_changed s' t₀ ids id m new))
      | inr (inr (t', eq, l)) ↦
          (s', t', e, start ∙ rw eq refl, Locked-Told ids r t₀ t' s s' id _ p z w k h m l)
    ]

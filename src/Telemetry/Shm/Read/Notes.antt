-- ===== src/Telemetry/Shm/Read/Notes.antt =====
-- What a pass over packets notes in the reader's object.
use mathlib.Core.Bool.{not}
use gsw.Prelude.{
  ℕ, ◌<◌, ◌≡◌, refl, ap, Bool, true, false, ◌||◌, ◌&&◌, List, [], ◌∷◌, ok, length, get_or, set,
  ◌==◌, if◌then◌else◌, All, mem, arith, load-eq, store-eq, get_or-set_self, get_or-set_ne,
  length-set,
}
use gsw.Telemetry.Shm.State.{Shared, TelemetryShm}
use gsw.Telemetry.Shm.Read.{note_packet, check_loop}

-- The arrays of the object and of shared memory have an element for each packet.
pub record IsSized (s : Shared) (t : TelemetryShm) : Type 0 where
  pub nonces : length s.nonces ≡ t.num_packets
  pub last : length t.last_nonces ≡ t.num_packets
  pub updated : length t.updated ≡ t.num_packets

abbrev pub changed : Shared → TelemetryShm → ℕ → Bool
changed s t j = not (get_or s.nonces j 0 == get_or t.last_nonces j 0)

abbrev pub after_note : Shared → TelemetryShm → ℕ → TelemetryShm
after_note s t id = if get_or s.nonces id 0 == get_or t.last_nonces id 0 then t else record t {
  last_nonces = set t.last_nonces id (get_or s.nonces id 0);
  updated = set t.updated id true;
}

pub note_packet-eq :
    (s : Shared) (t : TelemetryShm) (id : ℕ)
    → IsSized s t
    → id < t.num_packets
    → note_packet s t id ≡ ok (after_note s t id, changed s t id)
unfolding note_packet
note_packet-eq s t id z h =
    rw
      (
        load-eq s.nonces id 0 (omega arith),
        load-eq t.last_nonces id 0 (omega arith),
        store-eq t.last_nonces id (get_or s.nonces id 0) (omega arith),
        store-eq t.updated id true (omega arith),
      )
      (ground arith)

-- What a pass over `ids` leaves of each packet's nonce and mark; the other fields stay.
pub record Noted (s : Shared) (ids : List ℕ) (t t' : TelemetryShm) : Type 0 where
  pub sized : IsSized s t'
  pub same : t' ≡ record t { last_nonces = t'.last_nonces; updated = t'.updated }
  pub last :
      (j : ℕ)
      → get_or t'.last_nonces j 0
        ≡ (if mem j ids then get_or s.nonces j 0 else get_or t.last_nonces j 0)
  pub marks :
      (j : ℕ)
      → get_or t'.updated j false ≡ ((mem j ids && changed s t j) || get_or t.updated j false)

pub after_note-Noted :
    (s : Shared) (t : TelemetryShm) (id : ℕ)
    → IsSized s t
    → id < t.num_packets
    → Noted s (id ∷ []) t (after_note s t id)
after_note-Noted s t id z h = record {
  sized =
      ground
        (arith, length-set t.last_nonces id (get_or s.nonces id 0), length-set t.updated id true);
  same = ground arith;
  last = λ j. ground (
    arith,
    get_or-set_self t.last_nonces id (get_or s.nonces id 0) 0,
    get_or-set_ne t.last_nonces id j (get_or s.nonces id 0) 0,
  );
  marks = λ j.
      ground
        (arith, get_or-set_self t.updated id true false, get_or-set_ne t.updated id j true false);
}

pub Noted-cons :
    (s : Shared) (id : ℕ) (ids : List ℕ) (t t₁ t₂ : TelemetryShm)
    → Noted s (id ∷ []) t t₁
    → Noted s ids t₁ t₂
    → Noted s (id ∷ ids) t t₂
Noted-cons s id ids t t₁ t₂ a b = record {
  sized = b.sized;
  same = cc (a.same, b.same);
  last = λ j. ground (arith, a.last j, b.last j);
  marks = λ j. ground (arith, a.last j, a.marks j, b.marks j);
}

abbrev pub any_changed : Shared → TelemetryShm → List ℕ → Bool
any_changed s t [] = false
any_changed s t (id ∷ ids) = changed s t id || any_changed s t ids

any_changed-after_note :
    (s : Shared) (id : ℕ) (ids : List ℕ) (t t₁ : TelemetryShm)
    → Noted s (id ∷ []) t t₁
    → (changed s t id || any_changed s t₁ ids) ≡ (changed s t id || any_changed s t ids)
any_changed-after_note s id [] t t₁ a = refl
any_changed-after_note s id (j ∷ ids) t t₁ a =
    ground (arith, a.last j, any_changed-after_note s id ids t t₁ a)

-- The pass ends, notes what it should and unblocks the reader if a nonce of the list has changed.
pub check_loop-Noted :
    (s : Shared) (ids : List ℕ) (t : TelemetryShm) (block : Bool)
    → IsSized s t
    → All (λ id. id < t.num_packets) ids
    → (t' : TelemetryShm) × (check_loop s ids t block ≡ ok (t', block && not (any_changed s t ids)))
      × Noted s ids t t'
unfolding check_loop
check_loop-Noted s [] t block z h =
    (t, ground arith, record { sized = z; same = refl; last = λ j. refl; marks = λ j. refl })
check_loop-Noted s (id ∷ ids) t block z h =
    let n = after_note-Noted s t id z h.0 in
    let (t', e, n') =
      check_loop-Noted s ids (after_note s t id) (if changed s t id then false else block) n.sized
        (rw (ap (λ (u : TelemetryShm). u.num_packets) n.same) h.1) in
    (
      t',
      rw (note_packet-eq s t id z h.0)
          (ground (arith, e, any_changed-after_note s id ids t (after_note s t id) n)),
      Noted-cons s id ids t (after_note s t id) t' n n',
    )

note_packet-quiet :
    (s : Shared) (t : TelemetryShm) (id : ℕ)
    → IsSized s t
    → id < t.num_packets
    → changed s t id ≡ false
    → note_packet s t id ≡ ok (t, false)
note_packet-quiet s t id z h c = rw (note_packet-eq s t id z h) (ground arith)

-- Where nothing has changed, the pass leaves the object as it was.
pub check_loop-quiet :
    (s : Shared) (ids : List ℕ) (t : TelemetryShm) (block : Bool)
    → IsSized s t
    → All (λ id. id < t.num_packets) ids
    → any_changed s t ids ≡ false
    → check_loop s ids t block ≡ ok (t, block)
unfolding check_loop
check_loop-quiet s [] t block z h c = refl
check_loop-quiet s (id ∷ ids) t block z h c =
    rw (note_packet-quiet s t id z h.0 (ground arith))
      (check_loop-quiet s ids t block z h.1 (ground arith))

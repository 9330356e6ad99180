-- ===== src/Telemetry/Shm/Write/Laws.antt =====
-- What a write publishes, and the exclusion that the packets' write locks give.
use mathlib.Core.List.{append-nil}
use mathlib.Core.Logic.{◌≢◌}
use gsw.Prelude.{
  ℕ, ◌+◌, ◌^◌, ◌%◌, ◌≤◌, ◌<◌, ◌≡◌, refl, ◌∙◌, true, List, [], ◌∷◌, ok, err, none, some, failure,
  length, get_or, set, arith, replicate, take, drop, load-eq, store-eq, get_or-set_self,
  get_or-set_ne, length-set,
}
use gsw.Bytes.Copy.{copy_loop-forward}
use gsw.Telemetry.Shm.State.{Shared, TelemetryShm, u32}
use gsw.Telemetry.Shm.Write.{write, clear, commit}

-- The object is attached, and shared memory has a nonce, a block and a lock for each packet.
pub record IsOpen (t : TelemetryShm) (s : Shared) : Type 0 where
  pub initialised : t.initialised ≡ true
  pub attached : t.attached ≡ true
  pub nonces : length s.nonces ≡ t.num_packets
  pub packets : length s.packets ≡ t.num_packets
  pub write_locks : length s.write_locks ≡ t.num_packets

-- `s'` is `s` after a write of `block` to the packet.
pub record Published (t : TelemetryShm) (s s' : Shared) (id : ℕ) (block : List ℕ) : Type 0 where
  pub open_after : IsOpen t s'
  pub content : get_or s'.packets id [] ≡ block
  pub master : s'.nonce ≡ u32 (s.nonce + 1)
  pub stamp : get_or s'.nonces id 0 ≡ s'.nonce
  pub others :
      (j : ℕ)
      → id ≢ j
      → (get_or s'.packets j [] ≡ get_or s.packets j [])
        × (get_or s'.nonces j 0 ≡ get_or s.nonces j 0)
  pub rest : s' ≡ record s {
    info = record (s.info) { nonce = s'.nonce };
    nonces = s'.nonces;
    packets = s'.packets;
  }

commit-Published :
    (t : TelemetryShm) (s : Shared) (id : ℕ) (block : List ℕ)
    → IsOpen t s
    → id < t.num_packets
    → (s' : Shared) × (commit s id block ≡ ok s') × Published t s s' id block
commit-Published t s id block o h =
    let nonce : ℕ = u32 (s.nonce + 1) in
    (
      record s {
        info = record (s.info) { nonce = nonce };
        nonces = set s.nonces id nonce;
        packets = set s.packets id block;
      },
      rw
          (
            store-eq s.packets id block (omega (arith, o.packets)),
            store-eq s.nonces id nonce (omega (arith, o.nonces)),
          )
          refl,
      record {
        open_after = record {
          initialised = o.initialised;
          attached = o.attached;
          nonces = length-set s.nonces id nonce ∙ o.nonces;
          packets = length-set s.packets id block ∙ o.packets;
          write_locks = o.write_locks;
        };
        content = get_or-set_self s.packets id block [] (omega (arith, o.packets));
        master = refl;
        stamp = get_or-set_self s.nonces id nonce 0 (omega (arith, o.nonces));
        others = λ j ne.
            (get_or-set_ne s.packets id j block [] ne, get_or-set_ne s.nonces id j nonce 0 ne);
        rest = refl;
      },
    )

drop-length {ℓ} : {A : Type ℓ} (xs : List A) → drop (length xs) xs ≡ []
drop-length [] = refl
drop-length (x ∷ xs) = drop-length xs

-- The block of a packet.
abbrev pub block_of : Shared → ℕ → List ℕ
block_of s id = get_or s.packets id []

-- A write to an open packet succeeds: the packet's block is the first bytes of the source, as many
-- as the block holds, the master nonce goes one on, the packet's nonce becomes the master nonce,
-- the other packets and the locks stay, and the readers that wait for the bit of the packet are
-- woken.
pub write-Published :
    (t : TelemetryShm) (s : Shared) (id : ℕ) (src : List ℕ)
    → IsOpen t s
    → id < t.num_packets
    → length (block_of s id) ≤ length src
    → (s' : Shared) × (write t s id src ≡ ok (s', some (2 ^ (id % 32))))
      × Published t s s' id (take (length (block_of s id)) src)
unfolding write
write-Published t s id src o h k =
    let old : List ℕ = block_of s id in
    let (s', e, p) = commit-Published t s id (take (length old) src) o h in
    (
      s',
      ground (
        arith,
        o.initialised,
        o.attached,
        load-eq s.packets id [] (omega (arith, o.packets)),
        copy_loop-forward (length old) 0 [] [] old src refl refl (omega arith) k,
        drop-length old,
        append-nil (take (length old) src),
        e,
      ),
      p,
    )

-- `clear` of an open packet publishes a block of the same size, filled with the value, and wakes
-- nobody.
pub clear-Published :
    (t : TelemetryShm) (s : Shared) (id val : ℕ)
    → IsOpen t s
    → id < t.num_packets
    → (s' : Shared) × (clear t s id val ≡ ok (s', none))
      × Published t s s' id (replicate (length (block_of s id)) val)
unfolding clear
clear-Published t s id val o h =
    let (s', e, p) = commit-Published t s id (replicate (length (block_of s id)) val) o h in
    (
      s',
      ground
          (arith, o.initialised, o.attached, load-eq s.packets id [] (omega (arith, o.packets)), e),
      p,
    )

-- A packet id that is out of range is refused, whatever the state of the object.
pub write-failure :
    (t : TelemetryShm) (s : Shared) (id : ℕ) (src : List ℕ)
    → t.num_packets ≤ id
    → write t s id src ≡ err failure
unfolding write
write-failure t s id src h = ground arith

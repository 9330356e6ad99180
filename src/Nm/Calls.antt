-- ===== src/Nm/Calls.antt =====
-- What get_addr and update_addr of lib/nm/src/NmShm.cpp do with a device's block.
use gsw.Prelude.{
  ℕ, zero, suc, ◌+◌, ◌%◌, ◌^◌, ◌<◌, ◌≡◌, refl, sym, ap, ◌∙◌, ◌⊎◌, inl, inr, Bool, true, false,
  Option, some, List, [], ◌∷◌, Exec, ok, load, store, set, RetType, success, failure, blocked,
  nochange, succeeded, ltb, ◌==◌, ==_iff, if◌then◌else◌, arith, Bool-cases,
}
use gsw.Sem.{Answer, done, again, timed_out, broken, SemCalls}
use gsw.Shm.{Shm}
use gsw.Nm.Blocks.{
  NmBlock, NmShm, NmCall, count_of, when_mapped, after_lock, with_lock, unlock_block, copy_out,
  copy_in, get_addr, update_addr,
}

load-set {ℓ} :
    {A : Type ℓ} (xs : List A) (i : ℕ) (a v : A)
    → load xs i ≡ ok a
    → (store xs i v ≡ ok (set xs i v)) × (load (set xs i v) i ≡ ok v)
load-set [] i a v h = cc
load-set (x ∷ xs) zero a v h = (refl, refl)
load-set (x ∷ xs) (suc i) a v h = let (s, l) = load-set xs i a v h in (rw s refl, l)

-- A process whose `NmShm` is attached.
abbrev pub IsAttached : NmShm → Type 0
IsAttached nm = (shm : Shm) × (address : ℕ) × (nm.shm ≡ some shm) × (shm.data_at ≡ some address)

when_mapped-eq {ℓ} :
    {A : Type ℓ} (o : Option Shm) (shm : Shm) (address : ℕ) (unmapped run : Exec A)
    → o ≡ some shm
    → shm.data_at ≡ some address
    → when_mapped o unmapped run ≡ run
when_mapped-eq o shm address unmapped run e f = rw (e, f) refl

pub if-eq {ℓ} : {A : Type ℓ} (b : Bool) (x y : A) → b ≡ true → (if b then x else y) ≡ x
if-eq b x y h = rw h refl

not_success : (ret : RetType) → (ret ≡ blocked) ⊎ (ret ≡ failure) → succeeded ret ≡ false
not_success ret (inl h) = ap succeeded h
not_success ret (inr h) = ap succeeded h

module _ {S : Type 0} (sem : SemCalls S) where
  -- The block's contents, behind the semaphore.
  abbrev pub Same : NmBlock S → NmBlock S → Type 0
  Same b b' = (b'.nonce ≡ b.nonce) × (b'.addr ≡ b.addr)

  abbrev pub Posts : Type 0
  Posts = (s : S) → (sem.post s).0 ≡ done

  unlock_block-eq :
      (device_id : ℕ) (ret : RetType) (c : NmCall S) (b : NmBlock S)
      → Posts
      → load c.blocks device_id ≡ ok b
      → (c' : NmCall S) × (b' : NmBlock S) × (unlock_block sem device_id ret c ≡ ok c')
        × (load c'.blocks device_id ≡ ok b')
        × Same b b'
        × (c'.ret ≡ ret)
        × (c'.nm ≡ c.nm)
        × (c'.addr ≡ c.addr)
  unlock_block-eq device_id ret c b posts read =
      let b' : NmBlock S = record b { sem = (sem.post b.sem).1 } in
      let (stored, there) = load-set c.blocks device_id b b' read in
      (
        record c { ret = ret; blocks = set c.blocks device_id b'; blocked_now = some 0 },
        b',
        rw (read, stored, posts b.sem) refl,
        there,
        (refl, refl),
        refl,
        refl,
        refl,
      )

  -- What a call does that leaves the block's contents.
  record Refused (c c' : NmCall S) : Type 0 where
    pub ret : (c'.ret ≡ blocked) ⊎ (c'.ret ≡ failure)
    pub nm : c'.nm ≡ c.nm
    pub addr : c'.addr ≡ c.addr

  after_lock-cases :
      (answer : Answer) (tried : Bool) (n : ℕ) (run : Exec (NmCall S)) (c : NmCall S)
      → (after_lock answer tried n run c ≡ run)
        ⊎ ((c' : NmCall S) × (after_lock answer tried n run c ≡ ok c')
            × (c'.blocks ≡ c.blocks)
            × Refused c c')
  after_lock-cases done tried n run c = inl refl
  after_lock-cases again true n run c = inr (
    record c { ret = blocked; blocked_now = some (n + 1) },
    refl,
    refl,
    record { ret = inl refl; nm = refl; addr = refl },
  )
  after_lock-cases again false n run c =
      inr
        (record c { ret = failure }, refl, refl, record { ret = inr refl; nm = refl; addr = refl })
  after_lock-cases timed_out tried n run c =
      inr
        (record c { ret = failure }, refl, refl, record { ret = inr refl; nm = refl; addr = refl })
  after_lock-cases broken tried n run c =
      inr
        (record c { ret = failure }, refl, refl, record { ret = inr refl; nm = refl; addr = refl })

  -- The call behind the lock: it goes on with the block, or it is refused.
  with_lock-cases :
      (device_id : ℕ) (run : NmBlock S → NmCall S → Exec (NmCall S)) (c : NmCall S) (b : NmBlock S)
      → load c.blocks device_id ≡ ok b
      → (c₁ : NmCall S) × (b₁ : NmBlock S) × (load c₁.blocks device_id ≡ ok b₁)
        × Same b b₁
        × (c₁.nm ≡ c.nm)
        × (c₁.addr ≡ c.addr)
        × ((with_lock sem device_id run c ≡ run b₁ c₁)
            ⊎ ((c' : NmCall S) × (with_lock sem device_id run c ≡ ok c')
                × (c'.blocks ≡ c₁.blocks)
                × Refused c c'))
  with_lock-cases device_id run c b read =
      let n : ℕ = count_of c.blocked_now c.nm in
      let tried : Bool = ltb n c.nm.block_count in
      let out : Answer × S = if tried then sem.trywait b.sem else sem.wait b.sem in
      let b₁ : NmBlock S = record b { sem = out.1 } in
      let (stored, there) = load-set c.blocks device_id b b₁ read in
      let c₁ : NmCall S = record c { blocks = set c.blocks device_id b₁; blocked_now = some n } in
      let whole : with_lock sem device_id run c ≡ after_lock out.0 tried n (run b₁ c₁) c₁ =
        rw (read, stored) refl in
      (
        c₁,
        b₁,
        there,
        (refl, refl),
        refl,
        refl,
        (elim (after_lock-cases out.0 tried n (run b₁ c₁) c₁) [
          | inl e ↦ inl (whole ∙ e)
          | inr (c', e, f, r) ↦
              inr (c', whole ∙ e, f, record { ret = r.ret; nm = r.nm; addr = r.addr })
        ]),
      )

  -- The receiver's call: the block has its address, or is as it was.
  pub update_addr-cases :
      (device_id : ℕ) (c : NmCall S) (b : NmBlock S)
      → Posts
      → IsAttached c.nm
      → device_id < c.nm.num_devices
      → load c.blocks device_id ≡ ok b
      → (c' : NmCall S) × (b' : NmBlock S) × (update_addr sem device_id c ≡ ok c')
        × (load c'.blocks device_id ≡ ok b')
        × (c'.nm ≡ c.nm)
        × (((c'.ret ≡ success) × (b'.nonce ≡ (b.nonce + 1) % 2 ^ 32) × (b'.addr ≡ c.addr))
            ⊎ ((succeeded c'.ret ≡ false) × Same b b'))
  unfolding update_addr
  update_addr-cases device_id c b posts (shm, address, attached, mapped) h read =
      let (c₁, b₁, read₁, same₁, nm₁, addr₁, way) =
        with_lock-cases device_id (copy_in sem device_id) c b read in
      let low : ltb device_id c.nm.num_devices ≡ true = ground arith in
      let run : update_addr sem device_id c ≡ with_lock sem device_id (copy_in sem device_id) c =
        when_mapped-eq c.nm.shm shm address _ _ attached mapped
        ∙ if-eq (ltb device_id c.nm.num_devices) _ _ low in
      elim way [
        | inr (c', e, f, r) ↦
            (c', b₁, run ∙ e, rw f read₁, r.nm, inr (not_success c'.ret r.ret, same₁))
        | inl e ↦
            let b₂ : NmBlock S = record b₁ { addr = c₁.addr; nonce = (b₁.nonce + 1) % 2 ^ 32 } in
            let (stored, there) = load-set c₁.blocks device_id b₁ b₂ read₁ in
            let c₂ : NmCall S = record c₁ { blocks = set c₁.blocks device_id b₂ } in
            let (c', b', e', read', same', ret', nm', addr') =
              unlock_block-eq device_id success c₂ b₂ posts there in
            (
              c',
              b',
              run ∙ e ∙ rw stored e',
              read',
              nm' ∙ nm₁,
              inl (ret', same'.0 ∙ ap (λ (x : ℕ). (x + 1) % 2 ^ 32) same₁.0, same'.1 ∙ addr₁),
            )
      ]

  -- What the transmitter's call does to its address, with the nonces `last` and `last'` of its last copy.
  pub data Fetched (c c' : NmCall S) (b : NmBlock S) (last last' : ℕ) : Type 0 where
    refused :
        (c'.ret ≡ blocked) ⊎ (c'.ret ≡ failure)
        → last' ≡ last
        → c'.addr ≡ c.addr
        → Fetched c c' b last last'
    unchanged :
        c'.ret ≡ nochange
        → b.nonce ≡ last
        → last' ≡ last
        → c'.addr ≡ c.addr
        → Fetched c c' b last last'
    copied : c'.ret ≡ success → last' ≡ b.nonce → c'.addr ≡ b.addr → Fetched c c' b last last'

  pub get_addr-cases :
      (device_id : ℕ) (c : NmCall S) (b : NmBlock S) (last : ℕ)
      → Posts
      → IsAttached c.nm
      → load c.blocks device_id ≡ ok b
      → load c.nm.last_nonces device_id ≡ ok last
      → (c' : NmCall S) × (b' : NmBlock S) × (last' : ℕ) × (get_addr sem device_id c ≡ ok c')
        × (load c'.blocks device_id ≡ ok b')
        × Same b b'
        × IsAttached c'.nm
        × (load c'.nm.last_nonces device_id ≡ ok last')
        × Fetched c c' b last last'
  unfolding get_addr
  get_addr-cases device_id c b last posts (shm, address, attached, mapped) read known =
      let (c₁, b₁, read₁, same₁, nm₁, addr₁, way) =
        with_lock-cases device_id (copy_out sem device_id) c b read in
      let run : get_addr sem device_id c ≡ with_lock sem device_id (copy_out sem device_id) c =
        when_mapped-eq c.nm.shm shm address _ _ attached mapped in
      let still : IsAttached c₁.nm = rw nm₁ (shm, address, attached, mapped) in
      let known₁ : load c₁.nm.last_nonces device_id ≡ ok last = rw nm₁ known in
      elim way [
        | inr (c', e, f, r) ↦ (
          c',
          b₁,
          last,
          run ∙ e,
          rw f read₁,
          same₁,
          rw r.nm (shm, address, attached, mapped),
          rw r.nm known,
          refused r.ret refl r.addr,
        )
        | inl e ↦ elim (Bool-cases (b₁.nonce == last)) [
          | inl equal ↦
              let (c', b', e', read', same', ret', nm', addr') =
                unlock_block-eq device_id nochange c₁ b₁ posts read₁ in
              (
                c',
                b',
                last,
                run ∙ e ∙ rw (known₁, equal) e',
                read',
                (same'.0 ∙ same₁.0, same'.1 ∙ same₁.1),
                rw nm' still,
                rw nm' known₁,
                unchanged ret' (sym same₁.0 ∙ (==_iff _ _).0 equal) refl (addr' ∙ addr₁),
              )
          | inr other ↦
              let (stored, there) = load-set c₁.nm.last_nonces device_id last b₁.nonce known₁ in
              let c₂ : NmCall S = record c₁ {
                nm = record (c₁.nm) { last_nonces = set c₁.nm.last_nonces device_id b₁.nonce };
                addr = b₁.addr;
              } in
              let (c', b', e', read', same', ret', nm', addr') =
                unlock_block-eq device_id success c₂ b₁ posts read₁ in
              (
                c',
                b',
                b₁.nonce,
                run ∙ e ∙ rw (known₁, other, stored) e',
                read',
                (same'.0 ∙ same₁.0, same'.1 ∙ same₁.1),
                rw nm' still,
                rw nm' there,
                copied ret' same₁.0 (addr' ∙ same₁.1),
              )
        ]
      ]

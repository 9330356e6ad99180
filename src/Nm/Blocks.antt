-- ===== src/Nm/Blocks.antt =====
-- The class `NmShm` of lib/nm/src/NmShm.cpp: the addresses of devices in shared memory.
use gsw.Prelude.{
  ℕ, zero, suc, ◌+◌, ◌*◌, ◌%◌, ◌^◌, Bool, true, false, Option, none, some, List, [], ◌∷◌, ◌++◌,
  Exec, ok, fault, ◌>>=◌, load, store, RetType, success, failure, blocked, nochange, succeeded, ltb,
  ◌==◌, if◌then◌else◌, replicate,
}
use gsw.Text.{Text, codes}
use gsw.Sem.{Answer, done, again, SemCalls}
use gsw.Shm.{ShmCalls, Shm, shm_of, Done, create, attach, detach, destroy}

pub record SockaddrIn : Type 0 where
  pub sin_family : ℕ
  pub sin_port : ℕ
  pub s_addr : ℕ

-- A device's part of shared memory.
pub record NmBlock (S : Type 0) : Type 0 where
  pub sem : S
  pub nonce : ℕ
  pub addr : SockaddrIn

pub record NmShm : Type 0 where
  pub shm : Option Shm
  pub last_nonces : List ℕ
  pub block_count : ℕ
  pub num_devices : ℕ

abbrev pub nm_key : ℕ
nm_key = 0x54

-- `shm` and `last_nonces` are NULL; `num_devices` is not set, and not read before `init`.
abbrev pub nm_shm_of : ℕ → NmShm
nm_shm_of block_count = record {
  shm = none;
  last_nonces = [];
  block_count = block_count;
  num_devices = 0;
}

-- `block_size` is sizeof(nm_shm_t), and `home` is GSW_HOME.
unfoldable pub init : ℕ → Option Text → ℕ → NmShm → RetType × NmShm
unfolding shm_of
init block_size none num_devices nm = (failure, record nm { num_devices = num_devices })
init block_size (some home) num_devices nm = (
  success,
  record nm {
    num_devices = num_devices;
    last_nonces = replicate num_devices 0;
    shm =
        some (
          shm_of (home ++ codes "/" ++ codes "lib/bin/libnm.so") nm_key (num_devices * block_size));
  },
)

module _ {K : Type 0} (calls : ShmCalls K) where
  -- A call of `shm`, which must not be NULL.
  abbrev on_shm : (Shm → K → Done K) → NmShm → K → Exec (RetType × NmShm × K)
  on_shm call nm kernel = elim nm.shm [
    | none ↦ fault
    | some shm ↦
        let out = call shm kernel in ok (out.ret, record nm { shm = some out.shm }, out.kernel)
  ]

  unfoldable pub attach_nm : NmShm → K → Exec (RetType × NmShm × K)
  unfolding attach
  attach_nm nm kernel = on_shm (attach calls) nm kernel

  unfoldable pub detach_nm : NmShm → K → Exec (RetType × NmShm × K)
  unfolding detach
  detach_nm nm kernel = on_shm (detach calls) nm kernel

  unfoldable pub destroy_nm : NmShm → K → Exec (RetType × NmShm × K)
  unfolding destroy
  destroy_nm nm kernel = on_shm (destroy calls) nm kernel

-- The loop over the devices in zeroed shared memory, where `zeroed` is a sem_t of zeros.
unfoldable pub init_blocks : {S : Type 0} → SemCalls S → S → ℕ → Bool × List (NmBlock S)
init_blocks sem zeroed zero = (true, [])
init_blocks sem zeroed (suc n) =
    let zero_addr : SockaddrIn = record { sin_family = 0; sin_port = 0; s_addr = 0 } in
    let (inited, s) = sem.init 1 zeroed in
    let (rest, blocks) = init_blocks sem zeroed n in
    if inited
    then (rest, record { sem = s; nonce = 0; addr = zero_addr } ∷ blocks)
    else (false, replicate (suc n) (record { sem = zeroed; nonce = 0; addr = zero_addr }))

-- What create leaves: shared memory too.
pub record Created (S K : Type 0) : Type 0 where
  pub ret : RetType
  pub nm : NmShm
  pub kernel : K
  pub blocks : List (NmBlock S)

unfoldable pub create_nm :
    {S K : Type 0} → SemCalls S → S → ShmCalls K → Created S K → Exec (Created S K)
unfolding create attach init_blocks
create_nm sem zeroed calls c = elim c.nm.shm [
  | none ↦ fault
  | some shm ↦
      let made = create calls shm c.kernel in
      let found = attach calls made.shm made.kernel in
      let (inited, blocks) = init_blocks sem zeroed c.nm.num_devices in
      ok (
        if succeeded made.ret
        then if succeeded found.ret
          then record c {
            ret = if inited then success else failure;
            nm = record (c.nm) { shm = some found.shm };
            kernel = found.kernel;
            blocks = blocks;
          }
          else record c {
            ret = failure;
            nm = record (c.nm) { shm = some found.shm };
            kernel = found.kernel;
          }
        else record c {
          ret = failure;
          nm = record (c.nm) { shm = some made.shm };
          kernel = made.kernel;
        })
]

-- A process's call of get_addr or update_addr: what it returns, the object, the function's static
-- `blocked`, which is none before the first call, shared memory, and the caller's address.
pub record NmCall (S : Type 0) : Type 0 where
  pub ret : RetType
  pub nm : NmShm
  pub blocked_now : Option ℕ
  pub blocks : List (NmBlock S)
  pub addr : SockaddrIn

-- The test of `shm->data`: `shm` must not be NULL.
abbrev pub when_mapped {ℓ} : {A : Type ℓ} → Option Shm → Exec A → Exec A → Exec A
when_mapped none unmapped run = fault
when_mapped (some shm) unmapped run = elim shm.data_at [ none ↦ unmapped | some address ↦ run ]

abbrev pub count_of : Option ℕ → NmShm → ℕ
count_of none nm = nm.block_count
count_of (some n) nm = n

module _ {S : Type 0} where
  -- What follows the call of sem_trywait (true) or sem_wait, by its answer.
  abbrev pub after_lock : Answer → Bool → ℕ → Exec (NmCall S) → NmCall S → Exec (NmCall S)
  after_lock done tried n run c = run
  after_lock again true n run c = ok (record c { ret = blocked; blocked_now = some (n + 1) })
  after_lock _ tried n run c = ok (record c { ret = failure })

  -- Locking the device's block, then `run` with that block.
  abbrev pub with_lock :
      SemCalls S → ℕ → (NmBlock S → NmCall S → Exec (NmCall S)) → NmCall S → Exec (NmCall S)
  with_lock sem device_id run c = do
    block ← load c.blocks device_id
    let n = count_of c.blocked_now c.nm
    let tried = ltb n c.nm.block_count
    let (answer, s) = if tried then sem.trywait block.sem else sem.wait block.sem
    blocks ← store c.blocks device_id (record block { sem = s })
    let c' = record c { blocks = blocks; blocked_now = some n }
    after_lock answer tried n (run (record block { sem = s }) c') c'

  -- Unlocking the block, and the end of the call.
  abbrev pub unlock_block : SemCalls S → ℕ → RetType → NmCall S → Exec (NmCall S)
  unlock_block sem device_id ret c = do
    block ← load c.blocks device_id
    let (answer, s) = sem.post block.sem
    blocks ← store c.blocks device_id (record block { sem = s })
    ok (elim answer [
      | done ↦ record c { ret = ret; blocks = blocks; blocked_now = some 0 }
      | _ ↦ record c { ret = failure; blocks = blocks }
    ])

  abbrev pub copy_out : SemCalls S → ℕ → NmBlock S → NmCall S → Exec (NmCall S)
  copy_out sem device_id block c = do
    last ← load c.nm.last_nonces device_id
    if block.nonce == last then unlock_block sem device_id nochange c else (do
      last_nonces ← store c.nm.last_nonces device_id block.nonce
      unlock_block sem device_id success
          (record c { nm = record (c.nm) { last_nonces = last_nonces }; addr = block.addr }))

  abbrev pub copy_in : SemCalls S → ℕ → NmBlock S → NmCall S → Exec (NmCall S)
  copy_in sem device_id block c = do
    blocks ←
        store c.blocks device_id
          (record block { addr = c.addr; nonce = (block.nonce + 1) % 2 ^ 32 })
    unlock_block sem device_id success (record c { blocks = blocks })

  -- The static is set at the first call, whatever becomes of it.
  abbrev pub entered : NmCall S → NmCall S
  entered c = record c { blocked_now = some (count_of c.blocked_now c.nm) }

  unfoldable pub get_addr : SemCalls S → ℕ → NmCall S → Exec (NmCall S)
  get_addr sem device_id c =
      when_mapped c.nm.shm (ok (record (entered c) { ret = failure }))
        (with_lock sem device_id (copy_out sem device_id) c)

  unfoldable pub update_addr : SemCalls S → ℕ → NmCall S → Exec (NmCall S)
  update_addr sem device_id c = when_mapped c.nm.shm (ok (record (entered c) { ret = failure })) (
      if ltb device_id c.nm.num_devices
      then with_lock sem device_id (copy_in sem device_id) c
      else ok (record (entered c) { ret = failure }))

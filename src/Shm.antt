-- ===== src/Shm.antt =====
-- The class `Shm` of lib/shm/src/shm.cpp. The calls of the system are a parameter: they read and change
-- the kernel's state, a `K`.
use gsw.Prelude.{ℕ, Bool, true, false, Option, none, some, RetType, success, failure}
use gsw.Text.{Text}

-- `none` is the result -1 of `ftok`, `shmget` and `shmat`, and true the result 0 of `shmdt` and `shmctl`.
-- `shmget` is told whether it creates the segment, with IPC_CREAT|IPC_EXCL.
pub record ShmCalls (K : Type 0) : Type 0 where
  pub ftok : Text → ℕ → K → Option ℕ
  pub shmget : ℕ → ℕ → Bool → K → Option ℕ × K
  pub shmat : ℕ → K → Option ℕ × K
  pub shmdt : ℕ → K → Bool × K
  pub lock_pages : ℕ → K → K
  pub remove : Option ℕ → K → Bool × K

-- `data` is an address, or NULL, and `shmid` an id, or -1.
pub record Shm : Type 0 where
  pub data_at : Option ℕ
  pub size : ℕ
  pub key_file : Text
  pub key_id : ℕ
  pub shmid : Option ℕ

-- What a call returns, with what it does to the object and to the kernel.
pub record Done (K : Type 0) : Type 0 where
  pub ret : RetType
  pub shm : Shm
  pub kernel : K

unfoldable pub shm_of : Text → ℕ → ℕ → Shm
shm_of file id size = record {
  data_at = none;
  size = size;
  key_file = file;
  key_id = id;
  shmid = none;
}

module _ {K : Type 0} (calls : ShmCalls K) where
  abbrev return : RetType → Shm → K → Done K
  return ret shm kernel = record { ret = ret; shm = shm; kernel = kernel }

  -- The segment of the object's key: its id is stored, then the call goes on.
  abbrev get_id : Bool → (ℕ → Shm → K → Done K) → Shm → K → Done K
  get_id new next shm kernel = elim (calls.ftok shm.key_file shm.key_id kernel) [
    | none ↦ return failure shm kernel
    | some key ↦
        let (id, kernel') = calls.shmget key shm.size new kernel in
        elim id [
          | none ↦ return failure (record shm { shmid = none }) kernel'
          | some i ↦ next i (record shm { shmid = some i }) kernel'
        ]
  ]

  unfoldable pub create : Shm → K → Done K
  create shm kernel = get_id true (λ i. return success) shm kernel

  unfoldable pub attach : Shm → K → Done K
  attach shm kernel =
      get_id false
        (λ i shm' kernel'.
          let (address, kernel'') = calls.shmat i kernel' in
          elim address [
            | none ↦ return failure (record shm' { data_at = none }) kernel''
            | some a ↦
                return success (record shm' { data_at = some a }) (calls.lock_pages i kernel'')
          ])
        shm kernel

  unfoldable pub detach : Shm → K → Done K
  detach shm kernel = elim shm.data_at [
    | none ↦ return failure shm kernel
    | some a ↦
        let (detached, kernel') = calls.shmdt a kernel in
        elim detached [
          | true ↦ return success (record shm { data_at = none }) kernel'
          | false ↦ return failure shm kernel'
        ]
  ]

  unfoldable pub destroy : Shm → K → Done K
  destroy shm kernel = elim shm.data_at [
    | none ↦ return failure shm kernel
    | some a ↦
        let (removed, kernel') = calls.remove shm.shmid kernel in
        elim removed [
          | true ↦ return success (record shm { data_at = none; shmid = none }) kernel'
          | false ↦ return failure shm kernel'
        ]
  ]

-- ===== src/Telemetry/Viewer.antt =====
-- `TelemetryViewer` of lib/telemetry/src/TelemetryViewer.cpp: what a reader of telemetry tracks,
-- how it copies packets out of shared memory, and how it looks up the value of a measurement.
pub mod Distinct
pub mod Tracking
pub mod Copies
pub mod Update
pub mod Latest
pub mod Values
mod Tests
use gsw.Prelude.{
  ℕ, zero, suc, ◌+◌, ◌-◌, ◌^◌, Bool, true, false, Option, none, some, List, [], ◌∷◌, ◌++◌, Exec, ok,
  err, fault, ◌>>=◌, ◌>>◌, guard, load, store, RetType, success, failure, ltb, length, mem, or_fail,
  if◌then◌else◌, replicate, drop,
}
use gsw.Text.{Text}
use gsw.Vcm.Types.{MeasurementInfo, PacketInfo, LocationInfo, Endianness}
use gsw.Vcm.Config.{Vcm, get_info}
use gsw.Bytes.{copy_loop}
use gsw.Convert.To as To
use gsw.Convert.To.{Printf}
use gsw.Telemetry.Shm.State.{
  Shared, TelemetryShm, ReadMode, standard_read, blocking_read, nonblocking_read, set_read_mode,
}
use gsw.Telemetry.Shm.Read.{
  Round, Attempt, attempt, attempt_all, clear_updated, read_lock, read_lock_all, read_unlock,
}
use gsw.Telemetry.Shm.Read.Held.{held}
use gsw.Telemetry.Shm.Query.{get_buffer, update_value}

-- `packet_ids` holds the first `num_packets` elements of the array, which has room for as many as
-- the vehicle has packets. `packet_buffers[i]` is none where it is NULL. (`update_mode` is only handed
-- on to shared memory's object, and the flags of ownership are for the destructor.)
pub record TelemetryViewer : Type 0 where
  pub vcm : Vcm
  pub check_all : Bool
  pub packet_ids : List ℕ
  pub packet_sizes : List ℕ
  pub packet_buffers : List (Option (List ℕ))

-- `init(vcm, shm)` with an open `shm`. The constructor leaves `check_all` as memory has it, and the
-- elements of `packet_sizes` are not initialised: both are arguments.
unfoldable pub init : Vcm → Bool → List ℕ → TelemetryViewer
init vcm check_all packet_sizes = record {
  vcm = vcm;
  check_all = check_all;
  packet_ids = [];
  packet_sizes = packet_sizes;
  packet_buffers = replicate vcm.num_packets none;
}

unfoldable pub remove_all : TelemetryViewer → TelemetryViewer
remove_all v = record v { check_all = false; packet_ids = [] }

-- A call returns the viewer with its code: what was added before a failure stays.
abbrev pub Outcome : Type 0
Outcome = Exec (TelemetryViewer × RetType)

-- `packet_ids[num_packets] = packet_id; num_packets++;`, where the array has `room` elements.
abbrev pub push_id : ℕ → List ℕ → ℕ → Exec (List ℕ)
push_id room ids id = if ltb (length ids) room then ok (ids ++ id ∷ []) else fault

unfoldable pub add : TelemetryViewer → ℕ → Outcome
add v packet_id =
    if ltb packet_id v.vcm.num_packets
    then if mem packet_id v.packet_ids then ok (v, success) else (do
      ids ← push_id v.vcm.num_packets v.packet_ids packet_id
      packet ← load v.vcm.packets packet_id
      sizes ← store v.packet_sizes packet_id packet.size
      buffers ← store v.packet_buffers packet_id (some (replicate packet.size 0))
      ok (record v { packet_ids = ids; packet_sizes = sizes; packet_buffers = buffers }, success))
    else ok (v, failure)

-- The next call of a loop that stops at a failure.
abbrev pub unless_failed : (TelemetryViewer → Outcome) → TelemetryViewer × RetType → Outcome
unless_failed next (v, failure) = ok (v, failure)
unless_failed next (v, _) = next v

-- for(id = 0; id < num_packets; id++) add(id);
unfoldable pub add_range : ℕ → ℕ → TelemetryViewer → Outcome
add_range zero id v = ok (v, success)
add_range (suc n) id v = add v id >>= unless_failed (λ v'. add_range n (id + 1) v')

unfoldable pub add_all : TelemetryViewer → Outcome
unfolding add_range
add_all v = add_range v.vcm.num_packets 0 (record v { check_all = true })

unfoldable pub add_places : List LocationInfo → TelemetryViewer → Outcome
add_places [] v = ok (v, success)
add_places (loc ∷ locs) v = add v loc.packet_index >>= unless_failed (λ v'. add_places locs v')

-- `add(info)`, where none is NULL.
unfoldable pub add_measurement : TelemetryViewer → Option MeasurementInfo → Outcome
unfolding add_places
add_measurement v none = ok (v, failure)
add_measurement v (some info) = add_places info.locations v

unfoldable pub add_name : TelemetryViewer → Text → Outcome
unfolding add_measurement
add_name v measurement = add_measurement v (get_info v.vcm measurement)

pub data UpdateMode : Type 0 where
  standard_update blocking_update nonblocking_update : UpdateMode

unfoldable pub read_mode_of : UpdateMode → ReadMode
read_mode_of standard_update = standard_read
read_mode_of blocking_update = blocking_read
read_mode_of nonblocking_update = nonblocking_read

unfoldable pub set_update_mode : TelemetryShm → UpdateMode → TelemetryShm
unfolding read_mode_of
set_update_mode t mode = set_read_mode t (read_mode_of mode)

abbrev pub deref {ℓ} : {A : Type ℓ} → Option A → Exec A
deref none = fault
deref (some a) = ok a

-- memcpy(packet_buffers[id], shm->get_buffer(id), packet_sizes[id]); NULL is a fault.
unfoldable pub copy_packet : Shared → TelemetryShm → TelemetryViewer → ℕ → Exec TelemetryViewer
copy_packet s t v id = do
  marked ← load t.updated id
  if marked
      then (do
        entry ← load v.packet_buffers id
        dst ← deref entry
        size ← load v.packet_sizes id
        src ← (elim (get_buffer t s id) [ ok b ↦ ok b | err e ↦ Exec.fault | fault ↦ Exec.fault ])
        buffer ← copy_loop (λ i. i) (λ i. i) size 0 dst src
        buffers ← store v.packet_buffers id (some buffer)
        ok (record v { packet_buffers = buffers }))
      else ok v

unfoldable pub copy_packets :
    Shared → TelemetryShm → List ℕ → TelemetryViewer → Exec TelemetryViewer
copy_packets s t [] v = ok v
copy_packets s t (id ∷ ids) v = copy_packet s t v id >>= λ v'. copy_packets s t ids v'

abbrev pub Update : Type 0
Update = Exec (TelemetryViewer × TelemetryShm × Option RetType)

-- Behind the lock: copy what was updated, and unlock.
unfoldable pub copy_and_unlock : Option Shared → TelemetryShm → TelemetryViewer → Update
unfolding copy_packets
copy_and_unlock none t v = fault
copy_and_unlock (some s) t v = do
  v' ← copy_packets s t v.packet_ids v
  elim (read_unlock t false) [
    | ok t' ↦ ok (v', t', some success)
    | err e ↦ ok (v', t, some failure)
    | fault ↦ Exec.fault
  ]

abbrev pub after_lock : Option Shared → TelemetryViewer → TelemetryShm × Option RetType → Update
after_lock s v (t, some success) = copy_and_unlock s t v
after_lock s v (t, r) = ok (v, t, r)

-- `update(timeout)`. `none` is a reader that still waits.
unfoldable pub update : TelemetryViewer → TelemetryShm → List Round → Update
unfolding copy_and_unlock
update v t rounds =
    if v.check_all
    then (read_lock_all t rounds >>= after_lock (held attempt_all rounds (clear_updated t)) v)
    else (read_lock t v.packet_ids rounds
        >>= after_lock (held (attempt v.packet_ids) rounds (clear_updated t)) v)

abbrev pub int_max : ℕ
int_max = 2 ^ 31 - 1

-- The loop of `latest_data`: the smallest update value so far, and where it was found.
unfoldable pub best_loop :
    TelemetryShm → List LocationInfo → ℕ → Option LocationInfo → Exec (Option LocationInfo)
best_loop t [] best best_loc = ok best_loc
best_loop t (loc ∷ locs) best best_loc = do
  curr ← update_value t loc.packet_index
  let better = ltb curr best
  best_loop t locs (if better then curr else best) (if better then some loc else best_loc)

-- The memory from the pointer on that `latest_data` gives. A pointer that was not set is a fault, as
-- soon as it is used.
unfoldable pub latest_data : TelemetryViewer → TelemetryShm → MeasurementInfo → Exec (List ℕ)
unfolding best_loop
latest_data v t meas = elim meas.locations [
  | [] ↦ err failure
  | loc ∷ locs ↦ do
    found ← best_loop t (loc ∷ locs) int_max none
    best_loc ← deref found
    entry ← load v.packet_buffers best_loc.packet_index
    buffer ← deref entry
    ok (drop best_loc.offset buffer)
]

unfoldable pub updated_loop : TelemetryShm → List LocationInfo → Exec Bool
updated_loop t [] = ok false
updated_loop t (loc ∷ locs) =
    load t.updated loc.packet_index >>= λ b. elim b [ true ↦ ok true | false ↦ updated_loop t locs ]

unfoldable pub updated : TelemetryShm → MeasurementInfo → Exec Bool
unfolding updated_loop
updated t meas = updated_loop t meas.locations

-- The functions that look the measurement up at its latest place and convert it.
abbrev pub Get : Type 0 → Type 0
Get A = TelemetryViewer → TelemetryShm → MeasurementInfo → Exec A

unfoldable pub get_str : Printf → Get (List ℕ)
unfolding latest_data
get_str p v t meas = latest_data v t meas >>= To.convert_to_string p v.vcm.sys_endianness meas

unfoldable pub get_float : Get ℕ
unfolding latest_data
get_float v t meas = latest_data v t meas >>= To.convert_to_float v.vcm.sys_endianness meas

unfoldable pub get_double : Get ℕ
unfolding latest_data
get_double v t meas = latest_data v t meas >>= To.convert_to_double v.vcm.sys_endianness meas

unfoldable pub get_int : Get ℕ
unfolding latest_data
get_int v t meas = latest_data v t meas >>= To.convert_to_int32 v.vcm.sys_endianness meas

unfoldable pub get_uint : Get ℕ
unfolding latest_data
get_uint v t meas = latest_data v t meas >>= To.convert_to_uint32 v.vcm.sys_endianness meas

-- `get_raw(meas, uint8_t*)`: the bytes are copied to the start of `buffer`.
unfoldable pub get_raw : List ℕ → Get (List ℕ)
unfolding latest_data
get_raw buffer v t meas = latest_data v t meas >>= copy_loop (λ i. i) (λ i. i) meas.size 0 buffer

-- `get_raw(meas, uint8_t**)`: the place itself.
unfoldable pub get_place : Get (List ℕ)
unfolding latest_data
get_place = latest_data

-- The same functions for the name of a measurement.
unfoldable pub by_name {ℓ} :
    {A : Type ℓ}
    → (TelemetryViewer → TelemetryShm → MeasurementInfo → Exec A)
    → TelemetryViewer
    → TelemetryShm
    → Text
    → Exec A
by_name get v t name = do m_info ← or_fail (get_info v.vcm name); get v t m_info

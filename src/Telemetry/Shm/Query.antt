-- ===== src/Telemetry/Shm/Query.antt =====
-- `get_buffer`, `packet_updated`, `update_value` and `more_recent_packet` of
-- lib/telemetry/src/TelemetryShm.cpp.
pub mod Laws
use gsw.Prelude.{
  ℕ, zero, suc, ◌+◌, ◌-◌, ◌^◌, ◌%◌, Bool, List, [], ◌∷◌, Option, none, some, Exec, ok, ◌>>=◌, ◌>>◌,
  guard, load, failure, ltb, ◌==◌, if◌then◌else◌,
}
use gsw.Telemetry.Shm.State.{Shared, TelemetryShm}

-- A uint32_t a - b.
abbrev pub sub32 : ℕ → ℕ → ℕ
sub32 a b = (a + 2 ^ 32 - b) % 2 ^ 32

unfoldable pub get_buffer : TelemetryShm → Shared → ℕ → Exec (List ℕ)
get_buffer t s packet_id = do
  guard (ltb packet_id t.num_packets) failure
  guard t.initialised failure
  load s.packets packet_id

unfoldable pub packet_updated : TelemetryShm → Shared → ℕ → Exec Bool
packet_updated t s packet_id = do
  guard t.read_locked failure
  guard (ltb packet_id t.num_packets) failure
  nonce ← load s.nonces packet_id
  last ← load t.last_nonces packet_id
  ok (last == nonce)

unfoldable pub update_value : TelemetryShm → ℕ → Exec ℕ
update_value t packet_id = do
  guard (ltb packet_id t.num_packets) failure
  last ← load t.last_nonces packet_id
  ok (sub32 t.last_nonce last)

abbrev pub uint_max : ℕ
uint_max = 2 ^ 32 - 1

-- `best_diff` stays UINT_MAX. `recent` is none until it is first set.
unfoldable pub recent_loop : TelemetryShm → ℕ → List ℕ → Option ℕ → Exec (Option ℕ)
recent_loop t i [] recent = ok recent
recent_loop t i (id ∷ ids) recent = do
  guard (ltb id t.num_packets) failure
  last ← load t.last_nonces i
  recent_loop t (i + 1) ids (if ltb (sub32 t.last_nonce last) uint_max then some i else recent)

unfoldable pub more_recent_packet : TelemetryShm → List ℕ → Exec (Option ℕ)
unfolding recent_loop
more_recent_packet t ids = recent_loop t 0 ids none

-- ===== src/Xbee.antt =====
-- The frames that lib/dev/xbee/src/xbee.c sends, and the byte orders of lib/dev/xbee/src/net.c, on a
-- little-endian host. A uint64_t address in network order is its eight bytes in memory.
pub mod Buffer
pub mod Laws
pub mod Receive
mod Tests
use gsw.Prelude.{
  ℕ, zero, suc, ◌+◌, ◌-◌, ◌/◌, ◌%◌, ◌^◌, Bool, true, false, List, [], ◌∷◌, Exec, ok, ◌>>=◌, load,
  store, take, ltb, ◌==◌, if◌then◌else◌,
}
use gsw.Prelude.Int.{ℤ, pos, negsuc}
use gsw.Bytes.{copy_loop}

-- ret[i] = n; n >>= 8; for i from the last byte to the first.
unfoldable pub hton_loop : ℕ → ℕ → List ℕ → List ℕ
hton_loop zero n ret = ret
hton_loop (suc i) n ret = hton_loop i (n / 256) (n % 256 ∷ ret)

abbrev pub hton16 : ℕ → List ℕ
unfolding hton_loop
hton16 n = hton_loop 2 n []

abbrev pub hton64 : ℕ → List ℕ
unfolding hton_loop
hton64 n = hton_loop 8 n []

pub data XbRet : Type 0 where
  xb_ok xb_err : XbRet

abbrev pub tx_buff_size : ℕ
tx_buff_size = 1024

abbrev pub start_delimiter : ℕ
start_delimiter = 0x7E

-- 0xFFFF in network order.
abbrev pub broadcast : List ℕ
broadcast = 0 ∷ 0 ∷ 0 ∷ 0 ∷ 0 ∷ 0 ∷ 0xFF ∷ 0xFF ∷ []

-- The function that `xb_write` points to: what it returns for the bytes that it is given.
abbrev pub Write : Type 0
Write = List ℕ → ℤ

-- A call leaves the transmit buffer, and returns its code; `sent` are the bytes given to `xb_write`.
pub record Sent : Type 0 where
  pub tx_buff : List ℕ
  pub sent : List ℕ
  pub ret : XbRet

-- The bytes of a field are assigned.
unfoldable pub put : List ℕ → ℕ → List ℕ → Exec (List ℕ)
put buff off [] = ok buff
put buff off (b ∷ bs) = store buff off b >>= λ buff'. put buff' (off + 1) bs

-- memcpy(buff + off, src, len)
abbrev pub memcpy : List ℕ → ℕ → List ℕ → ℕ → Exec (List ℕ)
memcpy buff off src len = copy_loop (λ i. off + i) (λ i. i) len 0 buff src

-- uint8_t check; for(; n more rounds; i++) check += tx_buff[i];
unfoldable pub check_loop : List ℕ → ℕ → ℕ → ℕ → Exec ℕ
check_loop buff zero i check = ok check
check_loop buff (suc n) i check = do b ← load buff i; check_loop buff n (i + 1) ((check + b) % 256)

-- The checksum of the bytes from 3 on is stored behind them, at `n`.
unfoldable pub add_check : List ℕ → ℕ → Exec (List ℕ)
unfolding check_loop
add_check buff n = do check ← check_loop buff (n - 3) 3 0; store buff n (0xFF - check)

-- xb_write(tx_buff, n) == n
abbrev pub wrote_all : ℤ → ℕ → Bool
wrote_all (pos m) n = m == n
wrote_all (negsuc m) n = false

-- xb_write(tx_buff, n) < n
abbrev pub wrote_less : ℤ → ℕ → Bool
wrote_less (pos m) n = ltb m n
wrote_less (negsuc m) n = true

unfoldable pub xb_sendto : Write → List ℕ → List ℕ → List ℕ → ℕ → Exec Sent
xb_sendto write tx_buff addr payload len = do
  b₁ ← put tx_buff 0 (start_delimiter ∷ [])
  b₂ ← put b₁ 1 (hton16 ((len + 17 - 3) % 2 ^ 16))
  b₃ ← put b₂ 3 (0x10 ∷ [])
  b₄ ← put b₃ 4 (0 ∷ [])
  b₅ ← put b₄ 5 addr
  b₆ ← put b₅ 13 (0xFF ∷ 0xFE ∷ [])
  b₇ ← put b₆ 15 (0 ∷ [])
  b₈ ← put b₇ 16 (0x80 ∷ [])
  b₉ ← memcpy b₈ 17 payload len
  buff ← add_check b₉ (len + 17)
  let sent = take (len + 17 + 1) buff
  ok (record {
    tx_buff = buff;
    sent = sent;
    ret = if wrote_all (write sent) (len + 17 + 1) then xb_ok else xb_err;
  })

unfoldable pub xb_send : Write → List ℕ → List ℕ → List ℕ → ℕ → Exec Sent
xb_send write tx_buff default_dst payload len = xb_sendto write tx_buff default_dst payload len

abbrev finish_command : Write → List ℕ → ℕ → Exec Sent
finish_command write buff n = do
  buff' ← add_check buff n
  let sent = take (n + 1) buff'
  ok (record {
    tx_buff = buff';
    sent = sent;
    ret = if wrote_less (write sent) (n + 1) then xb_err else xb_ok;
  })

-- `cmd` are the two bytes of the command.
unfoldable pub xb_remote_at_cmd : Write → List ℕ → List ℕ → List ℕ → List ℕ → ℕ → Exec Sent
xb_remote_at_cmd write tx_buff default_dst cmd param param_size = do
  b₁ ← put tx_buff 0 (start_delimiter ∷ [])
  b₂ ← put b₁ 1 (hton16 ((18 - 3 + param_size) % 2 ^ 16))
  b₃ ← put b₂ 3 (0x17 ∷ [])
  b₄ ← put b₃ 4 (0 ∷ [])
  b₅ ← put b₄ 5 default_dst
  b₆ ← put b₅ 13 (hton16 0xFFFE)
  b₇ ← put b₆ 15 (0x02 ∷ [])
  b₈ ← put b₇ 16 cmd
  b₉ ← memcpy b₈ 18 param param_size
  finish_command write b₉ (18 + param_size)

-- The parameter is copied, and the checksum taken, as if the frame were a remote one.
unfoldable pub xb_at_cmd : Write → List ℕ → List ℕ → List ℕ → ℕ → Exec Sent
xb_at_cmd write tx_buff cmd param param_size = do
  b₁ ← put tx_buff 0 (start_delimiter ∷ [])
  b₂ ← put b₁ 1 (hton16 ((7 - 3 + param_size) % 2 ^ 16))
  b₃ ← put b₂ 3 (0x08 ∷ [])
  b₄ ← put b₃ 4 (0 ∷ [])
  b₅ ← put b₄ 5 cmd
  b₆ ← memcpy b₅ 18 param param_size
  finish_command write b₆ (18 + param_size)

pub data XbDio : Type 0 where
  xb_dio12 : XbDio

pub data XbDioOutput : Type 0 where
  xb_dio_high xb_dio_low : XbDioOutput

abbrev dio_command : XbDio → List ℕ
dio_command xb_dio12 = b'P' ∷ b'2' ∷ []

abbrev dio_param : XbDioOutput → List ℕ
dio_param xb_dio_high = 0x05 ∷ []
dio_param xb_dio_low = 0x04 ∷ []

unfoldable pub xb_cmd_remote_dio : Write → List ℕ → List ℕ → XbDio → XbDioOutput → Exec Sent
unfolding xb_remote_at_cmd
xb_cmd_remote_dio write tx_buff default_dst dio output =
    xb_remote_at_cmd write tx_buff default_dst (dio_command dio) (dio_param output) 1

unfoldable pub xb_cmd_dio : Write → List ℕ → XbDio → XbDioOutput → Exec Sent
unfolding xb_at_cmd
xb_cmd_dio write tx_buff dio output = xb_at_cmd write tx_buff (dio_command dio) (dio_param output) 1

unfoldable pub xb_set_net_id : Write → List ℕ → ℕ → Exec Sent
unfolding xb_at_cmd
xb_set_net_id write tx_buff id =
    if ltb 0x7FFF id
    then ok (record { tx_buff = tx_buff; sent = []; ret = xb_err })
    else xb_at_cmd write tx_buff (b'I' ∷ b'D' ∷ []) (hton16 id) 2

-- `xb_set_default_dst`: the address that is kept.
unfoldable pub xb_set_default_dst : ℕ → List ℕ
xb_set_default_dst addr = hton64 addr

-- `xb_init`: what is written, between silences, and the code.
unfoldable pub xb_init : Write → List (List ℕ) × XbRet
xb_init write =
    let mode : List ℕ = b'+' ∷ b'+' ∷ b'+' ∷ [] in
    let api : List ℕ = b'A' ∷ b'T' ∷ b'A' ∷ b'P' ∷ b'1' ∷ 13 ∷ [] in
    if wrote_less (write mode) 3
    then (mode ∷ [], xb_err)
    else (mode ∷ api ∷ [], (if wrote_less (write api) 6 then xb_err else xb_ok))

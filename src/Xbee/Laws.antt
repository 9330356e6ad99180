-- ===== src/Xbee/Laws.antt =====
-- The frames that are sent are frames of the XBee's API.
use mathlib.Core.List.{append_assoc}
use gsw.Prelude.{
  ℕ, ◌+◌, ◌-◌, ◌/◌, ◌%◌, ◌^◌, ◌≤◌, ◌<◌, ◌≡◌, refl, sym, ap, ◌∙◌, List, [], ◌∷◌, ◌++◌, ok, take,
  length, length-append, length-take, arith, if◌then◌else◌,
}
use gsw.Xbee.{
  Write, xb_ok, xb_err, put, memcpy, add_check, hton16, hton_loop, start_delimiter, tx_buff_size,
  xb_sendto, xb_remote_at_cmd, wrote_all, wrote_less,
}
use gsw.Xbee.Buffer.{
  Starts, start-Starts, put-Starts, memcpy-Starts, add_check-Starts, take-Starts, sum_from,
}

abbrev pub total : List ℕ → ℕ
total [] = 0
total (b ∷ bs) = b + total bs

-- A frame of the API around a body: the delimiter, the body's length with its high byte first, the
-- body, and 0xFF less the low byte of the body's sum.
abbrev pub api_frame : List ℕ → List ℕ
api_frame body =
    start_delimiter
    ∷ length body / 256
    ∷ length body % 256
    ∷ (body ++ (0xFF - total body % 256) ∷ [])

pub sum_from-total :
    (check : ℕ) (bs : List ℕ) → check < 256 → sum_from check bs ≡ (check + total bs) % 256
sum_from-total check [] h = omega arith
sum_from-total check (b ∷ bs) h = sum_from-total ((check + b) % 256) bs (omega arith) ∙ omega arith

hton16-eq : (n : ℕ) → n < 2 ^ 16 → hton16 (n % 2 ^ 16) ≡ n / 256 ∷ n % 256 ∷ []
unfolding hton_loop
hton16-eq n h =
    let small : n % 2 ^ 16 ≡ n = omega arith in
    let high : n / 256 % 256 ≡ n / 256 = omega arith in rw (small, high) refl

-- What both kinds of frames end with: the buffer holds a header and a body.
framed :
    (size n : ℕ) (body buff : List ℕ) (high low : ℕ)
    → Starts size ((start_delimiter ∷ high ∷ low ∷ []) ++ body) buff
    → n ≡ 3 + length body
    → n < size
    → high ≡ length body / 256
    → low ≡ length body % 256
    → (buff' : List ℕ) × (add_check buff n ≡ ok buff') × (take (n + 1) buff' ≡ api_frame body)
framed size n body buff high low s e h p q =
    let (buff', f, s') =
      add_check-Starts size n (start_delimiter ∷ high ∷ low ∷ []) body buff s refl e h in
    let sum : sum_from 0 body ≡ total body % 256 =
      sum_from-total 0 body (omega arith) ∙ omega arith in
    (
      buff',
      f,
      take-Starts size (n + 1)
            ((start_delimiter ∷ high ∷ low ∷ body) ++ (0xFF - sum_from 0 body) ∷ []) buff' s'
            (omega (
              arith,
              length-append (start_delimiter ∷ high ∷ low ∷ body) ((0xFF - sum_from 0 body) ∷ []),
            ))
          ∙ rw (p, q, sum) refl,
    )

-- The body of a transmit request: no frame id, the address, the reserved bytes, no radius, options.
abbrev pub tx_body : List ℕ → List ℕ → List ℕ
tx_body addr payload = 0x10 ∷ 0 ∷ (addr ++ (0xFF ∷ 0xFE ∷ 0 ∷ 0x80 ∷ payload))

regrouped : (a b c d e : List ℕ) → (((a ++ b) ++ c) ++ d) ++ e ≡ a ++ (b ++ (c ++ (d ++ e)))
regrouped a b c d e =
    rw
      (
        append_assoc ((a ++ b) ++ c) d e,
        append_assoc (a ++ b) c (d ++ e),
        append_assoc a b (c ++ (d ++ e)),
      )
      refl

abbrev head_of : ℕ → List ℕ
head_of n = start_delimiter ∷ n / 256 ∷ n % 256 ∷ []

-- The fields up to the address, which both kinds of frames have.
addressed :
    (tx_buff addr : List ℕ) (n type : ℕ)
    → length tx_buff ≡ tx_buff_size
    → length addr ≡ 8
    → n < 2 ^ 16
    → (b₁ b₂ b₃ b₄ b₅ : List ℕ) × (put tx_buff 0 (start_delimiter ∷ []) ≡ ok b₁)
      × (put b₁ 1 (hton16 (n % 2 ^ 16)) ≡ ok b₂)
      × (put b₂ 3 (type ∷ []) ≡ ok b₃)
      × (put b₃ 4 (0 ∷ []) ≡ ok b₄)
      × (put b₄ 5 addr ≡ ok b₅)
      × Starts tx_buff_size (head_of n ++ (type ∷ 0 ∷ addr)) b₅
addressed tx_buff addr n type size eight h =
    let s₀ : Starts 1024 [] tx_buff = start-Starts 1024 tx_buff size in
    let (b₁, e₁, s₁) = put-Starts 1024 [] (start_delimiter ∷ []) tx_buff 0 s₀ refl (omega arith) in
    let (b₂, e₂, s₂) =
      put-Starts 1024 (start_delimiter ∷ []) (n / 256 ∷ n % 256 ∷ []) b₁ 1 s₁ refl (omega arith) in
    let (b₃, e₃, s₃) = put-Starts 1024 (head_of n) (type ∷ []) b₂ 3 s₂ refl (omega arith) in
    let (b₄, e₄, s₄) =
      put-Starts 1024 (head_of n ++ (type ∷ [])) (0 ∷ []) b₃ 4 s₃ refl (omega arith) in
    let (b₅, e₅, s₅) =
      put-Starts 1024 (head_of n ++ (type ∷ 0 ∷ [])) addr b₄ 5 s₄ refl (omega arith) in
    (b₁, b₂, b₃, b₄, b₅, e₁, rw (hton16-eq n h) e₂, e₃, e₄, e₅, s₅)

-- Three more fields, of four bytes, and a block of memory behind the address.
extended :
    (buff addr f₆ f₇ f₈ src : List ℕ) (n type len o₇ o₈ o₉ : ℕ)
    → Starts tx_buff_size (head_of n ++ (type ∷ 0 ∷ addr)) buff
    → length addr ≡ 8
    → o₇ ≡ 13 + length f₆
    → o₈ ≡ o₇ + length f₇
    → o₉ ≡ o₈ + length f₈
    → len ≤ length src
    → o₉ + len ≤ tx_buff_size
    → (b₆ b₇ b₈ b₉ : List ℕ) × (put buff 13 f₆ ≡ ok b₆)
      × (put b₆ o₇ f₇ ≡ ok b₇)
      × (put b₇ o₈ f₈ ≡ ok b₈)
      × (memcpy b₈ o₉ src len ≡ ok b₉)
      × Starts tx_buff_size
          (head_of n ++ (type ∷ 0 ∷ (addr ++ (f₆ ++ (f₇ ++ (f₈ ++ take len src))))))
          b₉
extended buff addr f₆ f₇ f₈ src n type len o₇ o₈ o₉ s₅ eight p₇ p₈ p₉ enough fits =
    let l₆ = length-append addr f₆ in
    let l₇ = length-append (addr ++ f₆) f₇ in
    let l₈ = length-append ((addr ++ f₆) ++ f₇) f₈ in
    let (b₆, e₆, s₆) =
      put-Starts 1024 (head_of n ++ (type ∷ 0 ∷ addr)) f₆ buff 13 s₅ (omega arith) (omega arith) in
    let (b₇, e₇, s₇) =
      put-Starts 1024 (head_of n ++ (type ∷ 0 ∷ (addr ++ f₆))) f₇ b₆ o₇ s₆ (omega arith)
        (omega arith) in
    let (b₈, e₈, s₈) =
      put-Starts 1024 (head_of n ++ (type ∷ 0 ∷ ((addr ++ f₆) ++ f₇))) f₈ b₇ o₈ s₇ (omega arith)
        (omega arith) in
    let (b₉, e₉, s₉) =
      memcpy-Starts 1024 len o₉ (head_of n ++ (type ∷ 0 ∷ (((addr ++ f₆) ++ f₇) ++ f₈))) src b₈ s₈
        (omega arith) enough (omega arith) in
    (b₆, b₇, b₈, b₉, e₆, e₇, e₈, e₉, rw (regrouped addr f₆ f₇ f₈ (take len src)) at s₉)

-- Of a payload of at most 1006 bytes `xb_sendto` hands one frame of the API to the write function,
-- a transmit request with the address and the payload, within the transmit buffer; it returns XB_OK
-- if the function has written as many bytes.
pub xb_sendto-frame :
    (write : Write) (tx_buff addr payload : List ℕ) (len : ℕ)
    → length tx_buff ≡ tx_buff_size
    → length addr ≡ 8
    → len ≤ length payload
    → len ≤ 1006
    → (buff : List ℕ) × (xb_sendto write tx_buff addr payload len
        ≡ ok (record {
          tx_buff = buff;
          sent = api_frame (tx_body addr (take len payload));
          ret =
              if wrote_all (write (api_frame (tx_body addr (take len payload)))) (len + 18)
              then xb_ok
              else xb_err;
        }))
unfolding xb_sendto
xb_sendto-frame write tx_buff addr payload len size eight enough fits =
    let n : ℕ = len + 14 in
    let (b₁, b₂, b₃, b₄, b₅, e₁, e₂, e₃, e₄, e₅, s₅) =
      addressed tx_buff addr n 0x10 size eight (omega arith) in
    let (b₆, b₇, b₈, b₉, e₆, e₇, e₈, e₉, s₉) =
      extended b₅ addr (0xFF ∷ 0xFE ∷ []) (0 ∷ []) (0x80 ∷ []) payload n 0x10 len 15 16 17 s₅ eight
        refl refl refl enough (omega arith) in
    let body : List ℕ = tx_body addr (take len payload) in
    let count : length body ≡ n = omega (
      arith,
      length-append addr (0xFF ∷ 0xFE ∷ 0 ∷ 0x80 ∷ take len payload),
      length-take len payload,
    ) in
    let (b, e, f) =
      framed 1024 (len + 17) body b₉ (n / 256) (n % 256) s₉ (omega (arith, count)) (omega arith)
        (ap (λ (x : ℕ). x / 256) (sym count)) (ap (λ (x : ℕ). x % 256) (sym count)) in
    let same : len + 17 - 3 ≡ n = omega arith in
    let all : len + 17 + 1 ≡ len + 18 = omega arith in
    (b, rw (same, e₁, e₂, e₃, e₄, e₅, e₆, e₇, e₈, e₉, e, f, all) refl)

-- The body of a remote command: no frame id, the address, the reserved bytes, apply at once, the
-- command and its parameter.
abbrev pub remote_body : List ℕ → ℕ → ℕ → List ℕ → List ℕ
remote_body addr first second param =
    0x17 ∷ 0 ∷ (addr ++ (0xFF ∷ 0xFE ∷ 0x02 ∷ first ∷ second ∷ param))

-- Of a parameter of at most 1005 bytes `xb_remote_at_cmd` hands one frame of the API to the write
-- function, a remote command with the default address, the command and the parameter, within the
-- transmit buffer; it returns XB_OK unless the function has written fewer bytes.
pub xb_remote_at_cmd-frame :
    (write : Write) (tx_buff addr param : List ℕ) (first second size : ℕ)
    → length tx_buff ≡ tx_buff_size
    → length addr ≡ 8
    → size ≤ length param
    → size ≤ 1005
    → (buff : List ℕ) × (xb_remote_at_cmd write tx_buff addr (first ∷ second ∷ []) param size
        ≡ ok (record {
          tx_buff = buff;
          sent = api_frame (remote_body addr first second (take size param));
          ret =
              if wrote_less
                (write (api_frame (remote_body addr first second (take size param))))
                (18 + size + 1)
              then xb_err
              else xb_ok;
        }))
unfolding xb_remote_at_cmd hton_loop
xb_remote_at_cmd-frame write tx_buff addr param first second size whole eight enough fits =
    let n : ℕ = 15 + size in
    let (b₁, b₂, b₃, b₄, b₅, e₁, e₂, e₃, e₄, e₅, s₅) =
      addressed tx_buff addr n 0x17 whole eight (omega arith) in
    let (b₆, b₇, b₈, b₉, e₆, e₇, e₈, e₉, s₉) =
      extended b₅ addr (0xFF ∷ 0xFE ∷ []) (0x02 ∷ []) (first ∷ second ∷ []) param n 0x17 size 15 16
        18 s₅ eight refl refl refl enough (omega arith) in
    let body : List ℕ = remote_body addr first second (take size param) in
    let count : length body ≡ n = omega (
      arith,
      length-append addr (0xFF ∷ 0xFE ∷ 0x02 ∷ first ∷ second ∷ take size param),
      length-take size param,
    ) in
    let (b, e, f) =
      framed 1024 (18 + size) body b₉ (n / 256) (n % 256) s₉ (omega (arith, count)) (omega arith)
        (ap (λ (x : ℕ). x / 256) (sym count)) (ap (λ (x : ℕ). x % 256) (sym count)) in
    (b, rw (e₁, e₂, e₃, e₄, e₅, e₆, e₇, e₈, e₉, e, f) refl)

-- ===== src/Xbee/Receive/Reading.antt =====
-- The rounds of `xb_rx_complete` inside a frame.
use mathlib.Core.List.{append_assoc, append-nil}
use gsw.Prelude.{
  ℕ, zero, suc, ◌+◌, ◌-◌, ◌%◌, ◌≤◌, ◌<◌, ◌≡◌, refl, sym, ap, ◌∙◌, true, List, [], ◌∷◌, ◌++◌, ok,
  load, length, length-append, arith,
}
use gsw.Xbee.Buffer.{Starts, put-Starts, load-append, sum_from}
use gsw.Xbee.Receive.{
  Rx, reading_payload, Call, rx_buff_size, rx_loop, rx_byte, in_reading, next_request,
  xb_rx_complete, feed, feed_all,
}

pub sum_from-append :
    (check : ℕ) (xs ys : List ℕ) → sum_from check (xs ++ ys) ≡ sum_from (sum_from check xs) ys
sum_from-append check [] ys = refl
sum_from-append check (x ∷ xs) ys = sum_from-append ((check + x) % 256) xs ys

-- The receiver inside of a frame.
abbrev pub inside : Rx → ℕ → ℕ → ℕ → Rx
inside m index left check = record m {
  state = reading_payload;
  rx_index = index;
  to_read = left;
  check = check;
}

-- One more byte of the body, which is not the last of the frame.
rx_byte-inside :
    (b : ℕ) (m : Rx) (index left check : ℕ)
    → 0 < left
    → index + 1 < rx_buff_size
    → rx_byte b (inside m index (suc left) check)
      ≡ ok (inside m (index + 1) left ((check + b) % 256))
unfolding rx_byte in_reading
rx_byte-inside b m index left check h k = ground arith

rx_loop-cons :
    (b : ℕ) (m : Rx) (rounds i index left check : ℕ)
    → load m.rx_buff (m.req_off + i) ≡ ok b
    → 0 < left
    → index + 1 < rx_buff_size
    → rx_loop (suc rounds) i (inside m index (suc left) check)
      ≡ rx_loop rounds (i + 1) (inside m (index + 1) left ((check + b) % 256))
unfolding rx_loop
rx_loop-cons b m rounds i index left check read h k =
    rw (read, rx_byte-inside b m index left check h k) refl

-- The bytes `bs` of the body, of which the buffer has them behind those read before.
pub rx_loop-inside :
    (pre bs rest : List ℕ) (m : Rx) (rounds n i i' index index' left left' check : ℕ)
    → m.rx_buff ≡ pre ++ (bs ++ rest)
    → m.req_off + i ≡ length pre
    → rounds ≡ length bs + n
    → i' ≡ i + length bs
    → index' ≡ index + length bs
    → left ≡ length bs + left'
    → 0 < left'
    → index' < rx_buff_size
    → rx_loop rounds i (inside m index left check)
      ≡ rx_loop n i' (inside m index' left' (sum_from check bs))
rx_loop-inside pre [] rest m rounds n i i' index index' left left' check w e r p q l h k =
    let r' : rounds ≡ n = omega arith in
    let p' : i' ≡ i = omega arith in
    let q' : index' ≡ index = omega arith in
    let l' : left ≡ left' = omega arith in rw (r', p', q', l') refl
rx_loop-inside pre (b ∷ bs) rest m zero n i i' index index' left left' check w e r p q l h k =
    absurd (omega arith)
rx_loop-inside pre (b ∷ bs) rest m (suc rounds) n i i' index index' zero left' check w e r p q l h
      k =
    absurd (omega arith)
rx_loop-inside pre (b ∷ bs) rest m (suc rounds) n i i' index index' (suc left) left' check w e r p q
      l h k =
    let read : load m.rx_buff (m.req_off + i) ≡ ok b = rw (w, e) (load-append pre (bs ++ rest) b) in
    rx_loop-cons b m rounds i index left check read (omega arith) (omega arith)
    ∙ rx_loop-inside (pre ++ b ∷ []) bs rest m rounds n (i + 1) i' (index + 1) index' left left'
        ((check + b) % 256) (w ∙ sym (append_assoc pre (b ∷ []) (bs ++ rest)))
        (omega (arith, length-append pre (b ∷ []))) (omega arith) (omega arith) (omega arith)
        (omega arith) h k

-- The receiver has read the bytes `pre` of a frame whose body has `n` bytes.
pub record InFrame (n : ℕ) (pre : List ℕ) (calls : List Call) (m : Rx) : Type 0 where
  pub left : ℕ
  pub count : length pre + left ≡ n + 1
  pub shape : m ≡ inside m (length pre) left (sum_from 0 pre)
  pub buffer : Starts rx_buff_size pre m.rx_buff
  pub payload_size : m.payload_size ≡ n
  pub req_off : m.req_off ≡ length pre
  pub has_callback : m.has_callback ≡ true
  pub same_calls : m.calls ≡ calls

-- What `serial_read` and the start of a call do to the receiver.
abbrev pub with_bytes : List ℕ → List ℕ → ℕ → Rx → Rx
with_bytes junk buff len m = record m { rx_buff = buff; req_len = len; len_buff = junk }

pub rx_loop-with_bytes :
    (n : ℕ) (pre bs rest : List ℕ) (calls : List Call) (m : Rx) (junk buff : List ℕ)
    (f : InFrame n pre calls m) (rounds more i' left' : ℕ)
    → buff ≡ pre ++ (bs ++ rest)
    → rounds ≡ length bs + more
    → i' ≡ length bs
    → f.left ≡ length bs + left'
    → 0 < left'
    → length (pre ++ bs) < rx_buff_size
    → rx_loop rounds 0 (with_bytes junk buff rounds m)
      ≡ rx_loop more i' (
          inside
            (with_bytes junk buff rounds m)
            (length (pre ++ bs))
            left'
            (sum_from 0 (pre ++ bs)))
rx_loop-with_bytes n pre bs rest calls m junk buff f rounds more i' left' w r p l h k =
    ap (λ (x : Rx). rx_loop rounds 0 (with_bytes junk buff rounds x)) f.shape
    ∙ rx_loop-inside pre bs rest (with_bytes junk buff rounds m) rounds more 0 i' (length pre)
        (length (pre ++ bs)) f.left left' (sum_from 0 pre) w (omega (arith, f.req_off)) r
        (omega arith) (length-append pre bs) l h k
    ∙ ap
        (λ (x : ℕ).
          rx_loop more i' (inside (with_bytes junk buff rounds m) (length (pre ++ bs)) left' x))
        (sym (sum_from-append 0 pre bs))

-- A piece of the body, in one call.
pub feed-InFrame :
    (n : ℕ) (pre bs : List ℕ) (calls : List Call) (m : Rx) (junk : List ℕ)
    → InFrame n pre calls m
    → length pre + length bs ≤ n
    → n < rx_buff_size
    → (m' : Rx) × (feed junk bs m ≡ ok m') × InFrame n (pre ++ bs) calls m'
unfolding feed xb_rx_complete next_request rx_loop
feed-InFrame n pre bs calls m junk f h k =
    let (buff, e, s) =
      put-Starts rx_buff_size pre bs m.rx_buff m.req_off f.buffer f.req_off
        (omega (arith, f.req_off)) in
    let left' : ℕ = f.left - length bs in
    let enough : length (pre ++ bs) ≤ n = omega (arith, length-append pre bs) in
    let run =
      rx_loop-with_bytes n pre bs s.rest calls m junk buff f (length bs) 0 (length bs) left'
        (s.whole ∙ append_assoc pre bs s.rest) (omega arith) refl (omega (arith, f.count))
        (omega (arith, f.count)) (omega arith) in
    (
      record (inside (with_bytes junk buff (length bs) m) (length (pre ++ bs)) left'
          (sum_from 0 (pre ++ bs))) { req_len = left'; req_off = length (pre ++ bs) },
      rw (e, run) refl,
      record {
        left = left';
        count = omega (arith, f.count, length-append pre bs);
        shape = refl;
        buffer = s;
        payload_size = f.payload_size;
        req_off = refl;
        has_callback = f.has_callback;
        same_calls = f.same_calls;
      },
    )

abbrev pub concat : List (List ℕ) → List ℕ
concat [] = []
concat (bs ∷ more) = bs ++ concat more

-- Pieces of the body, in as many calls.
pub feed_all-InFrame :
    (n : ℕ) (pre : List ℕ) (pieces : List (List ℕ)) (calls : List Call) (m : Rx) (junk : List ℕ)
    → InFrame n pre calls m
    → length pre + length (concat pieces) ≤ n
    → n < rx_buff_size
    → (m' : Rx) × (feed_all junk pieces m ≡ ok m') × InFrame n (pre ++ concat pieces) calls m'
unfolding feed_all
feed_all-InFrame n pre [] calls m junk f h k = (m, refl, rw (append-nil pre) f)
feed_all-InFrame n pre (bs ∷ pieces) calls m junk f h k =
    let parts = length-append bs (concat pieces) in
    let (m₁, e, f₁) = feed-InFrame n pre bs calls m junk f (omega arith) k in
    let (m₂, g, f₂) =
      feed_all-InFrame n (pre ++ bs) pieces calls m₁ junk f₁ (omega (arith, length-append pre bs))
        k in
    (m₂, rw (e, g) refl, rw (append_assoc pre bs (concat pieces)) at f₂)

-- ===== src/Text.antt =====
-- Text as a list of byte values, with what the parsers use of the C++ standard library:
-- `operator>>` on a line, comparison, and `std::stoi`.
use Prim.Native.Char.{code}
use Prim.Native.String.{String}
use gsw.Prelude.{
  ℕ, zero, suc, ◌+◌, ◌-◌, ◌*◌, ◌^◌, ◌%◌, Bool, true, false, ◌||◌, ◌&&◌, List, [], ◌∷◌, ◌++◌, Exec,
  ok, err, fault, failure, leb, ltb, ◌==◌, if◌then◌else◌, get_or, same_list, same_list_iff, Eq,
  nat_eq,
}
use gsw.Prelude.Int.{ℤ, pos, negsuc}

abbrev pub Text : Type 0
Text = List ℕ

abbrev pub codes : String → Text
codes String.[] = []
codes (String.◌∷◌ c s) = code c ∷ codes s

instance abbrev pub text_eq : Eq Text
text_eq = record { beq = same_list; beq_iff = same_list_iff }

-- The comparison `==` with a literal.
abbrev pub reads_as : Text → String → Bool
reads_as t s = same_list t (codes s)

unfoldable pub is_space : ℕ → Bool
is_space c = c == 32 || leb 9 c && leb c 13

abbrev flush : Text → List Text → List Text
flush [] rest = rest
flush (c ∷ cs) rest = (c ∷ cs) ∷ rest

words_from : Text → Text → List Text
unfolding is_space
words_from word [] = flush word []
words_from word (c ∷ cs) =
    let rest = words_from (if is_space c then [] else word ++ c ∷ []) cs in
    if is_space c then flush word rest else rest

-- What `ss >> token` reads from a line, again and again.
unfoldable pub words : Text → List Text
unfolding words_from
words line = words_from [] line

-- The n-th token; a read that fails leaves a fresh string empty.
abbrev pub token : Text → ℕ → Text
token line n = get_or (words line) n []

is_digit : ℕ → Bool
is_digit c = leb b'0' c && leb c b'9'

digits_from : ℕ → Text → ℕ
unfolding is_digit
digits_from acc [] = acc
digits_from acc (c ∷ cs) =
    let rest = digits_from (acc * 10 + (c - b'0')) cs in if is_digit c then rest else acc

-- The value as an int.
abbrev in_range : Bool → ℕ → Exec ℤ
in_range true zero = ok (pos 0)
in_range true (suc n) = if ltb n (2 ^ 31) then ok (negsuc n) else fault
in_range false n = if ltb n (2 ^ 31) then ok (pos n) else fault

-- The digits at the start of a text. Without one, `std::invalid_argument` is thrown, which every
-- caller turns into FAILURE; nobody catches `std::out_of_range`.
magnitude : Bool → Text → Exec ℤ
unfolding digits_from is_digit
magnitude negative [] = err failure
magnitude negative (c ∷ cs) =
    if is_digit c then in_range negative (digits_from 0 (c ∷ cs)) else err failure

unfoldable pub stoi : Text → Exec ℤ
unfolding magnitude
stoi [] = err failure
stoi (c ∷ cs) =
    if c == b'-' then magnitude true cs else magnitude (false) (if c == b'+' then cs else c ∷ cs)

-- The conversions of an int to uint16_t, and to size_t.
abbrev pub to_unsigned : ℕ → ℤ → ℕ
to_unsigned w (pos n) = n % 2 ^ w
to_unsigned w (negsuc n) = 2 ^ w - 1 - n % 2 ^ w

-- ===== src/Trigger/Parse/Tests.antt =====
-- The parser on a small trigger file.
use gsw.Prelude.{ℕ, ◌≡◌, refl, List, [], ◌∷◌, err, failure}
use gsw.Text.{Text, codes, words}
use gsw.Vcm.Types.{MeasurementInfo, gsw_little_endian, int_type, unsigned_type}
use gsw.Vcm.Config.{Vcm, named_vcm, get_info}
use gsw.Trigger.Parse.{
  Trigger, TriggerFunc, copy, sum_uint, parse_trigger_file, trigger_func_list, trigger_line,
}
use gsw.Trigger.Parse.Laws.{Numbered, parse_trigger_file-Numbered}

abbrev count : MeasurementInfo
count = record {
  locations = [];
  size = 4;
  endianness = gsw_little_endian;
  type = int_type;
  sign = unsigned_type;
}

abbrev vcm : Vcm
unfolding named_vcm
vcm = record (named_vcm gsw_little_endian [] [] 0) {
  addr_map = (codes "A", count) ∷ (codes "B", count) ∷ [];
}

abbrev file : List Text
file = codes "A COPY A B" ∷ codes "# sums" ∷ codes "B SUM_UINT A B B" ∷ []

abbrev made : ℕ → TriggerFunc → List MeasurementInfo → Trigger
made id func args = record { unique_id = id; meas = count; func = func; args = args }

abbrev triggers : List Trigger
triggers = made 0 copy (count ∷ count ∷ []) ∷ made 1 sum_uint (count ∷ count ∷ count ∷ []) ∷ []

-- A sum of three measurements is within the table's bounds, and is refused.
longer_sum : parse_trigger_file vcm (codes "A SUM_UINT A B B B" ∷ []) [] ≡ err failure
unfolding parse_trigger_file trigger_line trigger_func_list words named_vcm get_info
longer_sum = refl

parse_trigger_file-Numbered_example : Numbered 0 triggers
unfolding parse_trigger_file trigger_line trigger_func_list words named_vcm get_info
parse_trigger_file-Numbered_example = parse_trigger_file-Numbered vcm file triggers refl

-- ===== src/Channel/Tests.antt =====
-- Runs of the conversion of channel.c, and the witnesses of its theorems.
use libiio.Prelude.{ℕ, ◌≡◌, refl, true, false, List, [], ◌∷◌, arith, ◌^◌, ◌/◌, ◌%◌}
use libiio.Channel.{
  byte_swap, shift_bits, ascending, descending, sign_extend, extended_byte, fill_of, each_sample,
  rounds, mask_upper_bits, cut, DataFormat, convert_sample, convert_inverse_sample, convert,
  convert_inverse,
}
use libiio.Channel.Value.{le_value}
use libiio.Channel.Sample.{
  number_of, swapped, le_value-convert_sample, convert_sample-convert_inverse_sample,
}

-- `be:s12/16X2>>4`, a converter on a serial bus
abbrev serial : DataFormat
serial = record {
  format_length = 16;
  bits = 12;
  shift = 4;
  is_signed = true;
  is_fully_defined = false;
  is_be = true;
  repeat = 2;
}

abbrev two_samples : List ℕ
two_samples = 0x80 ∷ 0x1f ∷ 0x7f ∷ 0xf0 ∷ []

converted : convert true serial two_samples ≡ 0x01 ∷ 0xf8 ∷ 0xff ∷ 0x07 ∷ []
unfolding convert convert_sample byte_swap shift_bits ascending sign_extend extended_byte fill_of
    each_sample rounds
converted = refl

put_back :
    convert_inverse true serial (0x01 ∷ 0xf8 ∷ 0xff ∷ 0x07 ∷ []) [] ≡ 0x80 ∷ 0x10 ∷ 0x7f ∷ 0xf0 ∷ []
unfolding convert_inverse convert_inverse_sample byte_swap shift_bits descending mask_upper_bits cut
    each_sample rounds
put_back = refl

le_value-convert_sample_example :
    le_value (convert_sample true serial (0x80 ∷ 0x1f ∷ []))
    ≡ number_of serial 2 (le_value (swapped serial (0x80 ∷ 0x1f ∷ [])) / 2 ^ 4)
le_value-convert_sample_example =
    le_value-convert_sample serial (0x80 ∷ 0x1f ∷ []) (omega arith) (omega arith) (omega arith)
      (omega arith, (omega arith, tt))

convert_sample-convert_inverse_sample_example :
    le_value (convert_sample true serial (convert_inverse_sample true serial (0x01 ∷ 0xf8 ∷ [])))
    ≡ number_of serial 2 (le_value (0x01 ∷ 0xf8 ∷ []) % 2 ^ 12)
convert_sample-convert_inverse_sample_example =
    convert_sample-convert_inverse_sample serial (0x01 ∷ 0xf8 ∷ []) (omega arith) (omega arith)
      (omega arith, (omega arith, tt))

-- ===== src/Shared/Runs.antt =====
-- The instruction format, the scale and the curve on concrete calls.
use prop_amm_challenge.Prelude.{◌+◌, ◌-◌, ◌*◌, ◌≤◌, ◌≡◌, ◌↔◌, [], ◌∷◌, some, arith}
use prop_amm_challenge.Words.{mul128}
use prop_amm_challenge.Buffer.{pad}
use prop_amm_challenge.Float.Fixed.{fixed_float}
use prop_amm_challenge.Shared.Instruction.{
  decode_instruction, encode_swap_instruction, encode_after_swap, decode_after_swap, storage_size,
}
use prop_amm_challenge.Shared.Instruction.RoundTrip.{
  decode_instruction-encode_swap_instruction, decode_after_swap-encode_after_swap,
}
use prop_amm_challenge.Shared.Ceiling.{given}
use prop_amm_challenge.Shared.Normalizer.{compute_swap, swap_output, pays}
use prop_amm_challenge.Shared.Normalizer.Bounds.{net_of, pays-eq-given}
use prop_amm_challenge.Shared.Normalizer.Curve.{
  IsCall, reserve_in, reserve_out, swap_output_largest, swap_output-keeps, swap_output_mono,
  swap_output_concave,
}
use prop_amm_challenge.Shared.Normalizer.Calls.{stored_fee, compute_swap-encode}

decode_instruction-encode_swap_instruction_example :
    decode_instruction (encode_swap_instruction 1 123456789000 5 6 (7 ∷ []))
    ≡ some (record { side = 1; input_amount = 123456789000; reserve_x = 5; reserve_y = 6 })
decode_instruction-encode_swap_instruction_example =
    decode_instruction-encode_swap_instruction 1 123456789000 5 6 (7 ∷ []) (omega arith)
      (omega arith) (omega arith)

decode_after_swap-encode_after_swap_example :
    decode_after_swap (encode_after_swap 0 9 8 5 6 3 (7 ∷ []))
    ≡ some (record {
      side = 0;
      input_amount = 9;
      output_amount = 8;
      reserve_x = 5;
      reserve_y = 6;
      step = 3;
      storage = pad storage_size (7 ∷ []);
    })
decode_after_swap-encode_after_swap_example =
    decode_after_swap-encode_after_swap 0 9 8 5 6 3 (7 ∷ []) (omega arith) (omega arith)
      (omega arith) (omega arith) (omega arith)

-- A buy of X with 20000 of Y at 30 bps, in a pool of 5000 and 6000.
abbrev a_call : IsCall 30 0 20000 5000 6000
a_call = record {
  fee_le = omega arith;
  side_le = omega arith;
  input_word = omega arith;
  x_word = omega arith;
  y_word = omega arith;
  x_pos = omega arith;
  y_pos = omega arith;
}

pays-eq-given_example : pays (mul128 5000 6000) 6000 5000 19940 ≡ given 5000 6000 (6000 + 19940)
pays-eq-given_example =
    pays-eq-given 6000 5000 19940 (omega arith) (omega arith) (omega arith) (omega arith)

swap_output_largest_example :
    (reserve_out 0 5000 6000 * reserve_in 0 5000 6000
      ≤ (reserve_out 0 5000 6000 - 3843) * (reserve_in 0 5000 6000 + net_of 30 20000))
    ↔ (3843 ≤ swap_output 30 0 20000 5000 6000)
swap_output_largest_example = swap_output_largest 30 0 20000 5000 6000 a_call 3843 (omega arith)

swap_output-keeps_example :
    reserve_out 0 5000 6000 * reserve_in 0 5000 6000
    ≤ (reserve_out 0 5000 6000 - swap_output 30 0 20000 5000 6000)
      * (reserve_in 0 5000 6000 + 20000)
swap_output-keeps_example = swap_output-keeps 30 0 20000 5000 6000 a_call

swap_output_mono_example : swap_output 30 0 10000 5000 6000 ≤ swap_output 30 0 20000 5000 6000
swap_output_mono_example = swap_output_mono 30 0 10000 20000 5000 6000 (omega arith) a_call

swap_output_concave_example :
    swap_output 30 0 0 5000 6000 + swap_output 30 0 20000 5000 6000
    ≤ 2 * swap_output 30 0 10000 5000 6000 + 1
swap_output_concave_example = swap_output_concave 30 0 0 1 5000 6000 a_call

compute_swap-encode_example :
    compute_swap (encode_swap_instruction 0 20000 5000 6000 (25 ∷ []))
    ≡ swap_output (stored_fee (25 ∷ [])) 0 20000 5000 6000
compute_swap-encode_example =
    compute_swap-encode 0 20000 5000 6000 (25 ∷ []) (omega arith) (omega arith) (omega arith)

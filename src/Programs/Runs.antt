-- ===== src/Programs/Runs.antt =====
-- The on-chain programs on concrete calls.
use prop_amm_challenge.Prelude.{◌<◌, ◌^◌, ◌≡◌, refl, [], ◌∷◌, arith}
use prop_amm_challenge.Words.{from_le_bytes}
use prop_amm_challenge.Buffer.{pad, zeros}
use prop_amm_challenge.Shared.Instruction.{decode_instruction, encode_swap_instruction}
use prop_amm_challenge.Shared.Normalizer as Native
use prop_amm_challenge.Shared.Normalizer.{swap_output}
use prop_amm_challenge.Shared.Normalizer.Calls.{stored_fee}
use prop_amm_challenge.Programs.Normalizer
use prop_amm_challenge.Programs.Starter
use prop_amm_challenge.Programs.Agreement.{normalizer_agrees, normalizer_ignores_fee, starter_pays}

normalizer_agrees_example :
    Normalizer.compute_swap (encode_swap_instruction 1 20000 5000 6000 [])
    ≡ Native.compute_swap (encode_swap_instruction 1 20000 5000 6000 [])
unfolding stored_fee from_le_bytes pad zeros
normalizer_agrees_example =
    normalizer_agrees 1 20000 5000 6000 [] (omega arith) (omega arith) (omega arith) refl

normalizer_ignores_fee_example :
    Native.compute_swap (encode_swap_instruction 0 10000 (2 ^ 63) 1 (80 ∷ []))
    < Normalizer.compute_swap (encode_swap_instruction 0 10000 (2 ^ 63) 1 (80 ∷ []))
unfolding stored_fee from_le_bytes pad zeros
normalizer_ignores_fee_example = normalizer_ignores_fee (80 ∷ []) (omega arith) (omega arith)

-- A deserializer that reads the fields.
starter_pays_example :
    Starter.compute_swap decode_instruction (encode_swap_instruction 1 20000 5000 6000 [])
    ≡ swap_output 500 1 20000 5000 6000
starter_pays_example =
    starter_pays decode_instruction 1 20000 5000 6000 [] (λ side input x y storage. refl)
      (omega arith) (omega arith) (omega arith)

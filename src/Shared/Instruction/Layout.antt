-- ===== src/Shared/Instruction/Layout.antt =====
-- crates/shared/src/instruction.rs: the encoders' buffers field by field.
use prop_amm_challenge.Prelude.{
  ℕ, ◌+◌, ◌-◌, min, ◌≡◌, refl, ap, ◌∙◌, List, [], ◌∷◌, ◌++◌, length, copy_at, append_assoc,
  length-append, length-take, arith,
}
use prop_amm_challenge.Words.{length-to_le_bytes}
use prop_amm_challenge.Buffer.{zeros, copy_at-zeros, pad, length-pad}
use prop_amm_challenge.Shared.Instruction.{
  encode_instruction, encode_swap_instruction, encode_after_swap, le64, copied, storage_size,
  swap_instruction_size, after_swap_size,
}

-- The fields of a swap call, in order.
abbrev pub to_input : ℕ → ℕ → List ℕ
to_input side input = (side ∷ []) ++ le64 input

abbrev pub to_reserve_x : ℕ → ℕ → ℕ → List ℕ
to_reserve_x side input rx = to_input side input ++ le64 rx

abbrev pub swap_fields : ℕ → ℕ → ℕ → ℕ → List ℕ
swap_fields side input rx ry = to_reserve_x side input rx ++ le64 ry

-- The fields of an `after_swap` call, in order, behind its tag.
abbrev pub after_input : ℕ → ℕ → List ℕ
after_input side input = (2 ∷ side ∷ []) ++ le64 input

abbrev pub after_output : ℕ → ℕ → ℕ → List ℕ
after_output side input output = after_input side input ++ le64 output

abbrev pub after_reserve_x : ℕ → ℕ → ℕ → ℕ → List ℕ
after_reserve_x side input output rx = after_output side input output ++ le64 rx

abbrev pub after_reserve_y : ℕ → ℕ → ℕ → ℕ → ℕ → List ℕ
after_reserve_y side input output rx ry = after_reserve_x side input output rx ++ le64 ry

abbrev pub after_swap_fields : ℕ → ℕ → ℕ → ℕ → ℕ → ℕ → List ℕ
after_swap_fields side input output rx ry step =
    after_reserve_y side input output rx ry ++ le64 step

-- One more eight-byte word behind a front of known length.
length-word :
    (n m : ℕ) (front : List ℕ) (w : ℕ) → length front ≡ n → n + 8 ≡ m → length (front ++ le64 w) ≡ m
length-word n m front w h e = omega (arith, length-append front (le64 w), length-to_le_bytes 8 w)

module _ (side input : ℕ) where
  pub length-to_input : length (to_input side input) ≡ 9
  length-to_input = length-word 1 9 (side ∷ []) input refl refl

  pub length-to_reserve_x : (rx : ℕ) → length (to_reserve_x side input rx) ≡ 17
  length-to_reserve_x rx = length-word 9 17 (to_input side input) rx length-to_input refl

  pub length-swap_fields : (rx ry : ℕ) → length (swap_fields side input rx ry) ≡ 25
  length-swap_fields rx ry =
      length-word 17 25 (to_reserve_x side input rx) ry (length-to_reserve_x rx) refl

  pub length-after_input : length (after_input side input) ≡ 10
  length-after_input = length-word 2 10 (2 ∷ side ∷ []) input refl refl

  pub length-after_output : (output : ℕ) → length (after_output side input output) ≡ 18
  length-after_output output =
      length-word 10 18 (after_input side input) output length-after_input refl

  pub length-after_reserve_x : (output rx : ℕ) → length (after_reserve_x side input output rx) ≡ 26
  length-after_reserve_x output rx =
      length-word 18 26 (after_output side input output) rx (length-after_output output) refl

  pub length-after_reserve_y :
      (output rx ry : ℕ) → length (after_reserve_y side input output rx ry) ≡ 34
  length-after_reserve_y output rx ry =
      length-word 26 34 (after_reserve_x side input output rx) ry (length-after_reserve_x output rx)
        refl

  pub length-after_swap_fields :
      (output rx ry step : ℕ) → length (after_swap_fields side input output rx ry step) ≡ 42
  length-after_swap_fields output rx ry step =
      length-word 34 42 (after_reserve_y side input output rx ry) step
        (length-after_reserve_y output rx ry) refl

word_fits :
    (at m n : ℕ) (front : List ℕ) (w : ℕ)
    → length front ≡ at
    → m + 8 ≡ n
    → copy_at at (le64 w) (front ++ zeros n) ≡ (front ++ le64 w) ++ zeros m
word_fits at m n front w h e =
    copy_at-zeros at m n front (le64 w) h (omega (arith, length-to_le_bytes 8 w))

-- The writes of the four fields into any zeroed buffer that has room for them.
pub swap_writes :
    (r n side input rx ry : ℕ)
    → r + 25 ≡ n
    → copy_at 17
        (le64 ry)
        (copy_at 9 (le64 rx) (copy_at 1 (le64 input) (copy_at 0 (side ∷ []) (zeros n))))
      ≡ swap_fields side input rx ry ++ zeros r
swap_writes r n side input rx ry e =
    let step1 = copy_at-zeros 0 (r + 24) n [] (side ∷ []) refl (omega arith) in
    let step2 = word_fits 1 (r + 16) (r + 24) (side ∷ []) input refl (omega arith) in
    let step3 =
      word_fits 9 (r + 8) (r + 16) (to_input side input) rx (length-to_input side input)
        (omega arith) in
    let step4 =
      word_fits 17 r (r + 8) (to_reserve_x side input rx) ry (length-to_reserve_x side input rx)
        refl in
    ap (λ b. copy_at 17 (le64 ry) (copy_at 9 (le64 rx) (copy_at 1 (le64 input) b))) step1
    ∙ ap (λ b. copy_at 17 (le64 ry) (copy_at 9 (le64 rx) b)) step2
    ∙ ap (copy_at 17 (le64 ry)) step3
    ∙ step4

pub after_swap_writes :
    (r n side input output rx ry step : ℕ)
    → r + 42 ≡ n
    → copy_at 34 (le64 step) (
        copy_at 26 (le64 ry) (
          copy_at 18 (le64 rx) (
            copy_at 10
              (le64 output)
              (copy_at 2 (le64 input) (copy_at 1 (side ∷ []) (copy_at 0 (2 ∷ []) (zeros n)))))))
      ≡ after_swap_fields side input output rx ry step ++ zeros r
after_swap_writes r n side input output rx ry step e =
    let with_step = copy_at 34 (le64 step) in
    let with_y = λ (b : List ℕ). with_step (copy_at 26 (le64 ry) b) in
    let with_x = λ (b : List ℕ). with_y (copy_at 18 (le64 rx) b) in
    let with_output = λ (b : List ℕ). with_x (copy_at 10 (le64 output) b) in
    let with_input = λ (b : List ℕ). with_output (copy_at 2 (le64 input) b) in
    ap (λ b. with_input (copy_at 1 (side ∷ []) b))
      (copy_at-zeros 0 (r + 41) n [] (2 ∷ []) refl (omega arith))
    ∙ ap with_input (copy_at-zeros 1 (r + 40) (r + 41) (2 ∷ []) (side ∷ []) refl (omega arith))
    ∙ ap with_output (word_fits 2 (r + 32) (r + 40) (2 ∷ side ∷ []) input refl (omega arith))
    ∙ ap with_x (
        word_fits 10 (r + 24) (r + 32) (after_input side input) output
          (length-after_input side input) (omega arith))
    ∙ ap with_y (
        word_fits 18 (r + 16) (r + 24) (after_output side input output) rx
          (length-after_output side input output) (omega arith))
    ∙ ap with_step (
        word_fits 26 (r + 8) (r + 16) (after_reserve_x side input output rx) ry
          (length-after_reserve_x side input output rx) (omega arith))
    ∙ word_fits 34 r (r + 8) (after_reserve_y side input output rx ry) step
        (length-after_reserve_y side input output rx ry) refl

pub length-copied : (storage : List ℕ) → length (copied storage) ≡ min (length storage) storage_size
length-copied storage = omega (arith, length-take (min (length storage) storage_size) storage)

pub storage_write :
    (at m n : ℕ) (front storage : List ℕ)
    → length front ≡ at
    → m + 1024 ≡ n
    → copy_at at (copied storage) (front ++ zeros n)
      ≡ (front ++ copied storage) ++ zeros (m + (1024 - length storage))
storage_write at m n front storage h e =
    copy_at-zeros at (m + (1024 - length storage)) n front (copied storage) h
      (omega (arith, length-copied storage))

-- `encode_swap_instruction` writes side, amount and reserves, and then the storage, cut or filled up
-- with zeros to 1024 bytes.
pub encode_swap_instruction-layout :
    (side input rx ry : ℕ) (storage : List ℕ)
    → encode_swap_instruction side input rx ry storage
      ≡ swap_fields side input rx ry ++ pad storage_size storage
unfolding encode_swap_instruction pad
encode_swap_instruction-layout side input rx ry storage =
    rw (swap_writes 1024 1049 side input rx ry refl) (
      storage_write 25 0 1024 (swap_fields side input rx ry) storage
        (length-swap_fields side input rx ry) refl
      ∙ rw (zero_plus (1024 - length storage)) (
          append_assoc (swap_fields side input rx ry) (copied storage)
            (zeros (1024 - length storage))))
  where
    zero_plus : (k : ℕ) → 0 + k ≡ k
    zero_plus k = omega arith

pub encode_after_swap-layout :
    (side input output rx ry step : ℕ) (storage : List ℕ)
    → encode_after_swap side input output rx ry step storage
      ≡ after_swap_fields side input output rx ry step ++ pad storage_size storage
unfolding encode_after_swap pad
encode_after_swap-layout side input output rx ry step storage =
    rw (after_swap_writes 1024 1066 side input output rx ry step refl) (
      storage_write 42 0 1024 (after_swap_fields side input output rx ry step) storage
        (length-after_swap_fields side input output rx ry step) refl
      ∙ rw (zero_plus (1024 - length storage)) (
          append_assoc (after_swap_fields side input output rx ry step) (copied storage)
            (zeros (1024 - length storage))))
  where
    zero_plus : (k : ℕ) → 0 + k ≡ k
    zero_plus k = omega arith

pub encode_instruction-layout :
    (side input rx ry : ℕ) → encode_instruction side input rx ry ≡ swap_fields side input rx ry
unfolding encode_instruction zeros
encode_instruction-layout side input rx ry =
    swap_writes 0 25 side input rx ry refl ∙ append_nil_lem (swap_fields side input rx ry)
  where
    append_nil_lem : (xs : List ℕ) → xs ++ zeros 0 ≡ xs
    append_nil_lem [] = refl
    append_nil_lem (x ∷ xs) = ap (◌∷◌ x) (append_nil_lem xs)

pub length-encode_swap_instruction :
    (side input rx ry : ℕ) (storage : List ℕ)
    → length (encode_swap_instruction side input rx ry storage) ≡ swap_instruction_size
length-encode_swap_instruction side input rx ry storage =
    rw (encode_swap_instruction-layout side input rx ry storage) (
      omega (
        arith,
        length-append (swap_fields side input rx ry) (pad storage_size storage),
        length-swap_fields side input rx ry,
        length-pad storage_size storage,
      ))

pub length-encode_after_swap :
    (side input output rx ry step : ℕ) (storage : List ℕ)
    → length (encode_after_swap side input output rx ry step storage) ≡ after_swap_size
length-encode_after_swap side input output rx ry step storage =
    rw (encode_after_swap-layout side input output rx ry step storage) (
      omega (
        arith,
        length-append (after_swap_fields side input output rx ry step) (pad storage_size storage),
        length-after_swap_fields side input output rx ry step,
        length-pad storage_size storage,
      ))

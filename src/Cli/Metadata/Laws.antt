-- ===== src/Cli/Metadata/Laws.antt =====
-- crates/cli/src/commands/validate.rs: what the metadata that are accepted have.
use Prim.Native.String.{String}
use text.Mathlib.Text.{◌==◌}
use text.Mathlib.TextEquality.{eq_iff}
use prop_amm_challenge.Prelude.{
  ◌≡◌, ◌⊎◌, inl, inr, sym, ap, Bool, true, false, List, [], ◌∷◌, Option, none, some, Bool-cases,
  IsAmong, arith,
}
use prop_amm_challenge.Cli.Metadata.{
  Item, constant, function, other_item, SubmissionMetadata, Found, accepted, extract_str_const,
  read_item, read_items, check_found, validate_submission_metadata,
}

-- A constant of the name with the value, where its extraction has it.
constant_eq :
    (n : String) (name : String) (r : Bool) (l : Option String) (s : String)
    → (n == name) ≡ true
    → extract_str_const r l ≡ some s
    → constant name true (some s) ≡ constant n r l
unfolding extract_str_const
constant_eq n name r l s e h =
    let p : name ≡ n = sym ((eq_iff n name).0 e) in
    let q : true ≡ r = ground arith in
    let k : some s ≡ l = ground arith in λ i. constant (p i) (q i) (k i)

name_found :
    (items : List Item) (a : Found) (s : String)
    → (read_items items a).name ≡ some s
    → (a.name ≡ some s) ⊎ IsAmong (constant "NAME" true (some s)) items
unfolding read_items read_item
name_found [] a s h = inl h
name_found (item ∷ items) a s h = elim (name_found items (read_item item a) s h) [
  | inr k ↦ inr (inr k)
  | inl k ↦ now item k
]
  where
    now :
        (item : Item)
        → (read_item item a).name ≡ some s
        → (a.name ≡ some s) ⊎ IsAmong (constant "NAME" true (some s)) (item ∷ items)
    now other_item k = inl k
    now (function n) k = inl (ground arith)
    now (constant n r l) k = elim (Bool-cases (n == "NAME")) [
      | inl e ↦ inr (inl (constant_eq n "NAME" r l s e (ground arith)))
      | inr e ↦ inl (ground arith)
    ]

model_found :
    (items : List Item) (a : Found) (s : String)
    → (read_items items a).model_used ≡ some s
    → (a.model_used ≡ some s) ⊎ IsAmong (constant "MODEL_USED" true (some s)) items
unfolding read_items read_item
model_found [] a s h = inl h
model_found (item ∷ items) a s h = elim (model_found items (read_item item a) s h) [
  | inr k ↦ inr (inr k)
  | inl k ↦ now item k
]
  where
    now :
        (item : Item)
        → (read_item item a).model_used ≡ some s
        → (a.model_used ≡ some s) ⊎ IsAmong (constant "MODEL_USED" true (some s)) (item ∷ items)
    now other_item k = inl k
    now (function n) k = inl (ground arith)
    now (constant n r l) k = elim (Bool-cases (n == "MODEL_USED")) [
      | inl e ↦ elim (Bool-cases (n == "NAME")) [
        | inl g ↦ inl (ground arith)
        | inr g ↦ inr (inl (constant_eq n "MODEL_USED" r l s e (ground arith)))
      ]
      | inr e ↦ inl (ground arith)
    ]

getter_found :
    (items : List Item) (a : Found)
    → (read_items items a).has_get_model_used ≡ true
    → (a.has_get_model_used ≡ true) ⊎ IsAmong (function "get_model_used") items
unfolding read_items read_item
getter_found [] a h = inl h
getter_found (item ∷ items) a h = elim (getter_found items (read_item item a) h) [
  | inr k ↦ inr (inr k)
  | inl k ↦ now item k
]
  where
    now :
        (item : Item)
        → (read_item item a).has_get_model_used ≡ true
        → (a.has_get_model_used ≡ true) ⊎ IsAmong (function "get_model_used") (item ∷ items)
    now other_item k = inl k
    now (constant n r l) k = inl (ground arith)
    now (function n) k = elim (Bool-cases (n == "get_model_used")) [
      | inl e ↦ inr (inl (ap function (sym ((eq_iff n "get_model_used").0 e))))
      | inr e ↦ inl (ground arith)
    ]

module _ (is_blank : String → Bool) where
  checked :
      (name model_used : Option String) (has : Bool) (m : SubmissionMetadata)
      → check_found is_blank name model_used has ≡ accepted m
      → (name ≡ some m.name)
        × (model_used ≡ some m.model_used)
        × (has ≡ true)
        × (is_blank m.name ≡ false)
        × (is_blank m.model_used ≡ false)
  unfolding check_found
  checked none k has m h = absurd (ground arith)
  checked (some n) none has m h = absurd (ground arith)
  checked (some n) (some k) has m h = ground arith

  -- Metadata that the validator accepts come from a constant `NAME` and a constant `MODEL_USED` of
  -- type `&str` that are set to exactly these string literals, neither of which is blank, beside a
  -- function `get_model_used`.
  pub metadata_accepts :
      (items : List Item) (m : SubmissionMetadata)
      → validate_submission_metadata is_blank items ≡ accepted m
      → IsAmong (constant "NAME" true (some m.name)) items
        × IsAmong (constant "MODEL_USED" true (some m.model_used)) items
        × IsAmong (function "get_model_used") items
        × (is_blank m.name ≡ false)
        × (is_blank m.model_used ≡ false)
  unfolding validate_submission_metadata
  metadata_accepts items m h =
      let begin : Found = record { name = none; model_used = none; has_get_model_used = false } in
      let found = read_items items begin in
      let (n, k, has, p, q) = checked found.name found.model_used found.has_get_model_used m h in
      (
        among (λ e. ground arith) (name_found items begin m.name n),
        among (λ e. ground arith) (model_found items begin m.model_used k),
        among (λ e. ground arith) (getter_found items begin has),
        p,
        q,
      )
    where
      among : {A B : Type 0} → (A → ⊥) → A ⊎ B → B
      among never (inl a) = absurd (never a)
      among never (inr b) = b

-- ===== src/Cli/Metadata.antt =====
-- crates/cli/src/commands/validate.rs: `validate_submission_metadata`, on the items of the parsed file (syn).
-- `is_blank` is `s.trim().is_empty()`.
pub mod Laws
use Prim.Native.String.{String}
use text.Mathlib.Text.{◌==◌}
use prop_amm_challenge.Prelude.{
  Bool, true, false, not, List, [], ◌∷◌, Option, none, some, if◌then◌else◌,
}

-- `syn::Item`: a constant with its name, whether its type is `&str`, and the string literal that it is set to,
-- if it is one; a function with its name; or something else.
pub data Item : Type 0 where
  constant : String → Bool → Option String → Item
  function : String → Item
  other_item : Item

pub record SubmissionMetadata : Type 0 where
  pub name : String
  pub model_used : String

-- The locals of the loop over the items.
pub record Found : Type 0 where
  pub name : Option String
  pub model_used : Option String
  pub has_get_model_used : Bool

pub data Rejection : Type 0 where
  no_name empty_name no_model_used empty_model_used no_get_model_used : Rejection

pub data Verdict : Type 0 where
  rejected : Rejection → Verdict
  accepted : SubmissionMetadata → Verdict

unfoldable pub extract_str_const : Bool → Option String → Option String
extract_str_const is_str_ref literal = if is_str_ref then literal else none

unfoldable pub read_item : Item → Found → Found
read_item other_item found = found
read_item (function name) found =
    if name == "get_model_used" then record found { has_get_model_used = true } else found
read_item (constant name is_str_ref literal) found =
    let value = extract_str_const is_str_ref literal in
    if name == "NAME"
    then record found { name = value }
    else (if name == "MODEL_USED" then record found { model_used = value } else found)

unfoldable pub read_items : List Item → Found → Found
read_items [] found = found
read_items (item ∷ items) found = read_items items (read_item item found)

module _ (is_blank : String → Bool) where
  -- The checks after the loop.
  unfoldable pub check_found : Option String → Option String → Bool → Verdict
  check_found none model_used has_get_model_used = rejected no_name
  check_found (some name) none has_get_model_used =
      if is_blank name then rejected empty_name else rejected no_model_used
  check_found (some name) (some model_used) has_get_model_used =
      if is_blank name
      then rejected empty_name
      else (if is_blank model_used
          then rejected empty_model_used
          else (if not has_get_model_used
              then rejected no_get_model_used
              else accepted (record { name = name; model_used = model_used })))

  unfoldable pub validate_submission_metadata : List Item → Verdict
  validate_submission_metadata items =
      let found =
        read_items items (record { name = none; model_used = none; has_get_model_used = false }) in
      check_found found.name found.model_used found.has_get_model_used

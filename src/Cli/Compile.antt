-- ===== src/Cli/Compile.antt =====
-- crates/cli/src/commands/compile.rs: the check of a submission's source before it is compiled. The parsers
-- (proc_macro2, syn) are not here: their trees are what the functions take, `none` where a parser fails.
pub mod Safety
pub mod Build
pub mod Ready
pub mod Prepare
pub mod Guard
use Prim.Native.String.{String}
use text.Mathlib.Text.{◌==◌}
use prop_amm_challenge.Prelude.{
  Bool, true, false, not, ◌||◌, List, [], ◌∷◌, Option, none, some, if◌then◌else◌,
}

mutual
  -- `proc_macro2::TokenTree`: punctuation and literals are `other`.
  pub data TokenTree : Type 0 where
    ident : String → TokenTree
    group : TokenStream → TokenTree
    other : TokenTree

  pub data TokenStream : Type 0 where
    empty : TokenStream
    tokens : TokenTree → TokenStream → TokenStream

unfoldable mutual
  pub token_stream_contains_unsafe : TokenStream → Bool
  token_stream_contains_unsafe empty = false
  token_stream_contains_unsafe (tokens t ts) =
      token_tree_contains_unsafe t || token_stream_contains_unsafe ts

  pub token_tree_contains_unsafe : TokenTree → Bool
  token_tree_contains_unsafe (ident name) = name == "unsafe"
  token_tree_contains_unsafe (group ts) = token_stream_contains_unsafe ts
  token_tree_contains_unsafe other = false

-- `syn::Item`: a function with its name, or something else.
pub data Item : Type 0 where
  function : String → Item
  other_item : Item

pub record SourceAnalysis : Type 0 where
  pub has_compute_swap : Bool
  pub has_after_swap : Bool

unfoldable pub note_item : Item → SourceAnalysis → SourceAnalysis
note_item other_item a = a
note_item (function name) a =
    if name == "compute_swap"
    then record a { has_compute_swap = true }
    else (if name == "after_swap" then record a { has_after_swap = true } else a)

-- The loop of `analyze_source` over the items, from the flags of the items before.
unfoldable pub analyze_items : List Item → SourceAnalysis → SourceAnalysis
analyze_items [] a = a
analyze_items (item ∷ items) a = analyze_items items (note_item item a)

unfoldable pub analyze_source : List Item → SourceAnalysis
analyze_source items =
    analyze_items items (record { has_compute_swap = false; has_after_swap = false })

-- The hook that the exported shim calls.
unfoldable pub after_swap_target : Bool → String
after_swap_target has_after_swap =
    if has_after_swap then "after_swap" else "__prop_amm_after_swap_noop"

pub data Refusal : Type 0 where
  unparsable unsafe_source no_compute_swap : Refusal

-- A source that is refused, or one that gets a shim with the given hook.
pub data Checked : Type 0 where
  refused : Refusal → Checked
  shimmed : String → Checked

unfoldable pub shim_items : Option (List Item) → Checked
shim_items none = refused unparsable
shim_items (some items) =
    let analysis = analyze_source items in
    if not analysis.has_compute_swap
    then refused no_compute_swap
    else shimmed (after_swap_target analysis.has_after_swap)

unfoldable pub make_safe_submission_source : Option TokenStream → Option (List Item) → Checked
make_safe_submission_source none items = refused unparsable
make_safe_submission_source (some stream) items =
    if token_stream_contains_unsafe stream then refused unsafe_source else shim_items items

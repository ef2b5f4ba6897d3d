-- ===== src/Cli/Compile/Safety.antt =====
-- crates/cli/src/commands/compile.rs: what the sources have that are let through.
use Prim.Native.String.{String}
use text.Mathlib.Text.{◌==◌}
use text.Mathlib.TextEquality.{eq_iff}
use prop_amm_challenge.Prelude.{
  ◌≡◌, ◌↔◌, ◌⊎◌, inl, inr, refl, sym, subst, ap, true, false, List, [], ◌∷◌, some, Bool-cases,
  if◌then◌else◌, IsAmong, arith,
}
use prop_amm_challenge.Cli.Compile.{
  TokenTree, TokenStream, ident, group, other, empty, tokens, token_stream_contains_unsafe,
  token_tree_contains_unsafe, Item, function, other_item, SourceAnalysis, note_item, analyze_items,
  analyze_source, after_swap_target, shimmed, shim_items, make_safe_submission_source,
}

-- The keyword stands in a tree, or in a stream, at any depth.
mutual
  pub data IsUnsafe : TokenTree → Type 0 where
    keyword : IsUnsafe (ident "unsafe")
    inside : {ts : TokenStream} → HasUnsafe ts → IsUnsafe (group ts)

  pub data HasUnsafe : TokenStream → Type 0 where
    first : {t : TokenTree} {ts : TokenStream} → IsUnsafe t → HasUnsafe (tokens t ts)
    later : {t : TokenTree} {ts : TokenStream} → HasUnsafe ts → HasUnsafe (tokens t ts)

mutual
  unfolding token_stream_contains_unsafe

  found_stream : (ts : TokenStream) → token_stream_contains_unsafe ts ≡ true → HasUnsafe ts
  found_stream empty h = absurd (ground arith)
  found_stream (tokens t ts) h = elim (Bool-cases (token_tree_contains_unsafe t)) [
    | inl e ↦ first (found_tree t e)
    | inr e ↦ later (found_stream ts (rw e at h))
  ]

  found_tree : (t : TokenTree) → token_tree_contains_unsafe t ≡ true → IsUnsafe t
  found_tree (ident name) h =
      subst (λ n. IsUnsafe (ident n)) (sym ((eq_iff name "unsafe").0 h)) keyword
  found_tree (group ts) h = inside (found_stream ts h)
  found_tree other h = absurd (ground arith)

mutual
  unfolding token_stream_contains_unsafe

  stream_found : (ts : TokenStream) → HasUnsafe ts → token_stream_contains_unsafe ts ≡ true
  stream_found empty h = elim h [ ]
  stream_found (tokens t ts) (first h) = rw (tree_found t h) refl
  stream_found (tokens t ts) (later h) = let e = stream_found ts h in ground arith

  tree_found : (t : TokenTree) → IsUnsafe t → token_tree_contains_unsafe t ≡ true
  tree_found (ident name) keyword = refl
  tree_found (group ts) (inside h) = stream_found ts h
  tree_found other h = elim h [ ]

-- The scan of a token stream for the keyword answers yes exactly when an identifier `unsafe` stands
-- somewhere in the stream, at the top or within groups at any depth.
pub contains_unsafe_iff :
    (ts : TokenStream) → (token_stream_contains_unsafe ts ≡ true) ↔ HasUnsafe ts
contains_unsafe_iff ts = (found_stream ts, stream_found ts)

-- A function of the name is among the items, where the flag is set that was not set before.
compute_swap_flag :
    (items : List Item) (a : SourceAnalysis)
    → (analyze_items items a).has_compute_swap ≡ true
    → (a.has_compute_swap ≡ true) ⊎ IsAmong (function "compute_swap") items
unfolding analyze_items note_item
compute_swap_flag [] a h = inl h
compute_swap_flag (item ∷ items) a h = elim (compute_swap_flag items (note_item item a) h) [
  | inr k ↦ inr (inr k)
  | inl k ↦ now item k
]
  where
    now :
        (item : Item)
        → (note_item item a).has_compute_swap ≡ true
        → (a.has_compute_swap ≡ true) ⊎ IsAmong (function "compute_swap") (item ∷ items)
    now other_item k = inl k
    now (function name) k = elim (Bool-cases (name == "compute_swap")) [
      | inl e ↦ inr (inl (ap function (sym ((eq_iff name "compute_swap").0 e))))
      | inr e ↦ inl (ground arith)
    ]

after_swap_flag :
    (items : List Item) (a : SourceAnalysis)
    → (analyze_items items a).has_after_swap ≡ true
    → (a.has_after_swap ≡ true) ⊎ IsAmong (function "after_swap") items
unfolding analyze_items note_item
after_swap_flag [] a h = inl h
after_swap_flag (item ∷ items) a h = elim (after_swap_flag items (note_item item a) h) [
  | inr k ↦ inr (inr k)
  | inl k ↦ now item k
]
  where
    now :
        (item : Item)
        → (note_item item a).has_after_swap ≡ true
        → (a.has_after_swap ≡ true) ⊎ IsAmong (function "after_swap") (item ∷ items)
    now other_item k = inl k
    now (function name) k = elim (Bool-cases (name == "after_swap")) [
      | inl e ↦ inr (inl (ap function (sym ((eq_iff name "after_swap").0 e))))
      | inr e ↦ inl (ground arith)
    ]

-- The flag stays, and an item sets it.
after_swap_stays :
    (items : List Item) (a : SourceAnalysis)
    → a.has_after_swap ≡ true
    → (analyze_items items a).has_after_swap ≡ true
unfolding analyze_items note_item
after_swap_stays [] a h = h
after_swap_stays (other_item ∷ items) a h = after_swap_stays items a h
after_swap_stays (function name ∷ items) a h =
    after_swap_stays items (note_item (function name) a) (ground arith)

after_swap_set :
    (items : List Item) (a : SourceAnalysis)
    → IsAmong (function "after_swap") items
    → (analyze_items items a).has_after_swap ≡ true
unfolding analyze_items note_item
after_swap_set [] a h = elim h [ ]
after_swap_set (item ∷ items) a (inr h) = after_swap_set items (note_item item a) h
after_swap_set (item ∷ items) a (inl e) =
    after_swap_stays items (note_item item a) (ap (λ i. (note_item i a).has_after_swap) (sym e))

-- A source that gets a shim has no keyword `unsafe` at any depth and defines `compute_swap`, and
-- the shim calls the submission's `after_swap` where the source defines one and the empty hook
-- where it does not.
pub make_safe_accepts :
    (stream : TokenStream) (items : List Item) (target : String)
    → make_safe_submission_source (some stream) (some items) ≡ shimmed target
    → (¬ HasUnsafe stream)
      × IsAmong (function "compute_swap") items
      × (((target ≡ "after_swap") × IsAmong (function "after_swap") items)
          ⊎ ((target ≡ "__prop_amm_after_swap_noop") × (¬ IsAmong (function "after_swap") items)))
unfolding make_safe_submission_source shim_items analyze_source after_swap_target
make_safe_accepts stream items target h =
    let begin : SourceAnalysis = record { has_compute_swap = false; has_after_swap = false } in
    let flags = analyze_items items begin in
    let quiet : token_stream_contains_unsafe stream ≡ false = ground arith in
    let has : flags.has_compute_swap ≡ true = ground arith in
    let named : target
        ≡ (if flags.has_after_swap then "after_swap" else "__prop_amm_after_swap_noop") =
      ground arith in
    (
      λ u. let e = stream_found stream u in ground arith,
      among (compute_swap_flag items begin has),
      elim (Bool-cases flags.has_after_swap) [
        | inl e ↦ inl (rw e at named, among (after_swap_flag items begin e))
        | inr e ↦ inr (rw e at named, λ m. let k = after_swap_set items begin m in ground arith)
      ],
    )
  where
    among : {A : Type 0} → (false ≡ true) ⊎ A → A
    among (inl e) = absurd (ground arith)
    among (inr a) = a

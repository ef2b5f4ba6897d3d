-- ===== src/Cli/Compile/Ready.antt =====
-- crates/cli/src/commands/compile.rs: the source that is compiled, and a build directory that is
-- ready for cargo.
use Prim.Native.String.{String}
use prop_amm_challenge.Prelude.{
  ◌≡◌, ◌⊎◌, refl, List, [], ◌∷◌, ◌++◌, Option, none, some, arith, IsAmong,
}
use prop_amm_challenge.Cli.System.{
  System, World, Action, Answer, done, fail, panicked, io_error, FilePath,
}
use prop_amm_challenge.Cli.Compile.{TokenStream, Item, function, Checked, shimmed, Refusal}
use prop_amm_challenge.Cli.Compile as Compile
use prop_amm_challenge.Cli.Compile.Safety.{HasUnsafe, make_safe_accepts}
use prop_amm_challenge.Cli.Compile.Build.{
  ◌>>=◌, or_bail, read_text, with_checked, with_shim, make_safe_submission_source,
  cargo_toml_with_sdk_path,
}

module _ (S : System) where
  -- A source that may be compiled, with the hook that its shim calls.
  pub record IsSafe (source target : String) : Type 0 where
    pub stream : TokenStream
    pub items : List Item
    pub stream_eq : S.token_stream source ≡ some stream
    pub items_eq : S.parse_file source ≡ some items
    pub no_unsafe : ¬ HasUnsafe stream
    pub has_swap : IsAmong (function "compute_swap") items
    pub hook :
        ((target ≡ "after_swap") × IsAmong (function "after_swap") items)
        ⊎ ((target ≡ "__prop_amm_after_swap_noop") × (¬ IsAmong (function "after_swap") items))

  -- The directory holds a source that may be compiled, with its shim, and the manifest.
  pub record IsReady (disk : S.Disk) (dir : FilePath) : Type 0 where
    pub source : String
    pub target : String
    pub safe : IsSafe source target
    pub library_eq :
        S.read disk (dir ++ "src" ∷ "lib.rs" ∷ []) ≡ some (S.as_bytes (with_shim source target))
    pub manifest_eq :
        S.read disk (dir ++ "Cargo.toml" ∷ []) ≡ some (S.as_bytes cargo_toml_with_sdk_path)

  -- The result of an action from `w` on that has started nothing, and has the property if it is done.
  abbrev pub Steps : {A : Type 0} → World S → (A → World S → Type 0) → Answer A × World S → Type 0
  Steps w P (done a, w') = (w'.started ≡ w.started) × P a w'
  Steps w P (fail e, w') = w'.started ≡ w.started
  Steps w P (panicked, w') = w'.started ≡ w.started

  pub step :
      {A B : Type 0} (w : World S) (P : A → World S → Type 0) (Q : B → World S → Type 0)
      (r : Answer A × World S) (k : A → Action S B)
      → Steps w P r
      → ((a : A) (w' : World S) → w'.started ≡ w.started → P a w' → Steps w Q (k a w'))
      → Steps w Q
          (elim r.0 [ done a ↦ k a r.1 | fail e ↦ (fail e, r.1) | panicked ↦ (panicked, r.1) ])
  step w P Q (done a, w') k (e, p) next = next a w' e p
  step w P Q (fail e, w') k h next = h
  step w P Q (panicked, w') k h next = h

  shimmed-IsSafe :
      (source target : String) (ts : Option TokenStream) (is : Option (List Item))
      → S.token_stream source ≡ ts
      → S.parse_file source ≡ is
      → Compile.make_safe_submission_source ts is ≡ shimmed target
      → IsSafe source target
  unfolding Compile.make_safe_submission_source Compile.shim_items
  shimmed-IsSafe source target none is t p h = absurd (ground arith)
  shimmed-IsSafe source target (some stream) none t p h = absurd (ground arith)
  shimmed-IsSafe source target (some stream) (some items) t p h =
      let (quiet, among, hook) = make_safe_accepts stream items target h in
      record {
        stream = stream;
        items = items;
        stream_eq = t;
        items_eq = p;
        no_unsafe = quiet;
        has_swap = among;
        hook = hook;
      }

  -- The source that is compiled.
  abbrev pub Shimmed : String → World S → Type 0
  Shimmed safe_source w =
      (source : String) × (target : String) × IsSafe source target
      × (safe_source ≡ with_shim source target)

  with_checked-Shimmed :
      (w : World S) (source : String) (c : Checked)
      → Compile.make_safe_submission_source (S.token_stream source) (S.parse_file source) ≡ c
      → Steps w Shimmed (with_checked S source c w)
  unfolding with_checked
  with_checked-Shimmed w source (Checked.refused r) h = refl
  with_checked-Shimmed w source (shimmed target) h = (
    refl,
    (
      source,
      target,
      shimmed-IsSafe source target (S.token_stream source) (S.parse_file source) refl refl h,
      refl,
    ),
  )

  pub make_safe-Shimmed :
      (w : World S) (file : FilePath) → Steps w Shimmed (make_safe_submission_source S file w)
  unfolding make_safe_submission_source
  make_safe-Shimmed w file = given (read_text S file w.disk)
    where
      given :
          (found : Option String)
          → Steps w Shimmed (
              ◌>>=◌ S
                (or_bail S io_error found)
                (λ source. with_checked S source (
                  Compile.make_safe_submission_source
                    (S.token_stream source)
                    (S.parse_file source)))
                w)
      given none = refl
      given (some source) = with_checked-Shimmed w source _ refl

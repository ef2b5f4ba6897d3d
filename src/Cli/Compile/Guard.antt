-- ===== src/Cli/Compile/Guard.antt =====
-- crates/cli/src/commands/compile.rs: what cargo finds in the build directory when it is started.
use Prim.Native.String.{String}
use text.Mathlib.Text.{starts_with}
use prop_amm_challenge.Prelude.{
  ◌≡◌, ◌⊎◌, inl, inr, refl, sym, ap, ◌∙◌, Bool, true, false, ◌&&◌, List, [], ◌∷◌, ◌++◌, Option,
  none, some, if◌then◌else◌, All, All-append, append_assoc,
}
use prop_amm_challenge.Cli.System.{
  System, IsLawful, World, Started, Action, Answer, done, fail, panicked, Error,
  native_build_failed, bpf_build_failed, no_native_library, no_bpf_so, FilePath, Argument,
}
use prop_amm_challenge.Cli.Compile.Build.{
  ◌>>=◌, pure, bail, or_bail, status, find_native_lib, find_bpf_so, prepare, cargo_build,
  cargo_build_sbf, compile_native, compile_bpf, first_named, ends_with, status_of,
}
use prop_amm_challenge.Cli.Compile.Ready.{IsReady, Steps}
use prop_amm_challenge.Cli.Compile.Prepare.{prepare-Ready}

module _ (S : System) where
  -- A command is cargo's, on a directory that is ready when it starts.
  pub record Guarded (s : Started S) : Type 0 where
    pub dir : FilePath
    pub is_cargo : (s.arguments ≡ cargo_build S dir) ⊎ (s.arguments ≡ cargo_build_sbf S dir)
    pub ready : IsReady S s.disk dir

  -- The commands that an action from `w` on has started are guarded.
  unfoldable pub Grown : {A : Type 0} → World S → Answer A × World S → Type 0
  Grown w r = (added : List (Started S)) × (r.1.started ≡ added ++ w.started) × All Guarded added

  pub nothing_started :
      {A : Type 0} (w : World S) (r : Answer A × World S) → r.1.started ≡ w.started → Grown w r
  unfolding Grown
  nothing_started w r e = ([], e, tt)

  -- One action after another.
  pub after :
      {A B : Type 0} (w : World S) (r : Answer A × World S) (k : A → Action S B)
      → Grown w r
      → ((a : A) (w' : World S) → Grown w' (k a w'))
      → Grown {A = B} w
          (elim r.0 [ done a ↦ k a r.1 | fail e ↦ (fail e, r.1) | panicked ↦ (panicked, r.1) ])
  unfolding Grown
  after w (fail e, w') k g next = g
  after w (panicked, w') k g next = g
  after w (done a, w') k (added, e, all) next =
      let (more, e', all') = next a w' in
      (
        more ++ added,
        e' ∙ ap (λ l. more ++ l) e ∙ sym (append_assoc more added w.started),
        All-append Guarded more added all' all,
      )

  module _ (laws : IsLawful S) where
    -- After preparing, the next command is guarded, and no other one is started.
    built :
        {A : Type 0} (w : World S) (r : Answer FilePath × World S) (k : FilePath → Action S A)
        → Steps S w (λ dir w'. IsReady S w'.disk dir) r
        → ((dir : FilePath) (w' : World S)
            → IsReady S w'.disk dir
            → (s : Started S) × ((k dir w').1.started ≡ s ∷ w'.started) × Guarded s)
        → Grown {A = A} w
            (elim r.0 [ done a ↦ k a r.1 | fail e ↦ (fail e, r.1) | panicked ↦ (panicked, r.1) ])
    unfolding Grown
    built w (fail x, w') k e next = ([], e, tt)
    built w (panicked, w') k e next = ([], e, tt)
    built w (done dir, w') k (e, ready) next =
        let (s, e', guarded) = next dir w' ready in (s ∷ [], e' ∙ ap (λ l. s ∷ l) e, (guarded, tt))

    found_quiet :
        (w : World S) (x : Error) (found : Option String) (dir : FilePath)
        → (◌>>=◌ S (or_bail S x found) (λ (name : String). pure S (dir ++ name ∷ [])) w).1.started
          ≡ w.started
    found_quiet w x none dir = refl
    found_quiet w x (some name) dir = refl

    find_native_lib_quiet :
        (dir : FilePath) (w : World S) → (find_native_lib S dir w).1.started ≡ w.started
    unfolding find_native_lib
    find_native_lib_quiet dir w =
        found_quiet w no_native_library
          (elim (S.read_dir w.disk (dir ++ "target" ∷ "release" ∷ [])) [
            | none ↦ none
            | some es ↦
                first_named (λ name. starts_with name "lib" && ends_with name S.lib_extension) es
          ])
          (dir ++ "target" ∷ "release" ∷ [])

    find_bpf_so_quiet : (dir : FilePath) (w : World S) → (find_bpf_so S dir w).1.started ≡ w.started
    unfolding find_bpf_so
    find_bpf_so_quiet dir w =
        found_quiet w no_bpf_so
          (elim (S.read_dir w.disk (dir ++ "target" ∷ "deploy" ∷ [])) [
            | none ↦ none
            | some es ↦ first_named (λ name. ends_with name ".so") es
          ])
          (dir ++ "target" ∷ "deploy" ∷ [])

    -- A command and what is done with its status, where that starts nothing.
    one_started :
        {A : Type 0} (w : World S) (arguments : List Argument) (k : Bool → Action S A)
        → ((b : Bool) (w' : World S) → (k b w').1.started ≡ w'.started)
        → (◌>>=◌ S (status S arguments) k w).1.started
          ≡ record { arguments = arguments; disk = w.disk } ∷ w.started
    unfolding status
    one_started w arguments k quiet = of (S.command arguments w.disk).0
      where
        next : World S
        next = record w {
          disk = (S.command arguments w.disk).1;
          started = record { arguments = arguments; disk = w.disk } ∷ w.started;
        }

        of :
            (result : Option Bool)
            → (◌>>=◌ S (λ _. (status_of result, next)) k w).1.started
              ≡ record { arguments = arguments; disk = w.disk } ∷ w.started
        of none = refl
        of (some success) = quiet success next

    pub compile_native-Grown : (file : FilePath) (w : World S) → Grown w (compile_native S file w)
    unfolding compile_native
    compile_native-Grown file w =
        built w (prepare S file w) rest (prepare-Ready S laws w file) (λ dir w' ready. (
          record { arguments = cargo_build S dir; disk = w'.disk },
          one_started w' (cargo_build S dir) (chosen dir) (after_native dir),
          record { dir = dir; is_cargo = inl refl; ready = ready },
        ))
      where
        chosen : FilePath → Bool → Action S FilePath
        chosen dir success = if success then find_native_lib S dir else bail S native_build_failed

        rest : FilePath → Action S FilePath
        rest dir = ◌>>=◌ S (status S (cargo_build S dir)) (chosen dir)

        after_native :
            (dir : FilePath) (b : Bool) (w' : World S) → (chosen dir b w').1.started ≡ w'.started
        after_native dir true w' = find_native_lib_quiet dir w'
        after_native dir false w' = refl

    pub compile_bpf-Grown : (file : FilePath) (w : World S) → Grown w (compile_bpf S file w)
    unfolding compile_bpf
    compile_bpf-Grown file w =
        built w (prepare S file w) rest (prepare-Ready S laws w file) (λ dir w' ready. (
          record { arguments = cargo_build_sbf S dir; disk = w'.disk },
          one_started w' (cargo_build_sbf S dir) (chosen dir) (after_bpf dir),
          record { dir = dir; is_cargo = inr refl; ready = ready },
        ))
      where
        chosen : FilePath → Bool → Action S FilePath
        chosen dir success = if success then find_bpf_so S dir else bail S bpf_build_failed

        rest : FilePath → Action S FilePath
        rest dir = ◌>>=◌ S (status S (cargo_build_sbf S dir)) (chosen dir)

        after_bpf :
            (dir : FilePath) (b : Bool) (w' : World S) → (chosen dir b w').1.started ≡ w'.started
        after_bpf dir true w' = find_bpf_so_quiet dir w'
        after_bpf dir false w' = refl

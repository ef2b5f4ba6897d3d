-- ===== src/Cli/Compile/Prepare.antt =====
-- crates/cli/src/commands/compile.rs: the files that are written before cargo is started.
use Prim.Native.String.{String}
use text.Mathlib.TextEquality.{eq_iff}
use prop_amm_challenge.Prelude.{
  ◌≡◌, ◌≢◌, refl, ap, ◌∙◌, Bool, true, false, [], ◌∷◌, ◌++◌, Option, none, some, if◌then◌else◌,
  arith, length,
}
use prop_amm_challenge.Cli.System.{
  System, IsLawful, World, Answer, done, fail, panicked, io_error, file_not_found, FilePath,
}
use prop_amm_challenge.Cli.Compile.Build.{
  pure, bail, change, read_text, should_write, should_write_source, build_dir, ensure_build_dir,
  prepare, cargo_toml_with_sdk_path,
}
use prop_amm_challenge.Cli.Compile.Ready.{IsReady, Steps, step, Shimmed, make_safe-Shimmed}

module _ (S : System) (laws : IsLawful S) where
  -- A file of the given content.
  abbrev Holding : FilePath → String → World S → Type 0
  Holding p text w = S.read w.disk p ≡ some (S.as_bytes text)

  -- The file holds the text now, and no other file has changed.
  abbrev Written : World S → FilePath → String → Unit {0} → World S → Type 0
  Written w p text _ w' =
      Holding p text w' × ((q : FilePath) → p ≢ q → S.read w'.disk q ≡ S.read w.disk q)

  -- A file that is written unless it holds the text already.
  write_if-Steps :
      (w : World S) (p : FilePath) (text : String) (stale : Bool)
      → (stale ≡ false → Holding p text w)
      → Steps S w
          (Written w p text)
          ((if stale then change S (S.write p (S.as_bytes text)) else pure S tt) w)
  write_if-Steps w p text false held = (refl, (held refl, λ q h. refl))
  write_if-Steps w p text true held = wrote (S.write p (S.as_bytes text) w.disk).0 refl
    where
      wrote :
          (ok : Bool)
          → (S.write p (S.as_bytes text) w.disk).0 ≡ ok
          → Steps S w (Written w p text) (
            if ok then done tt else fail io_error,
            record w { disk = (S.write p (S.as_bytes text) w.disk).1 },
          )
      wrote false e = refl
      wrote true e =
          (refl, (laws.read-write p _ w.disk e, λ q h. laws.read-write_other p q _ w.disk h))

  rebase-Steps :
      {A : Type 0} (w w1 : World S) (P : A → World S → Type 0) (r : Answer A × World S)
      → w1.started ≡ w.started
      → Steps S w1 P r
      → Steps S w P r
  rebase-Steps w w1 P (done a, w') e (h, p) = (h ∙ e, p)
  rebase-Steps w w1 P (fail x, w') e h = h ∙ e
  rebase-Steps w w1 P (panicked, w') e h = h ∙ e

  change-Steps :
      (w : World S) (f : S.Disk → Bool × S.Disk) → Steps S w (λ _ _. Unit {0}) (change S f w)
  change-Steps w f = tried (f w.disk).0
    where
      tried :
          (ok : Bool)
          → Steps S w
              (λ _ _. Unit {0})
              ((if ok then done tt else fail io_error), record w { disk = (f w.disk).1 })
      tried false = refl
      tried true = (refl, tt)

  not_stale-Holding :
      (w : World S) (p : FilePath) (text : String)
      → should_write (read_text S p w.disk) text ≡ false
      → Holding p text w
  unfolding should_write
  not_stale-Holding w p text h = of (S.read w.disk p) refl h
    where
      of_text :
          (bytes : S.Bytes) (found : Option String)
          → S.from_utf8 bytes ≡ found
          → should_write found text ≡ false
          → bytes ≡ S.as_bytes text
      of_text bytes none e h = absurd (ground arith)
      of_text bytes (some existing) e h =
          laws.as_bytes-from_utf8 bytes text (e ∙ ap some ((eq_iff existing text).0 (ground arith)))

      of :
          (found : Option S.Bytes)
          → S.read w.disk p ≡ found
          → should_write (elim found [ none ↦ none | some bytes ↦ S.from_utf8 bytes ]) text ≡ false
          → Holding p text w
      of none e h = absurd (ground arith)
      of (some bytes) e h = e ∙ ap some (of_text bytes (S.from_utf8 bytes) refl h)

  not_stale_source-Holding :
      (w : World S) (p : FilePath) (text : String)
      → should_write_source S (S.read w.disk p) (S.as_bytes text) ≡ false
      → Holding p text w
  unfolding should_write_source
  not_stale_source-Holding w p text h = of (S.read w.disk p) refl h
    where
      of :
          (found : Option S.Bytes)
          → S.read w.disk p ≡ found
          → should_write_source S found (S.as_bytes text) ≡ false
          → Holding p text w
      of none e h = absurd (ground arith)
      of (some bytes) e h =
          e ∙ ap some ((laws.bytes_eq_iff bytes (S.as_bytes text)).0 (ground arith))

  ensure_build_dir-Ready :
      (w : World S) (safe_source : String)
      → Shimmed S safe_source w
      → Steps S w (λ dir w'. IsReady S w'.disk dir) (ensure_build_dir S safe_source w)
  unfolding ensure_build_dir
  ensure_build_dir-Ready w safe_source (source, target, safe, e) =
      let dir = build_dir S safe_source in
      let cargo_path = dir ++ "Cargo.toml" ∷ [] in
      let source_path = dir ++ "src" ∷ "lib.rs" ∷ [] in
      let apart : source_path ≢ cargo_path = λ h. absurd (omega (arith, ap length h)) in
      step S w (λ _ _. Unit {0}) (λ d w'. IsReady S w'.disk d) _ _
        (change-Steps w (S.create_dir_all (dir ++ "src" ∷ [])))
        (λ _ w1 e1 _.
          step S w (Written w1 cargo_path cargo_toml_with_sdk_path) (λ d w'. IsReady S w'.disk d) _
            _
            (rebase-Steps w w1 _ _ e1 (
              write_if-Steps w1 cargo_path cargo_toml_with_sdk_path _
                (not_stale-Holding w1 cargo_path cargo_toml_with_sdk_path)))
            (λ _ w2 e2 (manifest, _).
              step S w (Written w2 source_path safe_source) (λ d w'. IsReady S w'.disk d) _
                (λ _. pure S dir)
                (rebase-Steps w w2 _ _ e2 (
                  write_if-Steps w2 source_path safe_source _
                    (not_stale_source-Holding w2 source_path safe_source)))
                (λ _ w3 e3 (library, others). (
                  e3,
                  record {
                    source = source;
                    target = target;
                    safe = safe;
                    library_eq = library ∙ ap (λ t. some (S.as_bytes t)) e;
                    manifest_eq = others cargo_path apart ∙ manifest;
                  },
                ))))

  pub prepare-Ready :
      (w : World S) (file : FilePath)
      → Steps S w (λ dir w'. IsReady S w'.disk dir) (prepare S file w)
  unfolding prepare
  prepare-Ready w file =
      step S w (λ _ _. Unit {0}) (λ d w'. IsReady S w'.disk d) _ _ (there (S.exists w.disk file))
        (λ _ w1 e1 _.
          step S w (Shimmed S) (λ d w'. IsReady S w'.disk d) _ _
            (rebase-Steps w w1 (Shimmed S) _ e1 (make_safe-Shimmed S w1 file))
            (λ safe_source w2 e2 shimmed_source.
              rebase-Steps w w2 _ _ e2 (ensure_build_dir-Ready w2 safe_source shimmed_source)))
    where
      there :
          (ok : Bool)
          → Steps S w (λ _ _. Unit {0}) ((if ok then pure S tt else bail S file_not_found) w)
      there true = (refl, tt)
      there false = refl

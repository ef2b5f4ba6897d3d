-- ===== src/Cli/Compile/Build.antt =====
-- crates/cli/src/commands/compile.rs: the source with its shim, the build directory, cargo and its products.
use Prim.Native.String.{String, ◌++◌ as ◌<>◌}
use text.Mathlib.Text.{◌==◌, starts_with}
use prop_amm_challenge.Prelude.{
  ℕ, zero, suc, Bool, true, not, ◌&&◌, ◌||◌, List, [], ◌∷◌, ◌++◌, Option, none, some, if◌then◌else◌,
}
use prop_amm_challenge.Cli.Compile.{Checked, shimmed, Refusal}
use prop_amm_challenge.Cli.Compile as Compile
use prop_amm_challenge.Cli.System.{
  System, Action, Answer, done, fail, panicked, Error, io_error, file_not_found, refused,
  native_build_failed, bpf_build_failed, no_native_library, no_bpf_so, Argument, word, path,
  FilePath,
}

-- `str::replace`; the first number is how much of a match is still to be passed over.
unfoldable pub replace_after : ℕ → String → String → String → String
replace_after skip from to String.[] = ""
replace_after (suc skip) from to (String.◌∷◌ c s) = replace_after skip from to s
replace_after zero from to (String.◌∷◌ c s) =
    let found = starts_with (String.◌∷◌ c s) from in
    let rest = replace_after (if found then matched from else zero) from to s in
    if found then to <> rest else String.◌∷◌ c rest
  where
    size : String → ℕ
    size String.[] = 0
    size (String.◌∷◌ _ s) = suc (size s)

    matched : String → ℕ
    matched String.[] = 0
    matched (String.◌∷◌ _ s) = size s

unfoldable pub ends_with : String → String → Bool
ends_with String.[] end = String.[] == end
ends_with (String.◌∷◌ c s) end = String.◌∷◌ c s == end || ends_with s end

abbrev cargo_head : String
cargo_head =
    "[package]\nname = \"user_program\"\nversion = \"0.1.0\"\nedition = \"2021\"\n\n[lib]\ncrate-type = [\"cdylib\", \"lib\"]\n\n"

abbrev pub cargo_toml : String
cargo_toml =
    cargo_head <> "[dependencies]\npinocchio = \"0.7\"\n"
    <> "wincode = { version = \"0.4\", default-features = false, features = [\"derive\"] }\n"
    <> "prop-amm-submission-sdk = { path = \"../crates/submission-sdk\" }\n\n"
    <> "[features]\nno-entrypoint = []\n"

unfoldable pub cargo_toml_with_sdk_path : String
cargo_toml_with_sdk_path =
    replace_after zero "path = \"../crates/submission-sdk\""
      "path = \"../../../crates/submission-sdk\"" cargo_toml

-- The shim with the given hook.
unfoldable pub native_shim_source : String → String
native_shim_source after_swap_target =
    "#[cfg(not(target_os = \"solana\"))]\n#[inline]\n"
    <> "fn __prop_amm_after_swap_noop(_data: &[u8], _storage: &mut [u8]) {}\n\n"
    <> "#[cfg(not(target_os = \"solana\"))]\n#[no_mangle]\n"
    <> "pub extern \"C\" fn __prop_amm_compute_swap_export(data: *const u8, len: usize) -> u64 {\n"
    <> "    prop_amm_submission_sdk::ffi_compute_swap(data, len, compute_swap)\n}\n\n"
    <> "#[cfg(not(target_os = \"solana\"))]\n#[no_mangle]\n"
    <> "pub extern \"C\" fn __prop_amm_after_swap_export(\n    data: *const u8,\n    data_len: usize,\n"
    <> "    storage: *mut u8,\n    storage_len: usize,\n) {\n"
    <> "    prop_amm_submission_sdk::ffi_after_swap(\n        data,\n        data_len,\n"
    <> "        storage,\n        storage_len,\n        " <> after_swap_target <> ",\n    );\n}\n"

-- A source with its shim.
unfoldable pub with_shim : String → String → String
with_shim source after_swap_target = source <> "\n" <> "\n" <> native_shim_source after_swap_target

-- The first name that passes, of the entries that can be read.
unfoldable pub first_named : (String → Bool) → List (Option String) → Option String
first_named named [] = none
first_named named (none ∷ entries) = first_named named entries
first_named named (some name ∷ entries) =
    let rest = first_named named entries in if named name then some name else rest

abbrev pub status_of : Option Bool → Answer Bool
status_of none = fail io_error
status_of (some success) = done success

-- Whether the manifest is to be written.
unfoldable pub should_write : Option String → String → Bool
should_write none wanted = true
should_write (some existing) wanted = not (existing == wanted)

module _ (S : System) where
  infixl 5 ◌>>=◌ ◌>>◌
  abbrev pub ◌>>=◌ : {A B : Type 0} → Action S A → (A → Action S B) → Action S B
  ◌>>=◌ m k w = elim (m w).0 [
    | done a ↦ k a (m w).1
    | fail e ↦ (fail e, (m w).1)
    | panicked ↦ (panicked, (m w).1)
  ]

  abbrev pub ◌>>◌ : {B : Type 0} → Action S (Unit {0}) → Action S B → Action S B
  m >> k = m >>= λ _. k

  abbrev pub pure : {A : Type 0} → A → Action S A
  pure a w = (done a, w)

  abbrev pub bail : {A : Type 0} → Error → Action S A
  bail e w = (fail e, w)

  -- `?` on a value that is there or not.
  abbrev pub or_bail : {A : Type 0} → Error → Option A → Action S A
  or_bail e none = bail e
  or_bail e (some a) = pure a

  abbrev pub look : {A : Type 0} → (S.Disk → A) → Action S A
  look f w = (done (f w.disk), w)

  -- An operation that changes the disk, and fails or not.
  abbrev pub change : (S.Disk → Bool × S.Disk) → Action S (Unit {0})
  change f w =
      let (ok, disk) = f w.disk in (if ok then done tt else fail io_error, record w { disk = disk })

  -- `Command::status`, which is an error where the command does not start.
  unfoldable pub status : List Argument → Action S Bool
  status arguments w =
      let (result, disk) = S.command arguments w.disk in
      (
        status_of result,
        record w {
          disk = disk;
          started = record { arguments = arguments; disk = w.disk } ∷ w.started;
        },
      )

  abbrev pub read_text : FilePath → S.Disk → Option String
  read_text p disk = elim (S.read disk p) [ none ↦ none | some bytes ↦ S.from_utf8 bytes ]

  unfoldable pub with_checked : String → Checked → Action S String
  with_checked source (Checked.refused r) = bail (refused r)
  with_checked source (shimmed target) = pure (with_shim source target)

  unfoldable pub make_safe_submission_source : FilePath → Action S String
  make_safe_submission_source rs_path = do
    found ← look (read_text rs_path)
    source ← or_bail io_error found
    with_checked source
        (Compile.make_safe_submission_source (S.token_stream source) (S.parse_file source))

  unfoldable pub should_write_source : Option S.Bytes → S.Bytes → Bool
  should_write_source none source_bytes = true
  should_write_source (some existing) source_bytes = not (S.bytes_eq existing source_bytes)

  abbrev pub build_dir : String → FilePath
  build_dir safe_source = ".build" ∷ "runs" ∷ S.build_key safe_source cargo_toml ∷ []

  unfoldable pub ensure_build_dir : String → Action S FilePath
  ensure_build_dir safe_source = do
    let dir = build_dir safe_source
    let cargo_path = dir ++ "Cargo.toml" ∷ []
    let source_path = dir ++ "src" ∷ "lib.rs" ∷ []
    let source_bytes = S.as_bytes safe_source
    change (S.create_dir_all (dir ++ "src" ∷ []))
    manifest ← look (read_text cargo_path)
    if should_write manifest cargo_toml_with_sdk_path
        then change (S.write cargo_path (S.as_bytes cargo_toml_with_sdk_path))
        else pure tt
    existing ← look (λ disk. S.read disk source_path)
    if should_write_source existing source_bytes
        then change (S.write source_path source_bytes)
        else pure tt
    pure dir

  unfoldable pub find_native_lib : FilePath → Action S FilePath
  find_native_lib dir = do
    let release_dir = dir ++ "target" ∷ "release" ∷ []
    let is_lib = λ (name : String). starts_with name "lib" && ends_with name S.lib_extension
    entries ← look (λ disk. S.read_dir disk release_dir)
    name ←
        or_bail no_native_library (elim entries [ none ↦ none | some es ↦ first_named is_lib es ])
    pure (release_dir ++ name ∷ [])

  unfoldable pub find_bpf_so : FilePath → Action S FilePath
  find_bpf_so dir = do
    let deploy_dir = dir ++ "target" ∷ "deploy" ∷ []
    let is_so = λ (name : String). ends_with name ".so"
    entries ← look (λ disk. S.read_dir disk deploy_dir)
    name ← or_bail no_bpf_so (elim entries [ none ↦ none | some es ↦ first_named is_so es ])
    pure (deploy_dir ++ name ∷ [])

  -- What both builds begin with: the build directory of a source that is let through.
  unfoldable pub prepare : FilePath → Action S FilePath
  prepare rs_file = do
    there ← look (λ disk. S.exists disk rs_file)
    if there then pure tt else bail file_not_found
    safe_source ← make_safe_submission_source rs_file
    ensure_build_dir safe_source

  abbrev pub cargo_build : FilePath → List Argument
  cargo_build dir =
      word "cargo"
      ∷ word "build"
      ∷ word "--release"
      ∷ word "--manifest-path"
      ∷ path (dir ++ "Cargo.toml" ∷ [])
      ∷ word "--features"
      ∷ word "no-entrypoint"
      ∷ []

  abbrev pub cargo_build_sbf : FilePath → List Argument
  cargo_build_sbf dir =
      word "cargo"
      ∷ word "build-sbf"
      ∷ word "--manifest-path"
      ∷ path (dir ++ "Cargo.toml" ∷ [])
      ∷ []

  unfoldable pub compile_native : FilePath → Action S FilePath
  compile_native rs_file = do
    dir ← prepare rs_file
    success ← status (cargo_build dir)
    if success then find_native_lib dir else bail native_build_failed

  unfoldable pub compile_bpf : FilePath → Action S FilePath
  compile_bpf rs_file = do
    dir ← prepare rs_file
    success ← status (cargo_build_sbf dir)
    if success then find_bpf_so dir else bail bpf_build_failed

-- ===== src/Cli/System.antt =====
-- What the commands of crates/cli use of the operating system, of cargo and of the parsers: an interface, and the
-- state that a command changes.
use Prim.Native.String.{String}
use prop_amm_challenge.Prelude.{◌≡◌, ◌≢◌, ◌↔◌, Bool, true, List, Option, some}
use prop_amm_challenge.Executor.Native.{SwapFn, AfterSwapFn}
use prop_amm_challenge.Executor.Vm.{ExecutorError}
use prop_amm_challenge.Executor.Loader.{Rbpf}
use prop_amm_challenge.Sim.SearchStats.{SearchStats}
use prop_amm_challenge.Sim.Runner.{Rayon}
use prop_amm_challenge.Cli.Compile.{TokenStream, Refusal}
use prop_amm_challenge.Cli.Compile as Compile
use prop_amm_challenge.Cli.Metadata.{Rejection}
use prop_amm_challenge.Cli.Metadata as Metadata
use prop_amm_challenge.Cli.Validate.{Failure}

-- The components of a path.
abbrev pub FilePath : Type 0
FilePath = List String

-- An argument of a command.
pub data Argument : Type 0 where
  word : String → Argument
  path : FilePath → Argument

-- The symbols of a native library, by their names.
pub record Library : Type 0 where
  pub get_swap : String → Option SwapFn
  pub get_after_swap : String → Option AfterSwapFn

-- `none` and `false` are errors. A command that cannot be started has no status. `lib_extension` is that of the
-- target's dynamic libraries; `build_key` is the hash of two texts, in hexadecimal.
pub record System : Type 1 where
  pub Disk : Type 0
  pub Bytes : Type 0
  pub as_bytes : String → Bytes
  pub from_utf8 : Bytes → Option String
  pub bytes_eq : Bytes → Bytes → Bool
  pub exists : Disk → FilePath → Bool
  pub read : Disk → FilePath → Option Bytes
  pub write : FilePath → Bytes → Disk → Bool × Disk
  pub create_dir_all : FilePath → Disk → Bool × Disk
  pub read_dir : Disk → FilePath → Option (List (Option String))
  pub command : List Argument → Disk → Option Bool × Disk
  pub build_key : String → String → String
  pub lib_extension : String
  pub token_stream : String → Option TokenStream
  pub parse_file : String → Option (List Compile.Item)
  pub parse_metadata : String → Option (List Metadata.Item)
  pub is_blank : String → Bool
  pub library : Disk → FilePath → Option Library
  pub rbpf : Rbpf Bytes
  pub has_compiler : Bool
  pub rayon : Rayon

-- What is relied on: a file that was written holds what was written, other files keep what they hold, and a
-- directory that is made changes no file.
pub record IsLawful (S : System) : Type 0 where
  pub read-write :
      (p : FilePath) (b : S.Bytes) (d : S.Disk)
      → (S.write p b d).0 ≡ true
      → S.read (S.write p b d).1 p ≡ some b
  pub read-write_other :
      (p q : FilePath) (b : S.Bytes) (d : S.Disk) → p ≢ q → S.read (S.write p b d).1 q ≡ S.read d q
  pub bytes_eq_iff : (a b : S.Bytes) → (S.bytes_eq a b ≡ true) ↔ (a ≡ b)
  pub as_bytes-from_utf8 :
      (b : S.Bytes) (text : String) → S.from_utf8 b ≡ some text → b ≡ S.as_bytes text

pub data Error : Type 0 where
  io_error file_not_found unparsable native_build_failed bpf_build_failed : Error
  no_native_library no_bpf_so library_failed no_swap_symbol zero_stride no_thread_pool : Error
  refused : Refusal → Error
  rejected : Rejection → Error
  not_loaded : ExecutorError → Error
  failed : Failure → Error

-- What a command ends with; `panicked` is a panic of a simulation.
pub data Answer (A : Type 0) : Type 0 where
  done : A → Answer A
  fail : Error → Answer A
  panicked : Answer A

module _ (S : System) where
  -- A command that was started, and the disk that it found.
  pub record Started : Type 0 where
    pub arguments : List Argument
    pub disk : S.Disk

  -- `started` is the history, the latest first.
  pub record World : Type 0 where
    pub disk : S.Disk
    pub started : List Started
    pub stats : SearchStats

  abbrev pub Action : Type 0 → Type 0
  Action A = World → Answer A × World

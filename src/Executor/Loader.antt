-- ===== src/Executor/Loader.antt =====
-- crates/executor/src/loader.rs: `BpfProgram::load`. The registry, the ELF parser, the verifier and the compiler
-- are those of solana_rbpf.
use Prim.Native.String.{String}
use prop_amm_challenge.Prelude.{Bool, false, List, [], ◌∷◌, if◌then◌else◌}
use prop_amm_challenge.Executor.Vm.{
  Outcome, ok, err, ExecutorError, elf_load, verification, BpfProgram,
}

-- The syscalls of crates/executor/src/syscalls.rs, as functions that are registered.
pub data Builtin : Type 0 where
  set_return_data log abort set_storage memcpy memmove memcmp memset : Builtin

-- What solana_rbpf answers: a value, or an error with its text.
pub data Answer (A : Type 0) : Type 0 where
  fine : A → Answer A
  wrong : String → Answer A

pub record Rbpf (Bytes : Type 0) : Type 1 where
  pub Registry : Type 0
  pub Executable : Type 0
  pub no_functions : Registry
  pub register_function_hashed : String → Builtin → Registry → Answer Registry
  pub from_elf : Bytes → Registry → Answer Executable
  pub verify : Executable → Answer (Unit {0})
  pub jit_compile : Executable → Bool × Executable
  pub program : Executable → BpfProgram

-- A program and whether it is compiled.
pub record Loaded : Type 0 where
  pub program : BpfProgram
  pub jit_available : Bool

infixl 5 ◌>>=◌
abbrev ◌>>=◌ : {A B : Type 0} → Outcome A → (A → Outcome B) → Outcome B
ok a >>= k = k a
err e >>= k = err e

abbrev map_err : {A : Type 0} → (String → ExecutorError) → Answer A → Outcome A
map_err e (fine a) = ok a
map_err e (wrong text) = err (e text)

abbrev pub functions : List (String × Builtin)
functions =
    ("sol_set_return_data", set_return_data)
    ∷ ("sol_log_", log)
    ∷ ("abort", abort)
    ∷ ("sol_set_storage", set_storage)
    ∷ ("sol_memcpy_", memcpy)
    ∷ ("sol_memmove_", memmove)
    ∷ ("sol_memcmp_", memcmp)
    ∷ ("sol_memset_", memset)
    ∷ []

module _ {Bytes : Type 0} (rbpf : Rbpf Bytes) where
  unfoldable pub register_all : List (String × Builtin) → rbpf.Registry → Outcome rbpf.Registry
  register_all [] registry = ok registry
  register_all ((name, builtin) ∷ rest) registry =
      map_err elf_load (rbpf.register_function_hashed name builtin registry) >>= register_all rest

  -- `x86_64` and not Windows: the target has the compiler.
  unfoldable pub jit_compiled : Bool → rbpf.Executable → Bool × rbpf.Executable
  jit_compiled has_compiler executable =
      if has_compiler then rbpf.jit_compile executable else (false, executable)

  unfoldable pub load : Bool → Bytes → Outcome Loaded
  load has_compiler elf_bytes = register_all functions rbpf.no_functions >>= λ registry.
      map_err elf_load (rbpf.from_elf elf_bytes registry) >>= λ executable.
      map_err verification (rbpf.verify executable) >>= λ _.
      (let (jit_available, compiled) = jit_compiled has_compiler executable in
        ok (record { program = rbpf.program compiled; jit_available = jit_available }))

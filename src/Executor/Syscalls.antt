-- ===== src/Executor/Syscalls.antt =====
-- crates/executor/src/syscalls.rs: the calls that a program makes into the host. The address
-- translation of the virtual machine is a parameter, `map`; host memory is a function of the address.
pub mod Laws
pub mod Memory
pub mod Effects
use prop_amm_challenge.Prelude.{
  ℕ, zero, suc, ◌+◌, ◌-◌, ◌*◌, ◌/◌, ◌%◌, ◌≤◌, ◌<◌, Bool, true, false, ◌&&◌, List, [], ◌∷◌, ◌++◌,
  length, get_or, copy_at, ltb, leb, ◌==◌, if◌then◌else◌, replicate,
}
use prop_amm_challenge.Words.{u64_max, to_le_bytes}
use prop_amm_challenge.Buffer.{zeros}
use prop_amm_challenge.Shared.Instruction.{storage_size}

pub record SyscallContext : Type 0 where
  pub return_data : List ℕ
  pub has_return_data : Bool
  pub storage_data : List ℕ
  pub has_storage_update : Bool
  pub remaining : ℕ

-- What the meter starts at. `meter_disabled` is read from the process environment once.
abbrev pub budget : Bool → ℕ → ℕ
budget meter_disabled remaining = if meter_disabled then u64_max / 4 else remaining

unfoldable pub new : Bool → ℕ → SyscallContext
new meter_disabled remaining = record {
  return_data = zeros 8;
  has_return_data = false;
  storage_data = zeros storage_size;
  has_storage_update = false;
  remaining = budget meter_disabled remaining;
}

unfoldable pub reset : Bool → ℕ → SyscallContext → SyscallContext
reset meter_disabled remaining ctx = record ctx {
  has_return_data = false;
  has_storage_update = false;
  remaining = budget meter_disabled remaining;
}

unfoldable pub consume : Bool → ℕ → SyscallContext → SyscallContext
consume meter_disabled amount ctx =
    if meter_disabled then ctx else record ctx { remaining = ctx.remaining - amount }

pub data AccessType : Type 0 where
  load store : AccessType

pub data SyscallError : Type 0 where
  access_violation : AccessType → ℕ → ℕ → SyscallError
  program_aborted : SyscallError

pub data Result (A : Type 0) : Type 0 where
  ok : A → Result A
  err : SyscallError → Result A

-- What a syscall can change.
pub record Guest : Type 0 where
  pub context : SyscallContext
  pub memory : ℕ → ℕ

-- A step that fails keeps what was changed before it.
abbrev pub Syscall : Type 0 → Type 0
Syscall A = Guest → Result A × Guest

infixl 5 ◌>>=◌ ◌>>◌
abbrev pub ◌>>=◌ : {A B : Type 0} → Syscall A → (A → Syscall B) → Syscall B
◌>>=◌ m k g = elim (m g).0 [ err e ↦ (err e, (m g).1) | ok a ↦ k a (m g).1 ]

abbrev pub ◌>>◌ : {B : Type 0} → Syscall (Unit {0}) → Syscall B → Syscall B
m >> k = m >>= λ _. k

abbrev pub pure : {A : Type 0} → A → Syscall A
pure a g = (ok a, g)

abbrev pub fail : {A : Type 0} → SyscallError → Syscall A
fail e g = (err e, g)

-- `n` bytes of host memory from an address on.
unfoldable pub read_bytes : (ℕ → ℕ) → ℕ → ℕ → List ℕ
read_bytes memory at zero = []
read_bytes memory at (suc n) = memory at ∷ read_bytes memory (at + 1) n

-- Host memory with bytes written from an address on.
unfoldable pub write_bytes : (ℕ → ℕ) → ℕ → List ℕ → ℕ → ℕ
write_bytes memory at bytes p =
    if leb at p && ltb p (at + length bytes) then get_or bytes (p - at) 0 else memory p

abbrev load_bytes : ℕ → ℕ → Syscall (List ℕ)
load_bytes at n g = (ok (read_bytes g.memory at n), g)

abbrev store_bytes : ℕ → List ℕ → Syscall (Unit {0})
store_bytes at bytes g = (ok tt, record g { memory = write_bytes g.memory at bytes })

abbrev modify_context : (SyscallContext → SyscallContext) → Syscall (Unit {0})
modify_context h g = (ok tt, record g { context = h g.context })

-- The difference of the first two bytes that differ, as an `i32` pattern.
unfoldable pub compare_bytes : List ℕ → List ℕ → ℕ
compare_bytes [] _ = 0
compare_bytes (a ∷ as') [] = 0
compare_bytes (a ∷ as') (b ∷ bs) =
    let rest = compare_bytes as' bs in
    if a == b then rest else (a + 0x1_0000_0000 - b) % 0x1_0000_0000

module _ (map : AccessType → ℕ → ℕ → Result ℕ) where
  abbrev mapped : AccessType → ℕ → ℕ → Syscall ℕ
  mapped access at n g = (map access at n, g)

  unfoldable pub set_return_data : ℕ → ℕ → Syscall ℕ
  set_return_data addr len = if ltb 8 len then fail (access_violation load addr len) else (do
    host_addr ← mapped load addr len
    bytes ← load_bytes host_addr len
    modify_context
        (λ c. record c { return_data = copy_at 0 bytes (zeros 8); has_return_data = true })
    pure 0)

  unfoldable pub set_storage : ℕ → ℕ → Syscall ℕ
  set_storage addr len = if ltb storage_size len then fail (access_violation load addr len) else (do
    host_addr ← mapped load addr len
    bytes ← load_bytes host_addr len
    modify_context (λ c. record c { storage_data = copy_at 0 bytes c.storage_data })
    modify_context (λ c.
        if ltb len storage_size
        then record c { storage_data = copy_at len (zeros (storage_size - len)) c.storage_data }
        else c)
    modify_context (λ c. record c { has_storage_update = true })
    pure 0)

  -- `sol_memcpy_` and `sol_memmove_` have the same body.
  unfoldable pub memcpy : ℕ → ℕ → ℕ → Syscall ℕ
  memcpy dst_addr src_addr n = if n == 0 then pure 0 else (do
    src_host ← mapped load src_addr n
    dst_host ← mapped store dst_addr n
    bytes ← load_bytes src_host n
    store_bytes dst_host bytes
    pure 0)

  unfoldable pub memmove : ℕ → ℕ → ℕ → Syscall ℕ
  memmove dst_addr src_addr n = if n == 0 then pure 0 else (do
    src_host ← mapped load src_addr n
    dst_host ← mapped store dst_addr n
    bytes ← load_bytes src_host n
    store_bytes dst_host bytes
    pure 0)

  unfoldable pub memcmp : ℕ → ℕ → ℕ → ℕ → Syscall ℕ
  memcmp s1_addr s2_addr n result_addr = do
    cmp ← if n == 0 then pure 0 else (do
      s1_host ← mapped load s1_addr n
      s2_host ← mapped load s2_addr n
      s1 ← load_bytes s1_host n
      s2 ← load_bytes s2_host n
      pure (compare_bytes s1 s2))
    result_host ← mapped store result_addr 4
    store_bytes result_host (to_le_bytes 4 cmp)
    pure 0

  unfoldable pub memset : ℕ → ℕ → ℕ → Syscall ℕ
  memset dst_addr val n = if n == 0 then pure 0 else (do
    dst_host ← mapped store dst_addr n
    store_bytes dst_host (replicate n (val % 256))
    pure 0)

unfoldable pub log : Syscall ℕ
log = pure 0

unfoldable pub abort : Syscall ℕ
abort = fail program_aborted

-- The functions that crates/executor/src/loader.rs registers, with their arguments.
pub data Call : Type 0 where
  sol_set_return_data sol_set_storage : ℕ → ℕ → Call
  sol_log abort_call : Call
  sol_memcpy sol_memmove sol_memset : ℕ → ℕ → ℕ → Call
  sol_memcmp : ℕ → ℕ → ℕ → ℕ → Call

unfoldable pub perform : (AccessType → ℕ → ℕ → Result ℕ) → Call → Syscall ℕ
perform map (sol_set_return_data addr len) = set_return_data map addr len
perform map (sol_set_storage addr len) = set_storage map addr len
perform map sol_log = log
perform map abort_call = abort
perform map (sol_memcpy dst src n) = memcpy map dst src n
perform map (sol_memmove dst src n) = memmove map dst src n
perform map (sol_memset dst val n) = memset map dst val n
perform map (sol_memcmp s1 s2 n result) = memcmp map s1 s2 n result

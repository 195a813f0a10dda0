-- ===== src/Platform/Codes.antt =====
-- What the platform functions return, and the C library calls that both versions make.
use fast_queue.Prelude.{ℕ, Bool, true, false}

-- 0 and -1
pub data Code : Type 0 where
  success failure : Code

-- `rc == 0 ? 0 : -1`
abbrev pub code_of : Bool → Code
code_of true = Code.success
code_of false = Code.failure

-- `sizeof(struct fq_thread_arg_t)`
abbrev pub sizeof_thread_arg : ℕ
sizeof_thread_arg = 16

-- `struct fq_thread_arg_t`
pub record ThreadArg : Type 0 where
  pub func : ℕ
  pub arg : ℕ

-- ===== src/Output.antt =====
-- The system call write, which src/exec.c and src/gen_sig.c call in a loop until all is written.
use simple_x509_authenticate.Common.{ℕ, ◌≤◌, ◌<◌, ◌≢◌, Option, none, some}

-- What the call with a given number answers for a given size; `none` is -1.
abbrev pub Write : Type 0
Write = ℕ → ℕ → Option ℕ

abbrev pub Part : ℕ → Option ℕ → Type 0
Part size none = Unit {0}
Part size (some k) = (0 < k) × (k ≤ size)

-- A write that succeeds writes something, and no more than it was asked for.
pub record Writes (write : Write) : Type 0 where
  pub some_part : (n size : ℕ) → 0 < size → Part size (write n size)

-- No write fails.
pub record Succeeds (write : Write) : Type 0 where
  pub written : (n size : ℕ) → write n size ≢ none

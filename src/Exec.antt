-- ===== src/Exec.antt =====
-- src/exec.c: a script is written to the standard input of bash, in a child process.
pub mod Piped
pub mod Balanced
use simple_x509_authenticate.Common.{
  ℕ, zero, suc, ◌+◌, ◌%◌, ◌^◌, Bool, true, false, List, [], ◌∷◌, ◌++◌, Option, none, some, Bytes,
  length, take, drop, add64, sub64, ltb, if◌then◌else◌,
}
use simple_x509_authenticate.Common.Int.{ℤ, pos, ltb_ℤ, eq_ℤ}
use simple_x509_authenticate.Common.Result.{Result, ok, abort, Fault, ◌>>=◌}
use simple_x509_authenticate.Output.{Write}

-- What a process does, in order. `pipe_bytes` is all that the loop wrote to the pipe; run_bash
-- replaces the process, if it succeeds.
pub data Effect : Type 0 where
  pipe_failed fork_failed announce : ℕ → Effect
  pipe_bytes : Bytes → Effect
  close_read close_write dup2_failed run_bash exec_failed exit_failure : Effect
  wait_child : ℤ → Effect

-- Whether pipe, dup2 and execlp succeed, what fork answers, and what write answers.
pub record Process : Type 0 where
  pub piped : Bool
  pub fork : ℤ
  pub redirected : Bool
  pub replaced : Bool
  pub write : Write

-- exec_script answers nothing, so there is no error.
pub data NoError : Type 0 where

-- `int ret = write(in_pipe[1], &script[i], script_size - i);`, for an answer that is not -1: the
-- number is cut to 32 bits, and negative if the highest of them is set.
unfoldable pub to_int : ℕ → Option ℕ
to_int k = if ltb (k % 2 ^ 32) (2 ^ 31) then some (k % 2 ^ 32) else none

unfoldable pub pipe_loop : ℕ → Write → ℕ → ℕ → Bytes → Bytes → Result NoError Bytes
pipe_loop zero write n i script written = abort Fault.out_of_fuel
pipe_loop (suc fuel) write n i script written = elim (ltb i (length script)) [
  | false ↦ ok written
  | true ↦ elim (write n (sub64 (length script) i)) [
    | none ↦ ok written
    | some k ↦
        let more = written ++ take k (drop i script) in
        elim (to_int k) [
          | none ↦ ok more
          | some ret ↦ pipe_loop fuel write (suc n) (add64 i ret) script more
        ]
  ]
]

-- The child process.
unfoldable pub run_child : Process → List Effect
run_child process =
    if process.redirected
    then close_read
      ∷ close_write
      ∷ run_bash
      ∷ (if process.replaced then [] else exec_failed ∷ exit_failure ∷ [])
    else close_read ∷ close_write ∷ dup2_failed ∷ exit_failure ∷ []

-- The parent process, behind fork; every write that is needed makes the rest shorter.
unfoldable pub run_parent : Process → Bytes → ℕ → Result NoError (List Effect)
run_parent process script script_n =
    pipe_loop (suc (length script)) process.write 0 0 script [] >>= λ written. ok (
      announce script_n
      ∷ pipe_bytes written
      ∷ close_read
      ∷ close_write
      ∷ wait_child process.fork
      ∷ [])

-- The effects of the process that goes on behind fork: the child, if fork answered 0.
unfoldable pub exec_script : Process → Bytes → ℕ → Result NoError (List Effect)
exec_script process script script_n = elim process.piped [
  | false ↦ ok (pipe_failed script_n ∷ [])
  | true ↦ elim (ltb_ℤ process.fork (pos 0)) [
    | true ↦ ok (fork_failed script_n ∷ close_read ∷ close_write ∷ [])
    | false ↦ elim (eq_ℤ process.fork (pos 0)) [
      | true ↦ ok (run_child process)
      | false ↦ run_parent process script script_n
    ]
  ]
]

-- ===== src/Exec/Balanced.antt =====
-- The ends of the pipe of src/exec.c, and which process goes on behind exec_script.
use simple_x509_authenticate.Common.{
  ℕ, suc, ◌+◌, ◌^◌, ◌<◌, ◌≡◌, refl, subst, inl, inr, true, false, ◌&&◌, List, [], ◌∷◌, ◌++◌, Bytes,
  length, Bool-cases, All, arith, if◌then◌else◌,
}
use simple_x509_authenticate.Common.Int.{pos, ltb_ℤ, eq_ℤ}
use simple_x509_authenticate.Common.Result.{ok, Yields, Yields-bind}
use simple_x509_authenticate.Output.{Writes}
use simple_x509_authenticate.Exec.{
  Effect, close_read, close_write, run_bash, exit_failure, exec_failed, dup2_failed, Process,
  pipe_loop, run_child, run_parent, exec_script,
}
use simple_x509_authenticate.Exec.Piped.{Sent, exec_script_parent, pipe_loop-Sent}

-- How often an end of the pipe was closed.
abbrev pub closes_read : List Effect → ℕ
closes_read [] = 0
closes_read (close_read ∷ es) = 1 + closes_read es
closes_read (e ∷ es) = closes_read es

abbrev pub closes_write : List Effect → ℕ
closes_write [] = 0
closes_write (close_write ∷ es) = 1 + closes_write es
closes_write (e ∷ es) = closes_write es

-- The process does not end, and is not replaced.
abbrev pub GoesOn : Effect → Type 0
GoesOn run_bash = ⊥
GoesOn exit_failure = ⊥
GoesOn e = Unit {0}

-- Each end that pipe opened was closed once. The child process ends as bash or with exit, and every
-- other process goes on.
pub record Balanced (process : Process) (effects : List Effect) : Type 0 where
  pub read_ends : closes_read effects ≡ (if process.piped then 1 else 0)
  pub write_ends : closes_write effects ≡ (if process.piped then 1 else 0)
  pub child :
      process.piped ≡ true
      → eq_ℤ process.fork (pos 0) ≡ true
      → (front : List Effect) × (effects
          ≡ front
            ++ (if process.redirected && process.replaced then run_bash else exit_failure) ∷ [])
  pub server : (process.piped && eq_ℤ process.fork (pos 0)) ≡ false → All GoesOn effects

run_child-Balanced :
    (process : Process)
    → process.piped ≡ true
    → eq_ℤ process.fork (pos 0) ≡ true
    → Balanced process (run_child process)
unfolding run_child
run_child-Balanced process piped forked =
    let in_child : (process.piped && eq_ℤ process.fork (pos 0)) ≡ true = ground arith in
    elim (Bool-cases process.redirected) [
      | inl redirected ↦ elim (Bool-cases process.replaced) [
        | inl replaced ↦
            rw (piped, redirected, replaced, run_child)
              (record {
                read_ends = refl;
                write_ends = refl;
                child = λ _ _. (close_read ∷ close_write ∷ [], refl);
                server = λ other. absurd (ground arith);
              })
        | inr failed ↦
            rw (piped, redirected, failed, run_child)
              (record {
                read_ends = refl;
                write_ends = refl;
                child = λ _ _. (close_read ∷ close_write ∷ run_bash ∷ exec_failed ∷ [], refl);
                server = λ other. absurd (ground arith);
              })
      ]
      | inr failed ↦
          rw (piped, failed, run_child)
            (record {
              read_ends = refl;
              write_ends = refl;
              child = λ _ _. (close_read ∷ close_write ∷ dup2_failed ∷ [], refl);
              server = λ other. absurd (ground arith);
            })
    ]

exec_script_child :
    (process : Process) (script : Bytes) (script_n : ℕ)
    → process.piped ≡ true
    → eq_ℤ process.fork (pos 0) ≡ true
    → ok (run_child process) ≡ exec_script process script script_n
unfolding exec_script run_child
exec_script_child process script script_n piped child =
    let running : ltb_ℤ process.fork (pos 0) ≡ false = ground arith in
    rw (piped, running, child, exec_script) refl

-- Whatever pipe, fork, dup2 and execlp answer, and whatever sizes write answers, exec_script ends for
-- a script of fewer than 2 ^ 31 bytes. The process that goes on behind fork has closed each end of
-- the pipe exactly once, if there is a pipe, and closes none that was not opened. If it is the child,
-- it ends by becoming bash or by exit, so it never returns to the event loop; if it is not, it does
-- neither.
pub exec_script-Balanced :
    (process : Process) (script : Bytes) (script_n : ℕ)
    → Writes process.write
    → length script < 2 ^ 31
    → Yields (Balanced process) (exec_script process script script_n)
unfolding exec_script run_parent
exec_script-Balanced process script script_n writes small = elim (Bool-cases process.piped) [
  | inr none ↦
      rw (none, exec_script)
        (record {
          read_ends = refl;
          write_ends = refl;
          child = λ piped _. absurd (ground arith);
          server = λ _. (tt, tt);
        })
  | inl piped ↦ elim (Bool-cases (ltb_ℤ process.fork (pos 0))) [
    | inl failed ↦
        rw (piped, failed, exec_script)
          (record {
            read_ends = refl;
            write_ends = refl;
            child = λ _ forked. absurd (ground arith);
            server = λ _. (tt, (tt, (tt, tt)));
          })
    | inr running ↦ elim (Bool-cases (eq_ℤ process.fork (pos 0))) [
      | inl child ↦
          subst (Yields (Balanced process)) (exec_script_child process script script_n piped child)
            (run_child-Balanced process piped child)
      | inr parent ↦
          subst (Yields (Balanced process))
            (exec_script_parent process script script_n piped running parent)
            (Yields-bind (Sent process.write script) (Balanced process)
              (pipe_loop (suc (length script)) process.write 0 0 script []) _
              (pipe_loop-Sent process.write writes script small (suc (length script)) 0 0 []
                (omega arith) (omega arith) refl)
              λ written _ _. record {
                read_ends = rw piped refl;
                write_ends = rw piped refl;
                child = λ _ forked. absurd (ground arith);
                server = λ _. (tt, (tt, (tt, (tt, (tt, tt)))));
              })
    ]
  ]
]

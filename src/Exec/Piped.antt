-- ===== src/Exec/Piped.antt =====
-- What arrives in bash.
use simple_x509_authenticate.Common.{
  ℕ, zero, suc, ◌+◌, ◌-◌, ◌%◌, ◌^◌, ◌≤◌, ◌<◌, ◌≡◌, refl, ap, subst, ◌∙◌, inl, inr, true, false,
  List, [], ◌∷◌, ◌++◌, append_assoc, Option-cases, some, Bytes, length, take, drop, take-drop_next,
  drop_all, add64, sub64, ltb, Bool-cases, arith,
}
use simple_x509_authenticate.Common.Int.{pos, ltb_ℤ, eq_ℤ}
use simple_x509_authenticate.Common.Result.{Yields, Yields-bind}
use simple_x509_authenticate.Output.{Write, Part, Writes, Succeeds}
use simple_x509_authenticate.Exec.{
  Effect, announce, pipe_bytes, close_read, close_write, wait_child, Process, to_int, pipe_loop,
  run_parent, exec_script,
}

to_int_small : (k : ℕ) → k < 2 ^ 31 → to_int k ≡ some k
unfolding to_int
to_int_small k small =
    let whole : k % 2 ^ 32 ≡ k = omega arith in
    let positive : ltb k (2 ^ 31) ≡ true = ground arith in rw (whole, positive) refl

-- The loop has written the script up to some point, which is the end if no write failed.
pub record Sent (write : Write) (script written : Bytes) : Type 0 where
  pub rest : Bytes
  pub front : written ++ rest ≡ script
  pub whole : Succeeds write → rest ≡ []

module _ (write : Write) (writes : Writes write) (script : Bytes)
    (small : length script < 2 ^ 31) where
  pub pipe_loop-Sent :
      (fuel n i : ℕ) (written : Bytes)
      → length script < fuel + i
      → i ≤ length script
      → written ++ drop i script ≡ script
      → Yields (Sent write script) (pipe_loop fuel write n i script written)
  unfolding pipe_loop
  pipe_loop-Sent zero n i written lt inside front = absurd (omega arith)
  pipe_loop-Sent (suc fuel) n i written lt inside front =
      elim (Bool-cases (ltb i (length script))) [
        | inr over ↦
            rw (over, pipe_loop)
              (record {
                rest = drop i script;
                front = front;
                whole = λ _. drop_all i script (ground arith);
              })
        | inl more ↦
            let left : sub64 (length script) i ≡ length script - i = ground arith in
            let part = writes.some_part n (sub64 (length script) i) (ground arith) in
            elim (Option-cases (write n (sub64 (length script) i))) [
              | inl broken ↦
                  rw (more, broken, pipe_loop)
                    (record {
                      rest = drop i script;
                      front = front;
                      whole = λ succeeds. absurd (succeeds.written n _ broken);
                    })
              | inr (k, e) ↦
                  let (some_bytes, fits) = subst (Part (sub64 (length script) i)) e part in
                  let next : add64 i k ≡ i + k = omega arith in
                  rw (more, e, pipe_loop, to_int_small k (omega arith), next)
                    (pipe_loop-Sent fuel (suc n) (i + k) (written ++ take k (drop i script))
                      (omega arith) (omega arith)
                      (append_assoc written (take k (drop i script)) (drop (i + k) script)
                        ∙ ap (λ xs. written ++ xs) (take-drop_next i k script)
                        ∙ front))
            ]
      ]

-- What the parent process does, in order.
pub record Ran (process : Process) (script : Bytes) (script_n : ℕ) (effects : List Effect)
    : Type 0 where
  pub written : Bytes
  pub sent : Sent process.write script written
  pub steps :
      effects
      ≡ announce script_n
        ∷ pipe_bytes written
        ∷ close_read
        ∷ close_write
        ∷ wait_child process.fork
        ∷ []

pub exec_script_parent :
    (process : Process) (script : Bytes) (script_n : ℕ)
    → process.piped ≡ true
    → ltb_ℤ process.fork (pos 0) ≡ false
    → eq_ℤ process.fork (pos 0) ≡ false
    → run_parent process script script_n ≡ exec_script process script script_n
unfolding exec_script run_parent
exec_script_parent process script script_n piped forked no_child =
    rw (piped, forked, no_child, exec_script) refl

-- Where pipe and fork succeed, and a script has fewer than 2 ^ 31 bytes, the loop of the parent
-- process ends, whatever sizes write answers: the process announces the script, writes a front part
-- of it to the pipe, which is all of it if no write fails, closes both ends of the pipe, and waits
-- for the child.
pub exec_script-Ran :
    (process : Process) (script : Bytes) (script_n : ℕ)
    → Writes process.write
    → length script < 2 ^ 31
    → process.piped ≡ true
    → ltb_ℤ (pos 0) process.fork ≡ true
    → Yields (Ran process script script_n) (exec_script process script script_n)
unfolding run_parent
exec_script-Ran process script script_n writes small piped parent =
    subst (Yields (Ran process script script_n))
      (exec_script_parent process script script_n piped (ground arith) (ground arith))
      (Yields-bind (Sent process.write script) (Ran process script script_n)
        (pipe_loop (suc (length script)) process.write 0 0 script []) _
        (pipe_loop-Sent process.write writes script small (suc (length script)) 0 0 [] (omega arith)
          (omega arith) refl)
        λ written _ sent. record { written = written; sent = sent; steps = refl })

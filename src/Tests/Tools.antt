-- ===== src/Tests/Tools.antt =====
-- exec_script and gen_sig at concrete inputs.
use simple_x509_authenticate.Common.{
  ◌≡◌, refl, min, true, false, [], ◌∷◌, some, none, Bytes, take, drop, arith,
}
use simple_x509_authenticate.Common.Int.{pos}
use simple_x509_authenticate.Common.Result.{Yields}
use simple_x509_authenticate.Output.{Write, Writes, Succeeds}
use simple_x509_authenticate.Exec.{Process, exec_script}
use simple_x509_authenticate.Exec.Balanced.{Balanced, exec_script-Balanced}
use simple_x509_authenticate.Exec.Piped.{Ran, exec_script-Ran}
use simple_x509_authenticate.Server.Scripts.{frame}
use simple_x509_authenticate.GenSig.{Signing, newline_failed, gen_sig}
use simple_x509_authenticate.GenSig.Loops.{Reads}
use simple_x509_authenticate.GenSig.Written.{Prepared, gen_sig-frame, gen_sig-unsigned}

-- At most two bytes are written at once.
abbrev pub by_two : Write
by_two = λ n size. some (min size 2)

pub by_two-Writes : Writes by_two
by_two-Writes = record { some_part = λ n size space. (omega arith, omega arith) }

pub by_two-Succeeds : Succeeds by_two
by_two-Succeeds = record { written = λ n size e. cc }

abbrev pub bash : Process
bash = record { piped = true; fork = pos 4711; redirected = true; replaced = true; write = by_two }

-- A child process in which bash could not be started.
abbrev lost_child : Process
lost_child = record bash { fork = pos 0; replaced = false }

exec_script-Balanced_example :
    Yields (Balanced lost_child) (exec_script lost_child (101 ∷ 99 ∷ 104 ∷ 111 ∷ 10 ∷ []) 1)
exec_script-Balanced_example =
    exec_script-Balanced lost_child (101 ∷ 99 ∷ 104 ∷ 111 ∷ 10 ∷ []) 1 by_two-Writes (omega arith)

exec_script-Ran_example :
    Yields
      (Ran bash (101 ∷ 99 ∷ 104 ∷ 111 ∷ 10 ∷ []) 1)
      (exec_script bash (101 ∷ 99 ∷ 104 ∷ 111 ∷ 10 ∷ []) 1)
exec_script-Ran_example =
    exec_script-Ran bash (101 ∷ 99 ∷ 104 ∷ 111 ∷ 10 ∷ []) 1 by_two-Writes (omega arith) refl refl

abbrev file : Bytes
file = 101 ∷ 99 ∷ 104 ∷ 111 ∷ 10 ∷ []

abbrev pub signing : Signing
signing = record {
  argc = 3;
  key_opened = true;
  key_read = true;
  context = true;
  prepared = true;
  opened = true;
  fread = λ n before room. take (min room 3) (drop before file);
  digest_sign = λ script. some (1 ∷ 2 ∷ 3 ∷ []);
  write_sig = by_two;
  write_newline = some 1;
  write_script = by_two;
}

signing-Reads : Reads signing.fread file
signing-Reads = record {
  size = λ n before room. min room 3;
  some_byte = λ n before room space. omega arith;
  within = λ n before room. omega arith;
  next = λ n before room. refl;
}

signing-Prepared : Prepared signing file (1 ∷ 2 ∷ 3 ∷ [])
unfolding newline_failed
signing-Prepared = record {
  enough = refl;
  key_opened = refl;
  key_read = refl;
  context = refl;
  prepared = refl;
  opened = refl;
  reads = signing-Reads;
  signed = refl;
  newline = refl;
}

gen_sig-frame_example : Yields (λ output. output ≡ frame (1 ∷ 2 ∷ 3 ∷ []) file) (gen_sig 10 signing)
gen_sig-frame_example =
    gen_sig-frame 10 signing file (1 ∷ 2 ∷ 3 ∷ []) signing-Prepared by_two-Writes by_two-Succeeds
      by_two-Writes by_two-Succeeds (omega arith) (omega arith) (omega arith) (omega arith)

-- The standard output cannot be written to at first.
abbrev interrupted : Signing
interrupted = record signing { write_sig = λ n size. none }

interrupted-Prepared : Prepared interrupted file (1 ∷ 2 ∷ 3 ∷ [])
unfolding newline_failed
interrupted-Prepared = record {
  enough = refl;
  key_opened = refl;
  key_read = refl;
  context = refl;
  prepared = refl;
  opened = refl;
  reads = signing-Reads;
  signed = refl;
  newline = refl;
}

gen_sig-unsigned_example : Yields (λ output. output ≡ b'\n' ∷ file) (gen_sig 10 interrupted)
gen_sig-unsigned_example =
    gen_sig-unsigned 10 interrupted file (1 ∷ 2 ∷ 3 ∷ []) interrupted-Prepared (omega arith) refl
      by_two-Writes by_two-Succeeds (omega arith) (omega arith) (omega arith) (omega arith)

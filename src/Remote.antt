-- ===== src/Remote.antt =====
-- The programs together: what src/gen_sig.c writes is sent to the server of src/main.c, which hands
-- the script to exec_script of src/exec.c.
use simple_x509_authenticate.Common.{ℕ, ◌^◌, ◌<◌, ◌≡◌, true, Bytes, length}
use simple_x509_authenticate.Common.Int.{pos, ltb_ℤ}
use simple_x509_authenticate.Common.Result.{ok}
use simple_x509_authenticate.Output.{Writes, Succeeds}
use simple_x509_authenticate.GenSig.{Signing, gen_sig}
use simple_x509_authenticate.GenSig.Written.{Prepared}
use simple_x509_authenticate.Exec.{Process}
use simple_x509_authenticate.Server.Kernel.{Kernel}

-- gen_sig succeeds with `output`, and no write of it fails.
pub record Signs (fuel : ℕ) (s : Signing) (file sig output : Bytes) : Type 0 where
  pub prepared : Prepared s file sig
  pub sig_parts : Writes s.write_sig
  pub sig_done : Succeeds s.write_sig
  pub script_parts : Writes s.write_script
  pub script_done : Succeeds s.write_script
  pub small : length file < 2 ^ 31
  pub small_sig : length sig < 2 ^ 62
  pub rounds : length file < fuel
  pub rounds_sig : length sig < fuel
  pub answered : gen_sig fuel s ≡ ok output

-- exec_script can make a child process, and no write to the pipe fails.
pub record Runs (process : Process) : Type 0 where
  pub parts : Writes process.write
  pub done : Succeeds process.write
  pub piped : process.piped ≡ true
  pub parent : ltb_ℤ (pos 0) process.fork ≡ true

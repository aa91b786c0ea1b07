-- ===== src/GenSig.antt =====
-- src/gen_sig.c: a program that writes a script to its standard output, behind a signature of it.
pub mod Loops
pub mod Written
use simple_x509_authenticate.Common.{
  ℕ, zero, suc, ◌+◌, ◌-◌, ◌*◌, ◌%◌, ◌^◌, Bool, true, false, not, List, [], ◌∷◌, ◌++◌, Option, none,
  some, Bytes, length, take, drop, add64, sub64, ltb, leb, ◌==◌, if◌then◌else◌,
}
use simple_x509_authenticate.Common.Result.{
  Result, ok, err, abort, Fault, ◌>>=◌, ◌>>◌, refuse, check,
}
use simple_x509_authenticate.Common.Buffer.{require}
use simple_x509_authenticate.Output.{Write}

-- main answers -1.
pub data Failure : Type 0 where
  failure : Failure

abbrev pub Sign {ℓ} : Type ℓ → Type ℓ
Sign A = Result Failure A

-- What is given: the number of arguments; whether the key file is opened and read, the context made
-- and set up, and the script opened; what fread answers, by the number of the call, how much was read
-- before it, and the room; the signature of EVP_DigestSign; and what the three parts of the output
-- are answered by write.
pub record Signing : Type 0 where
  pub argc : ℕ
  pub key_opened : Bool
  pub key_read : Bool
  pub context : Bool
  pub prepared : Bool
  pub opened : Bool
  pub fread : ℕ → ℕ → ℕ → Bytes
  pub digest_sign : Bytes → Option Bytes
  pub write_sig : Write
  pub write_newline : Option ℕ
  pub write_script : Write

-- data_cap, doubled where the buffer is full.
unfoldable pub next_cap : ℕ → ℕ → ℕ
next_cap data_size data_cap = if leb data_cap data_size then (data_cap * 2) % 2 ^ 64 else data_cap

-- The loop that reads the script to `read_before`; fread does not answer a negative number.
unfoldable pub read_loop : ℕ → (ℕ → ℕ → ℕ → Bytes) → ℕ → Bytes → ℕ → Sign Bytes
read_loop zero fread n read_before data_cap = abort Fault.out_of_fuel
read_loop (suc fuel) fread n read_before data_cap =
    let data_size = length read_before in
    let chunk = fread n data_size (sub64 data_cap data_size) in
    elim (ltb 0 (length chunk)) [
      | false ↦ ok read_before
      | true ↦
          check (leb (data_size + length chunk) data_cap)
          >> read_loop fuel fread (suc n) (read_before ++ chunk)
              (next_cap (data_size + length chunk) data_cap)
    ]

-- `size_t ret`: the answer -1 becomes the largest number, so `ret < 0` never holds.
unfoldable pub to_size : Option ℕ → ℕ
to_size none = 2 ^ 64 - 1
to_size (some k) = k

-- The bytes that a call of write appends to the output.
unfoldable pub appended : Option ℕ → Bytes → Bytes
appended none rest = []
appended (some k) rest = take k rest

unfoldable pub write_loop : ℕ → Write → ℕ → ℕ → Bytes → Bytes → Sign Bytes
write_loop zero write n write_start bytes output = abort Fault.out_of_fuel
write_loop (suc fuel) write n write_start bytes output = elim (ltb write_start (length bytes)) [
  | false ↦ ok output
  | true ↦
      let answer = write n (sub64 (length bytes) write_start) in
      let more = output ++ appended answer (drop write_start bytes) in
      elim (ltb 0 (to_size answer)) [
        | true ↦ write_loop fuel write (suc n) (add64 write_start (to_size answer)) bytes more
        | false ↦ ok more
      ]
]

-- `if (write(STDOUT_FILENO, "\n", 1) < 1)`
unfoldable pub newline_failed : Option ℕ → Bool
newline_failed none = true
newline_failed (some k) = ltb k 1

-- main: the output, where it answers EXIT_SUCCESS. `fuel` bounds the rounds of every loop.
unfoldable pub gen_sig : ℕ → Signing → Sign Bytes
gen_sig fuel s = do
  refuse (ltb s.argc 3) failure
  refuse (not s.key_opened) failure
  refuse (not s.key_read) failure
  refuse (not s.context) failure
  refuse (not s.prepared) failure
  refuse (not s.opened) failure
  script ← read_loop fuel s.fread 0 [] (2 ^ 18)
  sig ← require (s.digest_sign script) failure
  signed ← write_loop fuel s.write_sig 0 0 sig []
  refuse (newline_failed s.write_newline) failure
  write_loop fuel s.write_script 0 0 script (signed ++ b'\n' ∷ [])

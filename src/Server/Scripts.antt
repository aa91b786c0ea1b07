-- ===== src/Server/Scripts.antt =====
-- The loop of src/main.c that tries the trusted keys on what a connection sent.
pub mod Authentic
pub mod Delivery
pub mod Codeless
pub mod Number
use simple_x509_authenticate.Common.{
  ℕ, zero, suc, ◌+◌, ◌-◌, ◌%◌, ◌^◌, Bool, true, false, List, [], ◌∷◌, ◌++◌, Option, none, some,
  Bytes, length, get_elem?, set, take, drop, add64, ltb, leb, ◌==◌, if◌then◌else◌,
}
use simple_x509_authenticate.Common.Int.{ℤ, ltb_ℤ}
use simple_x509_authenticate.Common.Result.{Result, ok, err, abort, Fault, ◌>>=◌}
use simple_x509_authenticate.Common.Buffer.{read, or_out_of_bounds}
use simple_x509_authenticate.Crypto.Ssl.{OpenSsl}
use simple_x509_authenticate.Crypto.{Extract, PubKey, pub_key_verify}

-- What src/gen_sig.c writes: the signature, a newline, and the script.
unfoldable pub frame : Bytes → Bytes → Bytes
frame sig script = sig ++ b'\n' ∷ script

-- `script_n += 1`, for the 32 bits of script_n, as exec_script is given them: the number after the
-- largest int is taken to wrap around.
abbrev pub next_number : ℕ → ℕ
next_number n = (n + 1) % 2 ^ 32

module _ (ssl : OpenSsl) where
  -- The keys of `Resources` that were read, the removed ones last, and how many are in use.
  pub record Keys : Type 0 where
    pub keys : List (PubKey ssl)
    pub keys_size : ℕ
    pub script_n : ℕ

  -- `all_expired` ends the server. A script is executed by the key that it was signed with.
  pub data Outcome : Type 0 where
    executed : PubKey ssl → Bytes → Outcome
    unauthentic all_expired : Outcome

  -- The script, if the key verifies the bytes in front of the newline as its signature. `buf` is
  -- the part of the buffer that was received.
  unfoldable pub try_key : PubKey ssl → Bytes → Extract (Option Bytes)
  try_key key buf =
      let script_start = add64 key.exp_sig_size 1 in
      if leb script_start (length buf)
      then (read buf key.exp_sig_size >>= λ c.
          if c == b'\n'
          then (pub_key_verify ssl key (drop script_start buf) (take key.exp_sig_size buf)
              >>= λ good. ok (if good then some (drop script_start buf) else none))
          else ok none)
      else ok none

  -- The last key in use and the one at `i` change places, and one key less is in use.
  unfoldable pub swap_remove : ℕ → PubKey ssl → Keys → Extract Keys
  swap_remove i key ks = or_out_of_bounds (get_elem? ks.keys (ks.keys_size - 1)) >>= λ last.
      ok (record ks {
        keys = set (set ks.keys i last) (ks.keys_size - 1) key;
        keys_size = ks.keys_size - 1;
      })

  -- `for_each_lt(i, resources->keys_size)`: `bound` is what keys_size was in front of the loop.
  unfoldable pub auth_loop : ℕ → ℤ → Bytes → ℕ → ℕ → Keys → Extract (Outcome × Keys)
  auth_loop zero now buf bound i ks = abort Fault.out_of_fuel
  auth_loop (suc fuel) now buf bound i ks = elim (ltb i bound) [
    | false ↦ ok (unauthentic, ks)
    | true ↦ or_out_of_bounds (get_elem? ks.keys i) >>= λ key. elim (ltb_ℤ key.expiry now) [
      | true ↦ elim (ltb 1 ks.keys_size) [
        | true ↦ swap_remove i key ks >>= λ fewer. auth_loop fuel now buf bound i fewer
        | false ↦ ok (all_expired, ks)
      ]
      | false ↦ try_key key buf >>= λ found. elim found [
        | some script ↦ ok (executed key script, record ks { script_n = next_number ks.script_n })
        | none ↦ auth_loop fuel now buf bound (suc i) ks
      ]
    ]
  ]

  -- Every round moves `i` forward or takes a key out of use.
  unfoldable pub authenticate : ℤ → Bytes → Keys → Extract (Outcome × Keys)
  authenticate now buf ks = auth_loop (suc (ks.keys_size + ks.keys_size)) now buf ks.keys_size 0 ks

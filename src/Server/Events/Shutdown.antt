-- ===== src/Server/Events/Shutdown.antt =====
-- The loop over the keys in src/main.c behind a key that has expired.
use simple_x509_authenticate.Common.{
  ℕ, ◌+◌, ◌^◌, ◌≤◌, suc, ◌<◌, ◌≡◌, refl, ◌∙◌, true, false, [], ◌∷◌, none, some, Bytes, length,
  get_elem?, add64, ltb, leb, arith,
}
use simple_x509_authenticate.Common.Int.{ℤ, ltb_ℤ}
use simple_x509_authenticate.Common.Result.{ok, err, ◌>>=◌}
use simple_x509_authenticate.Crypto.Ssl.{OpenSsl}
use simple_x509_authenticate.Crypto.{PubKey}
use simple_x509_authenticate.Server.Scripts.{
  Keys, all_expired, try_key, swap_remove, auth_loop, authenticate,
}
use simple_x509_authenticate.Server.Connections.{Connection, Resources, contents}
use simple_x509_authenticate.Server.Events.{settled, finish_conn, run_script}

module _ (ssl : OpenSsl) where
  try_key-short :
      (key : PubKey ssl) (buf : Bytes)
      → key.exp_sig_size < 2 ^ 63
      → length buf ≤ key.exp_sig_size
      → try_key ssl key buf ≡ ok none
  unfolding try_key
  try_key-short key buf small short =
      let start : add64 key.exp_sig_size 1 ≡ key.exp_sig_size + 1 = omega arith in
      let over : leb (key.exp_sig_size + 1) (length buf) ≡ false = ground arith in
      rw (start, over) refl

  -- One round with a key that has not expired and verifies nothing.
  auth_loop-skip :
      (fuel : ℕ) (now : ℤ) (buf : Bytes) (bound i : ℕ) (ks : Keys ssl) (key : PubKey ssl)
      → ltb i bound ≡ true
      → get_elem? ks.keys i ≡ some key
      → ltb_ℤ key.expiry now ≡ false
      → try_key ssl key buf ≡ ok none
      → auth_loop ssl (suc fuel) now buf bound i ks ≡ auth_loop ssl fuel now buf bound (suc i) ks
  unfolding auth_loop
  auth_loop-skip fuel now buf bound i ks key more at fresh nothing = ground arith

  -- One round with a key that has expired.
  auth_loop-expired :
      (fuel : ℕ) (now : ℤ) (buf : Bytes) (bound i : ℕ) (ks : Keys ssl) (key : PubKey ssl)
      → ltb i bound ≡ true
      → get_elem? ks.keys i ≡ some key
      → ltb_ℤ key.expiry now ≡ true
      → auth_loop ssl (suc fuel) now buf bound i ks ≡ elim (ltb 1 ks.keys_size) [
        | true ↦ swap_remove ssl i key ks >>= λ fewer. auth_loop ssl fuel now buf bound i fewer
        | false ↦ ok (all_expired, ks)
      ]
  unfolding auth_loop
  auth_loop-expired fuel now buf bound i ks key more at old = ground arith

  authenticate-shutdown :
      (now : ℤ) (buf : Bytes) (valid expired : PubKey ssl) (n : ℕ)
      → ltb_ℤ valid.expiry now ≡ false
      → ltb_ℤ expired.expiry now ≡ true
      → try_key ssl valid buf ≡ ok none
      → authenticate ssl now buf
          (record { keys = valid ∷ expired ∷ []; keys_size = 2; script_n = n })
        ≡ ok (all_expired, record { keys = valid ∷ expired ∷ []; keys_size = 1; script_n = n })
  unfolding authenticate swap_remove
  authenticate-shutdown now buf valid expired n fresh old nothing =
      let both : Keys ssl = record { keys = valid ∷ expired ∷ []; keys_size = 2; script_n = n } in
      let fewer : Keys ssl = record { keys = valid ∷ expired ∷ []; keys_size = 1; script_n = n } in
      auth_loop-skip 4 now buf 2 0 both valid refl refl fresh nothing
      ∙ auth_loop-expired 3 now buf 2 1 both expired refl refl old
      ∙ auth_loop-expired 2 now buf 2 1 fewer expired refl refl old

-- Where the server has two keys of which only the second one has expired, a client that ends its
-- connection when it has sent no more bytes than a signature of the first key has, as one that has
-- sent nothing, ends the server: the loop over the keys meets the key that it removed again, takes
-- it for the last one, and the event loop answers -1, with the valid key still in use.
pub run_script-shutdown :
    (ssl : OpenSsl) (now : ℤ) (i : ℕ) (conn : Connection) (resources : Resources ssl)
    (valid expired : PubKey ssl) (n : ℕ)
    → resources.keys ≡ record { keys = valid ∷ expired ∷ []; keys_size = 2; script_n = n }
    → ltb_ℤ valid.expiry now ≡ false
    → ltb_ℤ expired.expiry now ≡ true
    → valid.exp_sig_size < 2 ^ 63
    → length (contents conn) ≤ valid.exp_sig_size
    → run_script ssl now i conn resources
      ≡ err (record resources {
        keys = record { keys = valid ∷ expired ∷ []; keys_size = 1; script_n = n };
      })
unfolding run_script settled finish_conn
run_script-shutdown ssl now i conn resources valid expired n held fresh old small short =
    rw
      (
        held,
        authenticate-shutdown ssl now (contents conn) valid expired n fresh old
            (try_key-short ssl valid (contents conn) small short),
      )
      refl

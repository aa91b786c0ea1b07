-- ===== src/Tests/Server.antt =====
-- The loop over the trusted keys at concrete keys and buffers.
use simple_x509_authenticate.Common.{
  ◌≡◌, refl, get_elem?, All-get_elem?, [], ◌∷◌, some, true, arith, All,
}
use simple_x509_authenticate.Common.Int.{pos}
use simple_x509_authenticate.Common.Result.{ok, Returns}
use simple_x509_authenticate.Common.Buffer.{read}
use simple_x509_authenticate.Crypto.{PubKey, pub_key_verify, assert_some, openssl_verify}
use simple_x509_authenticate.Crypto.Keys.{Chosen}
use simple_x509_authenticate.Server.Scripts.{
  frame, Keys, executed, all_expired, authenticate, auth_loop, try_key, swap_remove,
}
use simple_x509_authenticate.Server.Scripts.Authentic.{Usable, Accepted, authenticate-Returns}
use simple_x509_authenticate.Server.Scripts.Delivery.{Skips, Signatory, authenticate-frame}
use simple_x509_authenticate.Tests.Inputs.{agreeable, blank}

abbrev pub small_key : PubKey agreeable
small_key = record blank { expiry = pos 100; exp_sig_size = 2; md_ctx = some 1 }

abbrev pub old_key : PubKey agreeable
old_key = record small_key { expiry = pos 10 }

pub small_key-Usable : Usable agreeable small_key
unfolding Chosen
small_key-Usable = record {
  small = omega arith;
  oid = 0x2b ∷ 0x65 ∷ 0x70 ∷ [];
  chosen = (_, refl, refl, (1, refl));
}

abbrev pub one_key : Keys agreeable
one_key = record { keys = small_key ∷ []; keys_size = 1; script_n = 0 }

authenticate-Returns_example :
    Returns
      (λ r.
        Accepted agreeable (Usable agreeable) (pos 50) (frame (1 ∷ 2 ∷ []) (104 ∷ [])) r.0
        × All (Usable agreeable) r.1.keys)
      (authenticate agreeable (pos 50) (frame (1 ∷ 2 ∷ []) (104 ∷ [])) one_key)
authenticate-Returns_example =
    authenticate-Returns agreeable (Usable agreeable) (λ key h. h) (pos 50)
      (frame (1 ∷ 2 ∷ []) (104 ∷ [])) one_key (omega arith) (small_key-Usable, tt)

small_key-verify : pub_key_verify agreeable small_key (104 ∷ []) (1 ∷ 2 ∷ []) ≡ ok true
unfolding pub_key_verify assert_some openssl_verify
small_key-verify = refl

-- A key with shorter signatures in front of the one that verifies the signature.
abbrev short_key : PubKey agreeable
short_key = record small_key { exp_sig_size = 1 }

abbrev two_keys : Keys agreeable
two_keys = record { keys = short_key ∷ small_key ∷ old_key ∷ []; keys_size = 2; script_n = 4 }

short_key-Skips : Skips agreeable (pos 50) (frame (1 ∷ 2 ∷ []) (104 ∷ [])) short_key
unfolding try_key frame read
short_key-Skips = (refl, refl)

two_keys-Signatory : Signatory agreeable (pos 50) small_key (1 ∷ 2 ∷ []) (104 ∷ []) two_keys
two_keys-Signatory = record {
  k = 1;
  inside = omega arith;
  at = refl;
  size = refl;
  small = omega arith;
  good = small_key-verify;
  valid = refl;
  earlier = λ j other h at.
      let first : j ≡ 0 = omega arith in
      let there : get_elem? two_keys.keys 0 ≡ some other = rw first at at in
      All-get_elem? (Skips agreeable (pos 50) (frame (1 ∷ 2 ∷ []) (104 ∷ []))) (short_key ∷ []) 0
        (short_key-Skips, tt) there;
}

authenticate-frame_example :
    authenticate agreeable (pos 50) (frame (1 ∷ 2 ∷ []) (104 ∷ [])) two_keys
    ≡ ok (executed small_key (104 ∷ []), record two_keys { script_n = 5 })
authenticate-frame_example =
    authenticate-frame agreeable (pos 50) small_key (1 ∷ 2 ∷ []) (104 ∷ []) two_keys
      two_keys-Signatory

-- With a valid key in front of one that has expired, and nothing received, the loop meets the
-- removed key again behind the keys in use, and takes the valid one for it.
authenticate_stale :
    authenticate agreeable
      (pos 50)
      []
      (record { keys = small_key ∷ old_key ∷ []; keys_size = 2; script_n = 0 })
    ≡ ok (all_expired, record { keys = small_key ∷ old_key ∷ []; keys_size = 1; script_n = 0 })
unfolding authenticate auth_loop try_key swap_remove
authenticate_stale = refl

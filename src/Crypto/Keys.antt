-- ===== src/Crypto/Keys.antt =====
-- The extraction of a public key: no abort, and a key that can verify, of the algorithm that its
-- oid names.
use simple_x509_authenticate.Common.{
  ℕ, ◌≡◌, refl, ap, some, [], ◌∷◌, Bytes, get_elem?, sub64, arith,
}
use simple_x509_authenticate.Common.Result.{Returns, Returns-bind, Returns-mono}
use simple_x509_authenticate.Common.Buffer.{
  read_bytes, memeq, memeq_iff, Returns-refuse, Returns-if, Returns-require,
}
use simple_x509_authenticate.X509.Der.Bounds.{Fits}
use simple_x509_authenticate.X509.Fields.{X509Fields}
use simple_x509_authenticate.X509.Fields.Bounds.{CertBounds}
use simple_x509_authenticate.Crypto.Ssl.{OpenSsl, Documented, KeyType}
use simple_x509_authenticate.Crypto.{
  ExtractCode, certeq, PubKey, ed_extract, ed25519_extract, ed448_extract, SupportedAlg,
  supported_algs, extract_from, pub_key_extract,
}
use simple_x509_authenticate.Crypto.Ranges.{slice, slice-Returns, certeq-Returns}
use simple_x509_authenticate.Crypto.Rsa.{Ready, rsa_extract-Returns}

module _ (ssl : OpenSsl) where
  -- Which entry of the table the key names, from the entry `idx` on.
  unfoldable pub Chosen : Bytes → PubKey ssl → Type 0
  Chosen oid key =
      (alg : SupportedAlg ssl) × (get_elem? (supported_algs ssl) key.alg_idx ≡ some alg)
      × (alg.oid ≡ oid)
      × ((ctx : ssl.MdCtx) × (key.md_ctx ≡ some ctx))

module _ (ssl : OpenSsl) (doc : Documented ssl) (raw : Bytes) (size : ℕ) (fits : Fits raw size)
    (fields : X509Fields) (bounds : CertBounds size fields) where
  ed_extract-Returns :
      (t : KeyType) (ret : PubKey ssl) → Returns (Ready ssl ret) (ed_extract ssl raw fields t ret)
  unfolding ed_extract
  ed_extract-Returns t ret =
      let small = fits.small in
      let inside = fits.inside in
      let b = bounds in
      Returns-refuse _ _ _ _ λ _.
        Returns-bind _ _
          (certeq raw fields.sig_id_start fields.sig_id_end fields.pub_key_id_start
            fields.pub_key_id_end)
          _
          (certeq-Returns raw small fields.sig_id_start fields.sig_id_end fields.pub_key_id_start
            fields.pub_key_id_end (ground arith) (ground arith) (ground arith) (ground arith))
          λ same _ _. Returns-refuse _ _ _ _ λ _.
            Returns-bind _ (Ready ssl ret)
              (read_bytes (sub64 fields.pub_key_end fields.pub_key_start) raw fields.pub_key_start)
              _
              (slice-Returns raw small ExtractCode fields.pub_key_start fields.pub_key_end
                (ground arith) (ground arith))
              λ bytes _ _.
                Returns-require (Ready ssl ret) _ _ _
                  λ pkey _. Returns-require (Ready ssl ret) _ _ _ λ ctx _. (refl, (ctx, refl))

  extract_from-Returns :
      (oid : Bytes) (ret : PubKey ssl)
      → Returns (Chosen ssl oid) (extract_from ssl (supported_algs ssl) 0 oid raw fields ret)
  unfolding extract_from ed25519_extract ed448_extract Chosen
  extract_from-Returns oid ret =
      Returns-if (Chosen ssl oid) (memeq (0x2b ∷ 0x65 ∷ 0x70 ∷ []) oid) _ _
        (λ h.
          Returns-mono _ (Chosen ssl oid) _
            (λ key (e, ctx). (_, ap (get_elem? (supported_algs ssl)) e, (memeq_iff _ oid).0 h, ctx))
            (ed_extract-Returns KeyType.ed25519_key
              (record ret { alg_idx = 0; exp_sig_size = 64 })))
        λ _.
          Returns-if (Chosen ssl oid) (memeq (0x2b ∷ 0x65 ∷ 0x71 ∷ []) oid) _ _
            (λ h.
              Returns-mono _ (Chosen ssl oid) _
                (λ key (e, ctx).
                  (_, ap (get_elem? (supported_algs ssl)) e, (memeq_iff _ oid).0 h, ctx))
                (ed_extract-Returns KeyType.ed448_key
                  (record ret { alg_idx = 1; exp_sig_size = 114 })))
            λ _.
              Returns-if (Chosen ssl oid)
                (memeq (0x2a ∷ 0x86 ∷ 0x48 ∷ 0x86 ∷ 0xf7 ∷ 0x0d ∷ 0x01 ∷ 0x01 ∷ 0x01 ∷ []) oid) _ _
                (λ h.
                  Returns-mono _ (Chosen ssl oid) _
                    (λ key (e, ctx).
                      (_, ap (get_elem? (supported_algs ssl)) e, (memeq_iff _ oid).0 h, ctx))
                    (rsa_extract-Returns ssl doc raw size fits fields bounds
                      (record ret { alg_idx = 2 })))
                λ _. tt

  pub pub_key_extract-Returns :
      (ret : PubKey ssl)
      → Returns
          (Chosen ssl (slice raw fields.pub_key_oid_start fields.pub_key_oid_end))
          (pub_key_extract ssl raw fields ret)
  unfolding pub_key_extract
  pub_key_extract-Returns ret =
      let small = fits.small in
      let inside = fits.inside in
      let b = bounds in
      let oid = slice raw fields.pub_key_oid_start fields.pub_key_oid_end in
      Returns-bind _ (Chosen ssl oid)
        (read_bytes (sub64 fields.pub_key_oid_end fields.pub_key_oid_start) raw
          fields.pub_key_oid_start)
        _
        (slice-Returns raw small ExtractCode fields.pub_key_oid_start fields.pub_key_oid_end
          (ground arith) (ground arith))
        λ bs _ e. rw e (extract_from-Returns oid ret)

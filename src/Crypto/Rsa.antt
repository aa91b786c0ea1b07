-- ===== src/Crypto/Rsa.antt =====
-- The extraction of an RSA key: no abort, and a key with a context.
use simple_x509_authenticate.Common.{ℕ, ◌≤◌, ◌≡◌, refl, some, Bytes, sub64, arith}
use simple_x509_authenticate.Common.Result.{Returns, Returns-bind}
use simple_x509_authenticate.Common.Buffer.{read_bytes, Returns-refuse, Returns-require}
use simple_x509_authenticate.X509.Tag
use simple_x509_authenticate.X509.Der.{parse_data_element, parse_null}
use simple_x509_authenticate.X509.Der.Bounds.{
  Fits, Fits-le, parse_data_element-Returns, parse_null-Returns,
}
use simple_x509_authenticate.X509.Fields.{X509Fields}
use simple_x509_authenticate.X509.Fields.Bounds.{CertBounds}
use simple_x509_authenticate.Crypto.Ssl.{OpenSsl, Documented}
use simple_x509_authenticate.Crypto.{
  ExtractCode, or_code, or_stay, RsaSpans, rsa_spans, rsa_sig_size, PubKey, rsa_digest,
  rsa_build_key, rsa_extract,
}
use simple_x509_authenticate.Crypto.Ranges.{
  slice-Returns, or_code-Returns, or_stay-Returns, Returns-assert,
}

module _ (ssl : OpenSsl) where
  -- A key with a context, of the algorithm that `ret` names.
  abbrev pub Ready : PubKey ssl → PubKey ssl → Type 0
  Ready ret key = (key.alg_idx ≡ ret.alg_idx) × ((ctx : ssl.MdCtx) × (key.md_ctx ≡ some ctx))

module _ (ssl : OpenSsl) (doc : Documented ssl) (raw : Bytes) (size : ℕ) (fits : Fits raw size)
    (fields : X509Fields) (bounds : CertBounds size fields) where
  -- The integers lie in the key.
  RsaBounds : RsaSpans → Type 0
  RsaBounds s =
      (s.modulus_start ≤ s.modulus_end)
      × (s.modulus_end ≤ size)
      × (s.exp_start ≤ s.exp_end)
      × (s.exp_end ≤ size)

  rsa_spans-Returns : Returns RsaBounds (rsa_spans raw fields)
  unfolding rsa_spans RsaBounds
  rsa_spans-Returns =
      let b = bounds in
      let key : Fits raw fields.pub_key_end = Fits-le fits (ground arith) in
      Returns-bind _ _
        (or_code ExtractCode.invalid_pub_key
          (parse_data_element raw Tag.sequence fields.pub_key_start fields.pub_key_end))
        _
        (or_code-Returns _ _ _
          (parse_data_element-Returns raw fields.pub_key_start fields.pub_key_end key Tag.sequence))
        λ seq _ h.
          let inner : Fits raw seq.content_end = Fits-le key (ground arith) in
          Returns-bind _ _
            (or_code ExtractCode.invalid_pub_key
              (parse_data_element raw Tag.integer seq.idx seq.content_end))
            _
            (or_code-Returns _ _ _
              (parse_data_element-Returns raw seq.idx seq.content_end inner Tag.integer))
            λ modulus _ k.
              Returns-bind _ _
                (or_code ExtractCode.invalid_pub_key
                  (parse_data_element raw Tag.integer modulus.content_end seq.content_end))
                _
                (or_code-Returns _ _ _ (
                  parse_data_element-Returns raw modulus.content_end seq.content_end inner
                    Tag.integer))
                λ exp _ l. Returns-refuse _ _ _ _ λ _. ground arith

  rsa_build_key-Returns :
      (s : RsaSpans) (ret : PubKey ssl)
      → RsaBounds s
      → Returns (Ready ssl ret) (rsa_build_key ssl raw s ret)
  unfolding rsa_build_key RsaBounds
  rsa_build_key-Returns s ret h =
      let small = fits.small in
      let inside = fits.inside in
      let R = Ready ssl ret in
      Returns-bind _ R (read_bytes (sub64 s.modulus_end s.modulus_start) raw s.modulus_start) _
        (slice-Returns raw small ExtractCode s.modulus_start s.modulus_end (ground arith)
          (ground arith))
        λ mb _ _. Returns-require R _ _ _ λ modulus _.
          Returns-bind _ R (read_bytes (sub64 s.exp_end s.exp_start) raw s.exp_start) _
            (slice-Returns raw small ExtractCode s.exp_start s.exp_end (ground arith)
              (ground arith))
            λ eb _ _. Returns-require R _ _ _ λ exp _. Returns-require R _ _ _ λ build _.
              Returns-refuse R _ _ _ λ _. Returns-refuse R _ _ _ λ _. Returns-refuse R _ _ _ λ _.
                Returns-require R _ _ _ λ params _. Returns-require R _ _ _ λ ctx _.
                  Returns-refuse R _ _ _ λ _. Returns-refuse R _ _ _ λ made.
                    Returns-assert R _ _ (doc.fromdata_success _ _ _ (ground arith))
                      λ pkey _. Returns-require R _ _ _ λ md_ctx _. (refl, (md_ctx, refl))

  rsa_digest-Returns : (oid : Bytes) → Returns (λ md. Unit {0}) (rsa_digest ssl oid)
  unfolding rsa_digest
  rsa_digest-Returns oid = ground arith

  pub rsa_extract-Returns :
      (ret : PubKey ssl) → Returns (Ready ssl ret) (rsa_extract ssl raw fields ret)
  unfolding rsa_extract rsa_sig_size
  rsa_extract-Returns ret =
      let small = fits.small in
      let inside = fits.inside in
      let b = bounds in
      let R = Ready ssl ret in
      let id : Fits raw fields.pub_key_id_end = Fits-le fits (ground arith) in
      Returns-bind _ R
        (or_stay fields.pub_key_oid_end
          (parse_null raw fields.pub_key_oid_end fields.pub_key_id_end))
        _
        (or_stay-Returns _ _ _
          (parse_null-Returns raw fields.pub_key_oid_end fields.pub_key_id_end id (ground arith)))
        λ idx _ _. Returns-refuse R _ _ _ λ _.
          Returns-bind _ R
            (read_bytes (sub64 fields.sig_oid_end fields.sig_oid_start) raw fields.sig_oid_start) _
            (slice-Returns raw small ExtractCode fields.sig_oid_start fields.sig_oid_end
              (ground arith) (ground arith))
            λ oid _ _. Returns-bind _ R (rsa_digest ssl oid) _ (rsa_digest-Returns oid) λ md _ _.
              Returns-bind _ R (rsa_spans raw fields) _ rsa_spans-Returns λ s _ h.
                Returns-bind (λ n. Unit {0}) R (rsa_sig_size (sub64 s.modulus_end s.modulus_start))
                  _ (ground arith)
                  λ n _ _. rsa_build_key-Returns s (record ret { md = some md; exp_sig_size = n }) h

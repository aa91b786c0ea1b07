-- ===== src/X509/Certificate/Framed.antt =====
-- The bytes of a certificate that parse_x509 accepts, put together again from the fields.
use simple_x509_authenticate.Common.{
  ℕ, suc, ◌+◌, ◌-◌, ◌≤◌, ◌≡◌, refl, sym, ap, ap₂, subst, ◌∙◌, Bytes, ◌∷◌, ◌++◌, take, drop,
  take-drop, drop-drop, add64, sub64, arith, true,
}
use simple_x509_authenticate.Common.Result.{Returns, Returns-bind, Returns-mono, Returns_ok}
use simple_x509_authenticate.Common.Buffer.{
  Returns-refuse, read_bytes, read_bytes-take, memeq, memeq_iff,
}
use simple_x509_authenticate.X509.Code.{ParseCode}
use simple_x509_authenticate.X509.Tag
use simple_x509_authenticate.X509.Der.{Content, parse_bitstring_no_unused}
use simple_x509_authenticate.X509.Der.Bounds.{Fits}
use simple_x509_authenticate.X509.Der.Encoding.{encode_header}
use simple_x509_authenticate.X509.Der.Canonical.{
  parse_data_element-canonical, parse_bitstring_no_unused-canonical,
}
use simple_x509_authenticate.X509.Fields.{X509Fields}
use simple_x509_authenticate.X509.Fields.Bounds.{TbsBounds}
use simple_x509_authenticate.X509.Time.{Timegm}
use simple_x509_authenticate.X509.Certificate.{parse_signature, parse_x509}
use simple_x509_authenticate.X509.Certificate.Safety.{parse_x509-up_to, own_bounds}

-- The bytes from `start` to `end`.
abbrev pub span : ℕ → ℕ → Bytes → Bytes
span start end raw = take (end - start) (drop start raw)

span-drop :
    (start end : ℕ) (raw : Bytes)
    → start ≤ end
    → span start end raw ++ drop end raw ≡ drop start raw
span-drop start end raw h =
    let e : end ≡ start + (end - start) = omega arith in
    ap (λ k. span start end raw ++ drop k raw) e
    ∙ ap (λ xs. span start end raw ++ xs) (sym (drop-drop start (end - start) raw))
    ∙ take-drop (end - start) (drop start raw)

-- The signature algorithm, as the signed bytes state it, and the signature, behind the signed bytes.
abbrev Signed : Bytes → ℕ → ℕ → X509Fields → Type 0
Signed raw idx cert_end f =
    (drop idx raw
      ≡ span f.sig_id_start f.sig_id_end raw
        ++ (encode_header Tag.bitstring (suc (f.sig_end - f.sig_start))
            ++ 0 ∷ drop f.sig_start raw))
    × (f.sig_end ≡ cert_end)

parse_signature-Signed :
    (raw : Bytes) (cert_end : ℕ) (fields : X509Fields)
    → Fits raw cert_end
    → TbsBounds fields.signed_data_start fields.signed_data_end fields
    → fields.signed_data_end ≤ cert_end
    → Returns
        (λ f.
          Signed raw fields.signed_data_end cert_end f
          × (f.signed_data_start ≡ fields.signed_data_start)
          × (f.signed_data_end ≡ fields.signed_data_end))
        (parse_signature raw fields.signed_data_end cert_end fields)
unfolding parse_signature
parse_signature-Signed raw cert_end fields fits tbs to =
    let idx = fields.signed_data_end in
    let n = sub64 fields.sig_id_end fields.sig_id_start in
    let (a, b, c) = tbs.key_bounds.sig_id in
    let inside = fits.inside in
    let small = fits.small in
    let size : n ≡ fields.sig_id_end - fields.sig_id_start = ground arith in
    Returns-refuse _ _ _ _ λ room.
      let next : add64 idx n ≡ idx + n = ground arith in
      Returns-bind _ _ (read_bytes n raw fields.sig_id_start) _
        (read_bytes-take ParseCode n raw fields.sig_id_start (omega arith))
        λ inner _ in_front.
          Returns-bind _ _ (read_bytes n raw idx) _
            (read_bytes-take ParseCode n raw idx (ground arith))
            λ outer _ behind. Returns-refuse _ _ _ _ λ differ.
              let equal : memeq inner outer ≡ true = ground arith in
              let same : inner ≡ outer = (memeq_iff inner outer).0 equal in
              Returns-bind _ _ (parse_bitstring_no_unused raw (add64 idx n) cert_end) _
                (parse_bitstring_no_unused-canonical raw (add64 idx n) cert_end fits)
                λ sig _ form. Returns-refuse _ _ _ _ λ trailing.
                  let at_end : sig.content_end ≡ cert_end = ground arith in
                  (
                    (
                      sym (take-drop n (drop idx raw))
                          ∙ ap₂ ◌++◌
                              (sym behind
                                ∙ sym same
                                ∙ in_front
                                ∙ ap (λ k. take k (drop fields.sig_id_start raw)) size)
                              (drop-drop idx n raw ∙ ap (λ k. drop k raw) (sym next) ∙ form),
                      at_end,
                    ),
                    refl,
                    refl,
                  )

-- The bytes of a certificate of `size` bytes, by its fields.
pub record Framed (raw : Bytes) (size : ℕ) (f : X509Fields) : Type 0 where
  -- All of them, up to the end of the certificate.
  pub outer :
      raw
      ≡ encode_header Tag.sequence (size - f.signed_data_start)
        ++ (span f.signed_data_start f.signed_data_end raw
            ++ (span f.sig_id_start f.sig_id_end raw
                ++ (encode_header Tag.bitstring (suc (f.sig_end - f.sig_start))
                    ++ 0 ∷ drop f.sig_start raw)))
  pub sig_end : f.sig_end ≡ size
  -- The signed bytes.
  pub start : ℕ
  pub signed :
      drop f.signed_data_start raw
      ≡ encode_header Tag.sequence (f.signed_data_end - start) ++ drop start raw

Signed-Framed :
    (raw : Bytes) (size : ℕ) (tbs : Content) (start : ℕ) (f : X509Fields)
    → f.signed_data_start ≡ start
    → f.signed_data_end ≡ tbs.content_end
    → start ≤ tbs.content_end
    → raw ≡ encode_header Tag.sequence (size - start) ++ drop start raw
    → drop start raw ≡ encode_header Tag.sequence (tbs.content_end - tbs.idx) ++ drop tbs.idx raw
    → Signed raw tbs.content_end size f
    → Framed raw size f
Signed-Framed raw size tbs start f at_start at_end le whole signed (frame, end) = record {
  outer =
      rw (at_start, at_end)
        (whole
          ∙ ap (λ xs. encode_header Tag.sequence (size - start) ++ xs)
              (sym (span-drop start tbs.content_end raw le)
                ∙ ap (λ xs. span start tbs.content_end raw ++ xs) frame));
  sig_end = end;
  start = tbs.idx;
  signed = rw (at_start, at_end) signed;
}

-- Where parse_x509 accepts a certificate of `raw_cert_size` bytes, these bytes are made of the
-- fields that it answers: a header of a sequence that reaches to the end of the certificate; the
-- signed bytes, which begin with a header of a sequence that reaches to their end; the bytes of the
-- algorithm identifier that the signed bytes state, once more; and a bit string without unused bits,
-- which is the signature, and which ends where the certificate ends, with what the buffer holds
-- behind it. The headers are in the shortest form, and nothing stands between these parts.
pub parse_x509-Framed :
    (timegm : Timegm) (raw : Bytes) (raw_cert_size : ℕ) (fields : X509Fields)
    → Fits raw raw_cert_size
    → Returns (Framed raw raw_cert_size) (parse_x509 timegm raw raw_cert_size fields)
parse_x509-Framed timegm raw raw_cert_size fields fits =
    let Q = Framed raw raw_cert_size in
    parse_x509-up_to Q timegm raw raw_cert_size fields fits
      λ start tbs f outer inner from to bounds.
        let at_end = bounds.key_bounds.data_end in
        let at_start = bounds.key_bounds.data_start in
        Returns-mono _ Q (parse_signature raw tbs.content_end raw_cert_size f)
          (λ g (frame, start_same, end_same).
            Signed-Framed raw raw_cert_size tbs start g (start_same ∙ at_start) end_same from
              (Returns_ok _ _ (parse_data_element-canonical raw Tag.sequence 0 raw_cert_size fits)
                outer)
              (Returns_ok _ _
                (parse_data_element-canonical raw Tag.sequence start raw_cert_size fits) inner)
              frame)
          (subst
            (λ idx.
              Returns
                (λ g.
                  Signed raw idx raw_cert_size g
                  × (g.signed_data_start ≡ f.signed_data_start)
                  × (g.signed_data_end ≡ idx))
                (parse_signature raw idx raw_cert_size f))
            at_end
            (parse_signature-Signed raw raw_cert_size f fits
              (own_bounds start tbs.content_end f bounds) (omega arith)))

-- ===== src/X509/Certificate/Safety.antt =====
-- parse_x509 as a whole: no abort, and the bounds of every index that it fills in.
use simple_x509_authenticate.Common.{ℕ, ◌≤◌, ◌≡◌, refl, ap, ◌∙◌, Bytes, sub64, ◌!=◌, arith}
use simple_x509_authenticate.Common.Result.{ok, Returns, Returns-bind, Returns-mono}
use simple_x509_authenticate.Common.Buffer.{
  Returns-refuse, Returns-if, read_bytes, read_bytes-length,
}
use simple_x509_authenticate.X509.Code.{ParseCode}
use simple_x509_authenticate.X509.Tag
use simple_x509_authenticate.X509.Der.{
  Content, idx_none, parse_data_element, parse_optional_data, parse_bitstring_no_unused,
}
use simple_x509_authenticate.X509.Der.Bounds.{
  Fits, Fits-le, parse_data_element-Returns, parse_optional_data-Returns,
  parse_bitstring_no_unused-Returns,
}
use simple_x509_authenticate.X509.Fields.{X509Fields}
use simple_x509_authenticate.X509.Fields.Bounds.{
  KeyBounds, TbsBounds, CertBounds, assign_default_extensions-TbsBounds,
  assign_default_extensions-akid_start,
}
use simple_x509_authenticate.X509.Extension.{after_optional}
use simple_x509_authenticate.X509.Extension.Bounds.{after_optional_bounds}
use simple_x509_authenticate.X509.Time.{Timegm}
use simple_x509_authenticate.X509.Certificate.{
  parse_tbs_fields, parse_tbs_rest, parse_extensions, parse_signature, parse_x509,
}
use simple_x509_authenticate.X509.Certificate.Bounds.{parse_tbs_fields-Returns}
use simple_x509_authenticate.X509.Certificate.Extensions.{parse_extensions-Returns}

parse_tbs_rest-Returns :
    (lo hi : ℕ) (raw : Bytes) (idx : ℕ) (fields : X509Fields)
    → Fits raw hi
    → lo ≤ idx
    → idx ≤ hi
    → KeyBounds lo hi fields
    → Returns
        (λ r. (idx ≤ r.0) × (r.0 ≤ hi) × TbsBounds lo hi r.1)
        (parse_tbs_rest raw idx hi fields)
unfolding parse_tbs_rest
parse_tbs_rest-Returns lo hi raw idx fields fits from to known =
    Returns-bind _ _ (parse_optional_data raw _ idx hi idx_none) _
      (parse_optional_data-Returns raw idx hi fits Tag.implicit_1 idx_none)
      λ issuer _ h.
        let i = after_optional_bounds idx hi issuer to h in
        Returns-bind _ _ (parse_optional_data raw _ (after_optional issuer) hi idx_none) _
          (parse_optional_data-Returns raw (after_optional issuer) hi fits Tag.implicit_2 idx_none)
          λ subject _ k.
            let b = assign_default_extensions-TbsBounds lo hi fields known in
            let s = after_optional_bounds (after_optional issuer) hi subject i.1 k in
            Returns-bind _ _ (parse_optional_data raw _ (after_optional subject) hi idx_none) _
              (parse_optional_data-Returns raw (after_optional subject) hi fits Tag.explicit_3
                idx_none)
              λ e _ m.
                Returns-if _ (e.content_end != idx_none) _ _
                  (λ found.
                    Returns-mono _ _ (parse_extensions raw e _)
                      (λ r n. (ground arith, ground arith, n.2))
                      (parse_extensions-Returns lo hi raw e _ (Fits-le fits (ground arith))
                        (ground arith) (ground arith) b
                        (assign_default_extensions-akid_start fields)))
                  (λ missing. (ground arith, ground arith, b))

pub own_bounds :
    (lo hi : ℕ) (f : X509Fields)
    → TbsBounds lo hi f
    → TbsBounds f.signed_data_start f.signed_data_end f
own_bounds lo hi f b = ground arith

parse_signature-Returns :
    (raw : Bytes) (idx cert_end : ℕ) (fields : X509Fields)
    → Fits raw cert_end
    → TbsBounds fields.signed_data_start fields.signed_data_end fields
    → fields.signed_data_start ≤ idx
    → idx ≡ fields.signed_data_end
    → idx ≤ cert_end
    → Returns (CertBounds cert_end) (parse_signature raw idx cert_end fields)
unfolding parse_signature
parse_signature-Returns raw idx cert_end fields fits tbs from at_end to =
    Returns-refuse _ _ _ _ λ room.
      Returns-bind _ _ (read_bytes (sub64 fields.sig_id_end fields.sig_id_start) raw _) _
        (read_bytes-length ParseCode _ raw fields.sig_id_start (ground arith))
        λ inner _ _.
          Returns-bind _ _ (read_bytes (sub64 fields.sig_id_end fields.sig_id_start) raw idx) _
            (read_bytes-length ParseCode _ raw idx (ground arith))
            λ outer _ _. Returns-refuse _ _ _ _ λ _.
              Returns-bind _ _ (parse_bitstring_no_unused raw _ cert_end) _
                (parse_bitstring_no_unused-Returns raw _ cert_end fits)
                λ sig _ k. Returns-refuse _ _ _ _ λ same. ground arith

-- What stands in front of parse_signature in parse_x509, for a property `Q` of its result.
pub parse_x509-up_to :
    (Q : X509Fields → Type 0) (timegm : Timegm) (raw : Bytes) (size : ℕ) (fields : X509Fields)
    → Fits raw size
    → ((start : ℕ) (tbs : Content) (f : X509Fields)
        → parse_data_element raw Tag.sequence 0 size
          ≡ ok (record { idx = start; content_end = size })
        → parse_data_element raw Tag.sequence start size ≡ ok tbs
        → start ≤ tbs.content_end
        → tbs.content_end ≤ size
        → TbsBounds start tbs.content_end f
        → Returns Q (parse_signature raw tbs.content_end size f))
    → Returns Q (parse_x509 timegm raw size fields)
unfolding parse_x509
parse_x509-up_to Q timegm raw size fields fits h =
    Returns-bind _ Q (parse_data_element raw Tag.sequence 0 size) _
      (parse_data_element-Returns raw 0 size fits Tag.sequence)
      λ cert outer i. Returns-refuse _ _ _ _ λ whole.
        let e : cert.content_end ≡ size = ground arith in
        let inner : Fits raw cert.content_end = Fits-le fits (ground arith) in
        Returns-bind _ Q (parse_data_element raw Tag.sequence cert.idx cert.content_end) _
          (parse_data_element-Returns raw cert.idx cert.content_end inner Tag.sequence)
          λ tbs signed k.
            let deep : Fits raw tbs.content_end = Fits-le inner (ground arith) in
            Returns-bind _ Q (parse_tbs_fields timegm raw tbs.idx tbs.content_end _) _
              (parse_tbs_fields-Returns raw tbs.idx tbs.content_end deep timegm cert.idx _
                (ground arith) (ground arith) refl refl)
              λ r _ m.
                Returns-bind _ Q (parse_tbs_rest raw r.0 tbs.content_end r.1) _
                  (parse_tbs_rest-Returns cert.idx tbs.content_end raw r.0 r.1 deep (omega arith)
                    (omega arith) m.2)
                  λ t _ n. Returns-refuse _ _ _ _ λ same.
                    let at_end : t.0 ≡ tbs.content_end = ground arith in
                    rw (e, at_end)
                      (h cert.idx tbs t.1
                        (outer ∙ ap (λ c. ok (record { idx = cert.idx; content_end = c })) e)
                        (rw e at signed) (omega arith) (omega arith) n.2)

-- On a certificate of `raw_cert_size` bytes parse_x509 reads no byte outside of it, no assert
-- fails and every loop ends, whatever the bytes, the old fields and timegm are. If it answers
-- PARSE_OK, the signed bytes lie in the certificate; the serial number, the algorithm
-- identifiers, the public key and the key identifiers lie in the signed bytes (a key identifier
-- may be missing, and is 0 then); the signature lies behind the signed bytes, in the certificate.
pub parse_x509-Returns :
    (timegm : Timegm) (raw : Bytes) (raw_cert_size : ℕ) (fields : X509Fields)
    → Fits raw raw_cert_size
    → Returns (CertBounds raw_cert_size) (parse_x509 timegm raw raw_cert_size fields)
parse_x509-Returns timegm raw raw_cert_size fields fits =
    parse_x509-up_to (CertBounds raw_cert_size) timegm raw raw_cert_size fields fits
      λ start tbs f _ _ from to bounds.
        let at_end = bounds.key_bounds.data_end in
        let at_start = bounds.key_bounds.data_start in
        parse_signature-Returns raw tbs.content_end raw_cert_size f fits
          (own_bounds start tbs.content_end f bounds) (omega arith) (omega arith) to

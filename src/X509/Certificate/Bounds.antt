-- ===== src/X509/Certificate/Bounds.antt =====
-- parse_x509 never aborts, and fills in indices that lie where the comments say.
use simple_x509_authenticate.Common.{ℕ, ◌+◌, ◌≤◌, ◌<◌, ◌≡◌, Bytes, arith}
use simple_x509_authenticate.Common.Result.{Returns, Returns-bind}
use simple_x509_authenticate.Common.Buffer.{Returns-refuse, Returns-read}
use simple_x509_authenticate.X509.Tag
use simple_x509_authenticate.X509.Der.{parse_data_element, parse_bitstring_no_unused}
use simple_x509_authenticate.X509.Der.Bounds.{
  Fits, Fits-le, parse_data_element-Returns, parse_bitstring_no_unused-Returns,
}
use simple_x509_authenticate.X509.Fields.{X509Fields}
use simple_x509_authenticate.X509.Fields.Bounds.{KeyBounds}
use simple_x509_authenticate.X509.Name.{parse_name, parse_alg_id}
use simple_x509_authenticate.X509.Name.Bounds.{parse_name-Returns, parse_alg_id-Returns}
use simple_x509_authenticate.X509.Time.{Timegm, parse_time}
use simple_x509_authenticate.X509.Time.Bounds.{parse_time-Returns}
use simple_x509_authenticate.X509.Certificate.{
  parse_version, parse_validity, parse_public_key_info, parse_tbs_fields,
}

module _ (raw : Bytes) (idx parent_end : ℕ) (fits : Fits raw parent_end) where
  parse_version-Returns :
      Returns (λ end. (idx + 2 ≤ end) × (end ≤ parent_end)) (parse_version raw idx parent_end)
  unfolding parse_version
  parse_version-Returns =
      Returns-bind _ _ (parse_data_element raw Tag.explicit_0 idx parent_end) _
        (parse_data_element-Returns raw idx parent_end fits Tag.explicit_0)
        λ outer _ h.
          Returns-bind _ _ (parse_data_element raw Tag.integer outer.idx outer.content_end) _
            (parse_data_element-Returns raw outer.idx outer.content_end
              (Fits-le fits (ground arith)) Tag.integer)
            λ version _ k. Returns-refuse _ _ _ _ λ one.
              Returns-read _ raw version.idx _ (ground arith)
                λ number _. Returns-refuse _ _ _ _ λ _. Returns-refuse _ _ _ _ λ _. ground arith

  parse_validity-Returns :
      (timegm : Timegm)
      → Returns
          (λ r. (idx + 2 ≤ r.0) × (r.0 ≤ parent_end))
          (parse_validity timegm raw idx parent_end)
  unfolding parse_validity
  parse_validity-Returns timegm =
      Returns-bind _ _ (parse_data_element raw Tag.sequence idx parent_end) _
        (parse_data_element-Returns raw idx parent_end fits Tag.sequence)
        λ e _ h.
          let inner : Fits raw e.content_end = Fits-le fits (ground arith) in
          Returns-bind _ _ (parse_time timegm raw e.idx e.content_end) _
            (parse_time-Returns raw e.content_end inner timegm e.idx)
            λ before _ k.
              Returns-bind _ _ (parse_time timegm raw before.0 e.content_end) _
                (parse_time-Returns raw e.content_end inner timegm before.0)
                λ after _ m. Returns-refuse _ _ _ _ λ _. ground arith

  parse_public_key_info-Returns :
      Returns
        (λ r.
          (idx ≤ r.0.id_start)
          × (r.0.id_start ≤ r.0.oid_start)
          × (r.0.oid_start ≤ r.0.oid_end)
          × (r.0.oid_end ≤ r.0.id_end)
          × (r.0.id_end ≤ r.1.idx)
          × (r.1.idx ≤ r.1.content_end)
          × (r.1.content_end ≤ parent_end))
        (parse_public_key_info raw idx parent_end)
  unfolding parse_public_key_info
  parse_public_key_info-Returns =
      Returns-bind _ _ (parse_data_element raw Tag.sequence idx parent_end) _
        (parse_data_element-Returns raw idx parent_end fits Tag.sequence)
        λ e _ h.
          let inner : Fits raw e.content_end = Fits-le fits (ground arith) in
          Returns-bind _ _ (parse_alg_id raw e.idx e.content_end) _
            (parse_alg_id-Returns raw e.idx e.content_end inner)
            λ alg _ a.
              Returns-bind _ _ (parse_bitstring_no_unused raw alg.id_end e.content_end) _
                (parse_bitstring_no_unused-Returns raw alg.id_end e.content_end inner)
                λ key _ k. Returns-refuse _ _ _ _ λ _. ground arith

module _ (raw : Bytes) (idx parent_end : ℕ) (fits : Fits raw parent_end) where
  pub parse_tbs_fields-Returns :
      (timegm : Timegm) (lo : ℕ) (fields : X509Fields)
      → 0 < lo
      → lo ≤ idx
      → fields.signed_data_start ≡ lo
      → fields.signed_data_end ≡ parent_end
      → Returns
          (λ r. (idx ≤ r.0) × (r.0 ≤ parent_end) × KeyBounds lo parent_end r.1)
          (parse_tbs_fields timegm raw idx parent_end fields)
  unfolding parse_tbs_fields
  parse_tbs_fields-Returns timegm lo fields present from at_start at_end =
      Returns-bind _ _ (parse_version raw idx parent_end) _
        (parse_version-Returns raw idx parent_end fits)
        λ v _ hv.
          Returns-bind _ _ (parse_data_element raw Tag.integer v parent_end) _
            (parse_data_element-Returns raw v parent_end fits Tag.integer)
            λ serial _ hs.
              Returns-bind _ _ (parse_alg_id raw serial.content_end parent_end) _
                (parse_alg_id-Returns raw serial.content_end parent_end fits)
                λ sig _ ha.
                  Returns-bind _ _ (parse_name raw sig.id_end parent_end) _
                    (parse_name-Returns raw sig.id_end parent_end fits)
                    λ issuer _ hi.
                      Returns-bind _ _ (parse_validity timegm raw issuer parent_end) _
                        (parse_validity-Returns raw issuer parent_end fits timegm)
                        λ validity _ ht.
                          Returns-bind _ _ (parse_name raw validity.0 parent_end) _
                            (parse_name-Returns raw validity.0 parent_end fits)
                            λ subject _ hn.
                              Returns-bind _ _ (parse_public_key_info raw subject parent_end) _
                                (parse_public_key_info-Returns raw subject parent_end fits)
                                λ key _ hk. ground arith

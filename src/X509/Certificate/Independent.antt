-- ===== src/X509/Certificate/Independent.antt =====
-- parse_x509 fills in every field: what the fields held before does not matter.
use simple_x509_authenticate.Common.{ℕ, ◌≡◌, refl, inl, inr, Bytes, Bool-cases, ◌!=◌}
use simple_x509_authenticate.Common.Result.{refuse}
use simple_x509_authenticate.X509.Code.{trailing_data}
use simple_x509_authenticate.X509.Tag
use simple_x509_authenticate.X509.Name.{parse_name}
use simple_x509_authenticate.X509.Der.{idx_none, parse_data_element, parse_optional_data}
use simple_x509_authenticate.X509.Fields.{X509Fields, assign_default_extensions}
use simple_x509_authenticate.X509.Time.{Timegm}
use simple_x509_authenticate.X509.Extension.{after_optional}
use simple_x509_authenticate.X509.Certificate.{
  parse_version, parse_alg_id, parse_validity, parse_public_key_info, parse_tbs_fields,
  parse_tbs_rest, parse_signature, parse_x509,
}
use simple_x509_authenticate.X509.Certificate.Resigned.{
  touch, bind_touch, chain_same, bind_same, resign, behind, parse_extensions-resign,
}

-- The fields that stand in front of the extensions, and the others of `old`.
abbrev with_rest : X509Fields → X509Fields → X509Fields
with_rest old fields = record fields {
  sig_start = old.sig_start;
  sig_end = old.sig_end;
  skid_start = old.skid_start;
  skid_end = old.skid_end;
  akid_start = old.akid_start;
  akid_end = old.akid_end;
  key_cert_sign = old.key_cert_sign;
  path_len_constraint = old.path_len_constraint;
  has_key_usage = old.has_key_usage;
  has_ext_key_usage = old.has_ext_key_usage;
  key_usage_flags = old.key_usage_flags;
}

abbrev known : X509Fields → ℕ × X509Fields → ℕ × X509Fields
known old r = (r.0, with_rest old r.1)

module _ (old fields : X509Fields) where
  parse_tbs_fields-with_rest :
      (timegm : Timegm) (raw : Bytes) (idx tbs_cert_end start end : ℕ)
      → parse_tbs_fields timegm raw idx tbs_cert_end
          (record old { signed_data_start = start; signed_data_end = end })
        ≡ touch (known old) (
            parse_tbs_fields timegm raw idx tbs_cert_end
              (record fields { signed_data_start = start; signed_data_end = end }))
  unfolding parse_tbs_fields
  parse_tbs_fields-with_rest timegm raw idx end_of_tbs start end =
      let t = known old in
      bind_touch t (parse_version raw idx end_of_tbs) _ _ λ after_version.
        bind_touch t (parse_data_element raw Tag.integer after_version end_of_tbs) _ _ λ serial.
          bind_touch t (parse_alg_id raw serial.content_end end_of_tbs) _ _ λ sig.
            bind_touch t (parse_name raw sig.id_end end_of_tbs) _ _ λ after_issuer.
              bind_touch t (parse_validity timegm raw after_issuer end_of_tbs) _ _ λ validity.
                bind_touch t (parse_name raw validity.0 end_of_tbs) _ _ λ after_subject.
                  bind_touch t (parse_public_key_info raw after_subject end_of_tbs) _ _ λ _. refl

  parse_tbs_rest-with_rest :
      (raw : Bytes) (idx tbs_cert_end : ℕ)
      → parse_tbs_rest raw idx tbs_cert_end (with_rest old fields)
        ≡ touch (behind old.sig_start old.sig_end) (parse_tbs_rest raw idx tbs_cert_end fields)
  unfolding parse_tbs_rest assign_default_extensions
  parse_tbs_rest-with_rest raw idx tbs_cert_end =
      let t = behind old.sig_start old.sig_end in
      bind_touch t (parse_optional_data raw Tag.implicit_1 idx tbs_cert_end idx_none) _ _ λ i.
        bind_touch t
          (parse_optional_data raw Tag.implicit_2 (after_optional i) tbs_cert_end idx_none) _ _
          λ j.
            bind_touch t
              (parse_optional_data raw Tag.explicit_3 (after_optional j) tbs_cert_end idx_none) _ _
              λ e. elim (Bool-cases (e.content_end != idx_none)) [
                | inl present ↦ rw present (
                    parse_extensions-resign old.sig_start old.sig_end raw e
                      (assign_default_extensions fields))
                | inr missing ↦ rw missing refl
              ]

parse_signature-resign :
    (a b : ℕ) (raw : Bytes) (idx cert_end : ℕ) (fields : X509Fields)
    → parse_signature raw idx cert_end (resign a b fields) ≡ parse_signature raw idx cert_end fields
unfolding parse_signature
parse_signature-resign a b raw idx cert_end fields = refl

-- What parse_x509 answers, its code or all fields, does not depend on what the fields held before:
-- it fills in every one of them, those that a certificate may leave out included.
pub parse_x509-fields :
    (timegm : Timegm) (raw : Bytes) (raw_cert_size : ℕ) (old fields : X509Fields)
    → parse_x509 timegm raw raw_cert_size old ≡ parse_x509 timegm raw raw_cert_size fields
unfolding parse_x509
parse_x509-fields timegm raw raw_cert_size old fields =
    bind_same (parse_data_element raw Tag.sequence 0 raw_cert_size) _ _ λ cert.
      bind_same (refuse (raw_cert_size != cert.content_end) trailing_data) _ _ λ _.
        bind_same (parse_data_element raw Tag.sequence cert.idx cert.content_end) _ _ λ tbs.
          chain_same (known old)
            (parse_tbs_fields timegm raw tbs.idx tbs.content_end
              (record fields { signed_data_start = cert.idx; signed_data_end = tbs.content_end }))
            _ _ _
            (parse_tbs_fields-with_rest old fields timegm raw tbs.idx tbs.content_end cert.idx
              tbs.content_end)
            λ r.
              chain_same (behind old.sig_start old.sig_end)
                (parse_tbs_rest raw r.0 tbs.content_end r.1) _ _ _
                (parse_tbs_rest-with_rest old r.1 raw r.0 tbs.content_end)
                λ t.
                  bind_same (refuse (t.0 != tbs.content_end) trailing_data) _ _ λ _.
                    parse_signature-resign old.sig_start old.sig_end raw t.0 cert.content_end t.1

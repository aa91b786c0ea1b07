-- ===== src/Tests/X509.antt =====
-- The parser on the certificate of a test case, and its theorems at concrete inputs.
use simple_x509_authenticate.Common.{◌≡◌, refl, true, drop, ◌++◌, ◌-◌, arith}
use simple_x509_authenticate.Common.Int.{pos}
use simple_x509_authenticate.Common.Result.{ok, Returns, refuse, check}
use simple_x509_authenticate.Common.Buffer.{read, memeq, read_bytes}
use simple_x509_authenticate.X509.Der.{
  Content, parse_data_element, parse_length, long_form, read_octets, bool_value,
  parse_bitstring_no_unused, parse_default_bool, parse_optional_data, rollback, parse_any,
}
use simple_x509_authenticate.X509.Der.Encoding.{
  encode_header, encode_length, octet_count, be_octets,
}
use simple_x509_authenticate.X509.Der.Accepts.{parse_any-encode_header}
use simple_x509_authenticate.X509.Der.Canonical.{parse_any-canonical}
use simple_x509_authenticate.X509.Fields.{assign_default_extensions, X509Fields}
use simple_x509_authenticate.X509.Fields.Bounds.{
  CertBounds, TbsBounds, assign_default_extensions-TbsBounds, assign_default_extensions-akid_start,
}
use simple_x509_authenticate.X509.Der.Bounds.{Fits-le}
use simple_x509_authenticate.X509.Certificate.{
  parse_tbs_fields, parse_version, parse_validity, apply_supported, extension_loop, extension_round,
  parse_extension, parse_extensions, parse_public_key_info, parse_signature, parse_tbs_rest,
  seen_oid, wrong_criticality, parse_x509,
}
use simple_x509_authenticate.X509.Certificate.Listed.{Listed, parse_extensions-Listed}
use simple_x509_authenticate.X509.Certificate.Independent.{parse_x509-fields}
use simple_x509_authenticate.X509.Certificate.Safety.{parse_x509-Returns}
use simple_x509_authenticate.X509.Certificate.Framed.{Framed, parse_x509-Framed}
use simple_x509_authenticate.X509.Name.{
  parse_alg_id, parse_name, name_loop, parse_relative_name, attribute_loop, parse_attribute,
}
use simple_x509_authenticate.X509.Extension.{
  add_purpose, official_purpose, parse_akid, parse_basic_constraint, parse_ext_key_usage,
  parse_key_usage, parse_path_len, parse_purpose, parse_skid, path_len_loop, path_len_value,
  purpose_loop, second_usage,
}
use simple_x509_authenticate.X509.Time.{
  convert_2digit, convert_num, generalized_year, month_to_second, parse_time, to_unix, utc_year,
}
use simple_x509_authenticate.ReadCert.{zero_fields}
use simple_x509_authenticate.Samples.{certificate, calendar}
use simple_x509_authenticate.Tests.Inputs.{certificate-Fits}

parse_x509-Returns_example :
    Returns (CertBounds 468) (parse_x509 calendar certificate 468 zero_fields)
parse_x509-Returns_example =
    parse_x509-Returns calendar certificate 468 zero_fields certificate-Fits

parse_x509-Framed_example :
    Returns (Framed certificate 468) (parse_x509 calendar certificate 468 zero_fields)
parse_x509-Framed_example = parse_x509-Framed calendar certificate 468 zero_fields certificate-Fits

parse_any-encode_header_example :
    parse_any certificate 0 468 ≡ ok (record { idx = 4; content_end = 468; identifier = 0x30 })
unfolding encode_header encode_length octet_count be_octets
parse_any-encode_header_example =
    parse_any-encode_header 0x30 464 certificate 0 468 (drop 4 certificate) (omega arith)
      (omega arith) refl (omega arith)

parse_any-canonical_example :
    Returns
      (λ e.
        drop 4 certificate
        ≡ encode_header e.identifier (e.content_end - e.idx) ++ drop e.idx certificate)
      (parse_any certificate 4 468)
parse_any-canonical_example = parse_any-canonical certificate 4 468 certificate-Fits

-- What parse_x509 answers for the certificate.
abbrev pub certificate_fields : X509Fields
certificate_fields = record {
  sig_id_start = 35;
  sig_id_end = 42;
  sig_oid_start = 39;
  sig_oid_end = 42;
  sig_start = 404;
  sig_end = 468;
  pub_key_id_start = 230;
  pub_key_id_end = 237;
  pub_key_oid_start = 234;
  pub_key_oid_end = 237;
  pub_key_start = 240;
  pub_key_end = 272;
  signed_data_start = 4;
  signed_data_end = 394;
  cert_serial_start = 15;
  cert_serial_end = 35;
  skid_start = 287;
  skid_end = 307;
  akid_start = 320;
  akid_end = 340;
  not_before = pos 1762711280;
  not_after = pos 1794247280;
  key_cert_sign = true;
  path_len_constraint = 0;
  has_key_usage = true;
  has_ext_key_usage = true;
  key_usage_flags = 524420;
}

pub parse_x509-certificate : parse_x509 calendar certificate 468 zero_fields ≡ ok certificate_fields
unfolding parse_x509 parse_any refuse check read memeq read_bytes parse_data_element parse_length
    long_form read_octets bool_value parse_bitstring_no_unused parse_default_bool
    parse_optional_data rollback parse_tbs_fields parse_version parse_validity apply_supported
    extension_loop extension_round parse_extension parse_extensions parse_public_key_info
    parse_signature parse_tbs_rest seen_oid wrong_criticality parse_alg_id parse_name name_loop
    parse_relative_name attribute_loop parse_attribute add_purpose official_purpose parse_akid
    parse_basic_constraint parse_ext_key_usage parse_key_usage parse_path_len parse_purpose
    parse_skid path_len_loop path_len_value purpose_loop second_usage assign_default_extensions
    convert_2digit convert_num generalized_year month_to_second parse_time to_unix utc_year
parse_x509-certificate = refl

-- The element that holds the extensions of the certificate.
abbrev extensions : Content
extensions = record { idx = 274; content_end = 394 }

no_extensions-TbsBounds : TbsBounds 4 394 (assign_default_extensions certificate_fields)
no_extensions-TbsBounds = assign_default_extensions-TbsBounds 4 394 certificate_fields (record {
  present = omega arith;
  data_start = refl;
  data_end = refl;
  cert_serial = omega arith;
  sig_id = omega arith;
  sig_oid = omega arith;
  pub_key_id = omega arith;
  pub_key_oid = omega arith;
  pub_key = omega arith;
})

parse_extensions-Listed_example :
    Returns
      (Listed certificate extensions (assign_default_extensions certificate_fields))
      (parse_extensions certificate extensions (assign_default_extensions certificate_fields))
parse_extensions-Listed_example =
    parse_extensions-Listed 4 394 certificate extensions
      (assign_default_extensions certificate_fields) (Fits-le certificate-Fits (omega arith))
      (omega arith) (omega arith) no_extensions-TbsBounds
      (assign_default_extensions-akid_start certificate_fields)

parse_x509-fields_example :
    parse_x509 calendar certificate 468 certificate_fields
    ≡ parse_x509 calendar certificate 468 zero_fields
parse_x509-fields_example =
    parse_x509-fields calendar certificate 468 certificate_fields zero_fields

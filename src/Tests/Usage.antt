-- ===== src/Tests/Usage.antt =====
-- The bits of a KeyUsage at a concrete one.
use simple_x509_authenticate.Common.{◌≡◌, refl, true, [], ◌∷◌, Bytes, arith}
use simple_x509_authenticate.Common.Result.{ok}
use simple_x509_authenticate.X509.Der.Encoding.{encode_header, encode_length}
use simple_x509_authenticate.X509.Extension.{parse_key_usage}
use simple_x509_authenticate.X509.Extension.Usage.{parse_key_usage-two_octets}
use simple_x509_authenticate.ReadCert.{zero_fields}

-- digitalSignature and decipherOnly.
abbrev usage : Bytes
usage = 0x03 ∷ 3 ∷ 7 ∷ 0x80 ∷ 0x80 ∷ []

parse_key_usage-two_octets_example :
    parse_key_usage usage 0 5 zero_fields
    ≡ ok (record zero_fields { has_key_usage = true; key_usage_flags = 0x180 })
unfolding encode_header encode_length
parse_key_usage-two_octets_example =
    parse_key_usage-two_octets usage 0 5 7 0x80 0x80 [] zero_fields (omega arith) (omega arith) refl
      refl (omega arith) (omega arith) refl

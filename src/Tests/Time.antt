-- ===== src/Tests/Time.antt =====
-- The decoding of times at concrete ones.
use simple_x509_authenticate.Common.{◌≡◌, refl, [], ◌∷◌, Bytes, drop, arith}
use simple_x509_authenticate.Common.Result.{ok, ◌>>=◌}
use simple_x509_authenticate.X509.Der.Encoding.{encode_header, encode_length}
use simple_x509_authenticate.X509.Time.{parse_time, to_unix}
use simple_x509_authenticate.X509.Time.Decode.{broken_down, parse_time-utctime, month_on}
use simple_x509_authenticate.X509.Time.Generalized.{parse_time-generalizedtime, four_digits}
use simple_x509_authenticate.Samples.{certificate, calendar}

-- notBefore of the certificate: 251109180120Z.
parse_time-utctime_example :
    parse_time calendar certificate 121 468
    ≡ (to_unix calendar (broken_down 125 11 9 18 1 20) >>= λ ret. ok (136, ret))
unfolding encode_header encode_length
parse_time-utctime_example =
    parse_time-utctime calendar certificate 121 468 25 11 9 18 1 20 (drop 136 certificate)
      (omega arith) (omega arith) (omega arith) refl (omega arith) (omega arith) (omega arith)
      (omega arith) (omega arith) (omega arith)

-- 20500101000000Z.
abbrev new_year : Bytes
new_year = 0x18 ∷ 15 ∷ four_digits 2050 (month_on 1 1 0 0 0 [])

parse_time-generalizedtime_example :
    parse_time calendar new_year 0 17
    ≡ (to_unix calendar (broken_down 2050 1 1 0 0 0) >>= λ ret. ok (17, ret))
unfolding encode_header encode_length
parse_time-generalizedtime_example =
    parse_time-generalizedtime calendar new_year 0 17 2050 1 1 0 0 0 [] (omega arith) (omega arith)
      (omega arith) refl (omega arith) (omega arith) (omega arith) (omega arith) (omega arith)
      (omega arith)

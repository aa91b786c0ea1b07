-- ===== src/X509/Time/Generalized.antt =====
-- How parse_time reads a GeneralizedTime.
use simple_x509_authenticate.Common.{
  ℕ, suc, ◌+◌, ◌*◌, ◌/◌, ◌%◌, ◌^◌, ◌≤◌, ◌<◌, ◌≡◌, refl, false, ◌∷◌, ◌++◌, Bytes, length, drop,
  drop-suc, get_elem?-drop, get_elem?-some_lt, add64, ◌!=◌, arith,
}
use simple_x509_authenticate.Common.Result.{ok, ◌>>=◌, refuse}
use simple_x509_authenticate.X509.Tag
use simple_x509_authenticate.X509.Der.{parse_any, parse_data_element, parse_optional_data, rollback}
use simple_x509_authenticate.X509.Der.Encoding.{encode_header, encode_length}
use simple_x509_authenticate.X509.Der.Accepts.{parse_any-encode_header}
use simple_x509_authenticate.X509.Time.{Timegm, generalized_year, to_unix, parse_time}
use simple_x509_authenticate.X509.Time.Decode.{
  month_on, broken_down, convert_num-eq, month_to_second-eq,
}

-- The four decimal digits of a year.
abbrev pub four_digits : ℕ → Bytes → Bytes
four_digits n rest =
    (b'0' + n / 1000) ∷ (b'0' + n / 100 % 10) ∷ (b'0' + n / 10 % 10) ∷ (b'0' + n % 10) ∷ rest

generalized_year-eq :
    (raw : Bytes) (idx parent_end start year : ℕ) {rest : Bytes}
    → length raw < 2 ^ 63
    → parse_data_element raw Tag.generalizedtime idx parent_end
      ≡ ok (record { idx = start; content_end = start + 15 })
    → drop start raw ≡ four_digits year rest
    → year < 10000
    → generalized_year raw idx parent_end ≡ ok (suc (suc (suc (suc start))), year, start + 15)
unfolding generalized_year refuse
generalized_year-eq raw idx parent_end start year small header at h =
    let inside = get_elem?-some_lt raw start (get_elem?-drop raw start at) in
    let whole : add64 start 15 != start + 15 ≡ false = ground arith in
    let at1 = drop-suc raw start at in
    let at2 = drop-suc raw (suc start) at1 in
    let at3 = drop-suc raw (suc (suc start)) at2 in
    let n1 = 0 + year / 1000 * 1000 in
    let n2 = n1 + year / 100 % 10 * 100 in
    let n3 = n2 + year / 10 % 10 * 10 in
    let value : n3 + year % 10 * 1 ≡ year = omega arith in
    rw
      (
        header,
        whole,
        convert_num-eq raw 1000 start 0 (year / 1000) small at (omega arith),
        convert_num-eq raw 100 (suc start) n1 (year / 100 % 10) small at1 (omega arith),
        convert_num-eq raw 10 (suc (suc start)) n2 (year / 10 % 10) small at2 (omega arith),
        convert_num-eq raw 1 (suc (suc (suc start))) n3 (year % 10) small at3 (omega arith),
        value,
      )
      refl

-- A GeneralizedTime of the form YYYYMMDDhhmmssZ is read to its end, but the member tm_year, which
-- counts from 1900, is the year itself: timegm is asked about a time 1900 years later.
pub parse_time-generalizedtime :
    (timegm : Timegm) (raw : Bytes) (idx parent_end year mon mday hour min sec : ℕ) (rest : Bytes)
    → length raw < 2 ^ 63
    → parent_end ≤ length raw
    → idx + 17 ≤ parent_end
    → drop idx raw
      ≡ encode_header Tag.generalizedtime 15
        ++ four_digits year (month_on mon mday hour min sec rest)
    → year < 10000
    → mon < 100
    → mday < 100
    → hour < 100
    → min < 100
    → sec < 100
    → parse_time timegm raw idx parent_end
      ≡ (to_unix timegm (broken_down year mon mday hour min sec) >>= λ ret. ok (idx + 17, ret))
unfolding parse_time parse_optional_data parse_data_element rollback refuse encode_header
    encode_length
parse_time-generalizedtime timegm raw idx parent_end year mon mday hour min sec rest small inside
      room e hy h0 h1 h2 h3 h4 =
    let header =
      parse_any-encode_header Tag.generalizedtime 15 raw idx parent_end
        (four_digits year (month_on mon mday hour min sec rest)) small inside e (omega arith) in
    let start : idx + 2 ≡ suc (suc idx) = omega arith in
    let s = suc (suc idx) in
    let header2 : parse_any raw idx parent_end
        ≡ ok (record { idx = s; content_end = s + 15; identifier = Tag.generalizedtime }) =
      rw start at header in
    let body : drop s raw ≡ four_digits year (month_on mon mday hour min sec rest) =
      drop-suc raw (suc idx) (drop-suc raw idx e) in
    let later =
      drop-suc raw (suc (suc (suc s)))
        (drop-suc raw (suc (suc s)) (drop-suc raw (suc s) (drop-suc raw s body))) in
    let end : s + 15 ≡ idx + 17 = omega arith in
    let year_read = generalized_year-eq raw idx parent_end s year small (rw header2 refl) body hy in
    rw
      (
        header2,
        year_read,
        month_to_second-eq timegm raw year (suc (suc (suc (suc s)))) mon mday hour min sec small
            later h0 h1 h2 h3 h4,
        end,
      )
      refl

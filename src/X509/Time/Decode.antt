-- ===== src/X509/Time/Decode.antt =====
-- parse_time reads back the UTCTimes that RFC 5280 writes.
use simple_x509_authenticate.Common.{
  ℕ, suc, ◌+◌, ◌-◌, ◌*◌, ◌/◌, ◌%◌, ◌^◌, ◌≤◌, ◌<◌, ◌≡◌, refl, true, false, ◌||◌, ◌∷◌, ◌++◌, Bytes,
  length, drop, drop-suc, get_elem?-drop, get_elem?-some_lt, add64, ltb, ◌!=◌, if◌then◌else◌, arith,
}
use simple_x509_authenticate.Common.Int.{pos, sub_ℕ}
use simple_x509_authenticate.Common.Result.{ok, ◌>>=◌, refuse}
use simple_x509_authenticate.X509.Tag
use simple_x509_authenticate.X509.Der.{
  Content, idx_none, parse_data_element, parse_optional_data, rollback,
}
use simple_x509_authenticate.X509.Der.Encoding.{encode_header, encode_length}
use simple_x509_authenticate.X509.Der.Accepts.{parse_any-encode_header, read-drop}
use simple_x509_authenticate.X509.Time.{
  Timegm, Tm, convert_num, convert_2digit, utc_year, to_unix, month_to_second, parse_time,
}

-- The two decimal digits of a number.
abbrev pub two_digits : ℕ → Bytes → Bytes
two_digits n rest = (b'0' + n / 10) ∷ (b'0' + n % 10) ∷ rest

-- The part of a time that stands behind the year.
abbrev pub month_on : ℕ → ℕ → ℕ → ℕ → ℕ → Bytes → Bytes
month_on mon mday hour min sec rest =
    two_digits mon
      (two_digits mday (two_digits hour (two_digits min (two_digits sec (b'Z' ∷ rest)))))

pub convert_num-eq :
    (raw : Bytes) (m idx n digit : ℕ) {rest : Bytes}
    → length raw < 2 ^ 63
    → drop idx raw ≡ (b'0' + digit) ∷ rest
    → digit < 10
    → convert_num raw m idx n ≡ ok (suc idx, n + digit * m)
unfolding convert_num refuse
convert_num-eq raw m idx n digit small e h =
    let inside = get_elem?-some_lt raw idx (get_elem?-drop raw idx e) in
    let low : ltb (b'0' + digit) b'0' || ltb b'9' (b'0' + digit) ≡ false = ground arith in
    let value : b'0' + digit - b'0' ≡ digit = omega arith in
    let next : add64 idx 1 ≡ suc idx = omega arith in
    rw (read-drop raw idx e, low, value, next) refl

convert_2digit-eq :
    (raw : Bytes) (idx n : ℕ) {rest : Bytes}
    → length raw < 2 ^ 63
    → drop idx raw ≡ two_digits n rest
    → n < 100
    → convert_2digit raw idx ≡ ok (suc (suc idx), n)
unfolding convert_2digit
convert_2digit-eq raw idx n small e h =
    let value : 0 + n / 10 * 10 + n % 10 * 1 ≡ n = omega arith in
    rw
      (
        convert_num-eq raw 10 idx 0 (n / 10) small e (omega arith),
        convert_num-eq raw 1 (suc idx) (0 + n / 10 * 10) (n % 10) small (drop-suc raw idx e)
            (omega arith),
        value,
      )
      refl

pub skip_two :
    (raw : Bytes) (idx n : ℕ) {rest : Bytes}
    → drop idx raw ≡ two_digits n rest
    → drop (suc (suc idx)) raw ≡ rest
skip_two raw idx n e = drop-suc raw (suc idx) (drop-suc raw idx e)

-- The broken-down time that is handed to timegm.
abbrev pub broken_down : ℕ → ℕ → ℕ → ℕ → ℕ → ℕ → Tm
broken_down year mon mday hour min sec = record {
  year = pos year;
  mon = sub_ℕ mon 1;
  mday = pos mday;
  hour = pos hour;
  min = pos min;
  sec = pos sec;
}

pub month_to_second-eq :
    (timegm : Timegm) (raw : Bytes) (year idx mon mday hour min sec : ℕ) {rest : Bytes}
    → length raw < 2 ^ 63
    → drop idx raw ≡ month_on mon mday hour min sec rest
    → mon < 100
    → mday < 100
    → hour < 100
    → min < 100
    → sec < 100
    → month_to_second timegm raw year idx ≡ to_unix timegm (broken_down year mon mday hour min sec)
unfolding month_to_second refuse
month_to_second-eq timegm raw year idx mon mday hour min sec small e0 h0 h1 h2 h3 h4 =
    let i1 = suc (suc idx) in
    let i2 = suc (suc i1) in
    let i3 = suc (suc i2) in
    let i4 = suc (suc i3) in
    let i5 = suc (suc i4) in
    let e1 = skip_two raw idx mon e0 in
    let e2 = skip_two raw i1 mday e1 in
    let e3 = skip_two raw i2 hour e2 in
    let e4 = skip_two raw i3 min e3 in
    let e5 = skip_two raw i4 sec e4 in
    rw
      (
        convert_2digit-eq raw idx mon small e0 h0,
        convert_2digit-eq raw i1 mday small e1 h1,
        convert_2digit-eq raw i2 hour small e2 h2,
        convert_2digit-eq raw i3 min small e3 h3,
        convert_2digit-eq raw i4 sec small e4 h4,
        read-drop raw i5 e5,
      )
      refl

utc_year-eq :
    (raw : Bytes) (e : Content) (year : ℕ) {rest : Bytes}
    → length raw < 2 ^ 63
    → drop e.idx raw ≡ two_digits year rest
    → year < 100
    → e.content_end ≡ e.idx + 13
    → utc_year raw e ≡ ok (suc (suc e.idx), year + (if ltb year 50 then 100 else 0), e.content_end)
unfolding utc_year refuse
utc_year-eq raw e year small at h end =
    let inside = get_elem?-some_lt raw e.idx (get_elem?-drop raw e.idx at) in
    let whole : add64 e.idx 13 != e.content_end ≡ false = ground arith in
    rw (whole, convert_2digit-eq raw e.idx year small at h) refl

-- A UTCTime of the form YYMMDDhhmmssZ is read to its end, and the time that timegm is asked about
-- has its members: the month counted from 0, and the year from 1900, where a year below 50 lies
-- behind 2000. Whether the day exists is left to timegm.
pub parse_time-utctime :
    (timegm : Timegm) (raw : Bytes) (idx parent_end year mon mday hour min sec : ℕ) (rest : Bytes)
    → length raw < 2 ^ 63
    → parent_end ≤ length raw
    → idx + 15 ≤ parent_end
    → drop idx raw
      ≡ encode_header Tag.utctime 13 ++ two_digits year (month_on mon mday hour min sec rest)
    → year < 100
    → mon < 100
    → mday < 100
    → hour < 100
    → min < 100
    → sec < 100
    → parse_time timegm raw idx parent_end ≡ (
        to_unix timegm (broken_down (year + (if ltb year 50 then 100 else 0)) mon mday hour min sec)
        >>= λ ret. ok (idx + 15, ret))
unfolding parse_time parse_optional_data parse_data_element rollback refuse utc_year encode_header
    encode_length
parse_time-utctime timegm raw idx parent_end year mon mday hour min sec rest small inside room e hy
      h0 h1 h2 h3 h4 =
    let header =
      parse_any-encode_header Tag.utctime 13 raw idx parent_end
        (two_digits year (month_on mon mday hour min sec rest)) small inside e (omega arith) in
    let start : idx + 2 ≡ suc (suc idx) = omega arith in
    let body : drop (suc (suc idx)) raw ≡ two_digits year (month_on mon mday hour min sec rest) =
      drop-suc raw (suc idx) (drop-suc raw idx e) in
    let later = skip_two raw (suc (suc idx)) year body in
    let found : suc (suc idx) + 13 != idx_none ≡ true = ground arith in
    let end : suc (suc idx) + 13 ≡ idx + 15 = omega arith in
    let year_read =
      utc_year-eq raw (record { idx = suc (suc idx); content_end = suc (suc idx) + 13 }) year small
        body hy refl in
    rw
      (
        rw start at header,
        found,
        year_read,
        month_to_second-eq timegm raw _ (suc (suc (suc (suc idx)))) mon mday hour min sec small
            later h0 h1 h2 h3 h4,
        end,
      )
      refl

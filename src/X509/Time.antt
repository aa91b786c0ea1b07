-- ===== src/X509/Time.antt =====
-- parse_time of src/x509.c. The C library's timegm is an argument: it gives the broken-down time
-- back as it normalised it, with the timestamp.
pub mod Bounds
pub mod Decode
pub mod Generalized
use simple_x509_authenticate.Common.{
  ℕ, ◌+◌, ◌-◌, ◌*◌, Bool, true, false, ◌||◌, ◌&&◌, not, Bytes, add64, ltb, ◌!=◌, if◌then◌else◌,
}
use simple_x509_authenticate.Common.Int.{ℤ, pos, sub_ℕ, ltb_ℤ, eq_ℤ}
use simple_x509_authenticate.Common.Result.{Result, ok, err, ◌>>=◌, ◌>>◌, refuse}
use simple_x509_authenticate.Common.Buffer.{read}
use simple_x509_authenticate.X509.Code.{Parse, invalid_validity_time}
use simple_x509_authenticate.X509.Tag
use simple_x509_authenticate.X509.Der.{Content, idx_none, parse_data_element, parse_optional_data}

-- The members of struct tm that parse_time uses. `year` counts from 1900, `mon` from 0.
pub record Tm : Type 0 where
  pub year : ℤ
  pub mon : ℤ
  pub mday : ℤ
  pub hour : ℤ
  pub min : ℤ
  pub sec : ℤ

abbrev pub Timegm : Type 0
Timegm = Tm → Tm × ℤ

-- The macro CONVERT_NUM: `n += (ch - '0') * m`, and the index behind the digit.
unfoldable pub convert_num : Bytes → ℕ → ℕ → ℕ → Parse (ℕ × ℕ)
convert_num raw m idx n = do
  ch ← read raw idx
  refuse (ltb ch b'0' || ltb b'9' ch) invalid_validity_time
  ok (add64 idx 1, n + (ch - b'0') * m)

unfoldable pub convert_2digit : Bytes → ℕ → Parse (ℕ × ℕ)
convert_2digit raw idx = do (idx1, n1) ← convert_num raw 10 idx 0; convert_num raw 1 idx1 n1

-- The index behind the year, tm_year, and the end of the element.
unfoldable pub utc_year : Bytes → Content → Parse (ℕ × ℕ × ℕ)
utc_year raw e = do
  refuse (add64 e.idx 13 != e.content_end) invalid_validity_time
  (idx, year) ← convert_2digit raw e.idx
  ok (idx, year + (if ltb year 50 then 100 else 0), e.content_end)

unfoldable pub generalized_year : Bytes → ℕ → ℕ → Parse (ℕ × ℕ × ℕ)
generalized_year raw idx parent_end = do
  e ← parse_data_element raw Tag.generalizedtime idx parent_end
  refuse (add64 e.idx 15 != e.content_end) invalid_validity_time
  (idx1, n1) ← convert_num raw 1000 e.idx 0
  (idx2, n2) ← convert_num raw 100 idx1 n1
  (idx3, n3) ← convert_num raw 10 idx2 n2
  (idx4, n4) ← convert_num raw 1 idx3 n3
  ok (idx4, n4, e.content_end)

abbrev pub same_tm : Tm → Tm → Bool
same_tm a b =
    eq_ℤ a.year b.year
    && (eq_ℤ a.mon b.mon
        && (eq_ℤ a.mday b.mday && (eq_ℤ a.hour b.hour && (eq_ℤ a.min b.min && eq_ℤ a.sec b.sec))))

-- A negative timestamp, or a time that timegm altered, is refused.
unfoldable pub to_unix : Timegm → Tm → Parse ℤ
to_unix timegm pre_utc =
    let (utc, ret) = timegm pre_utc in
    refuse (ltb_ℤ ret (pos 0) || not (same_tm pre_utc utc)) invalid_validity_time >> ok ret

-- The five numbers behind the year and the closing 'Z'.
unfoldable pub month_to_second : Timegm → Bytes → ℕ → ℕ → Parse ℤ
month_to_second timegm raw year idx = do
  (idx1, mon) ← convert_2digit raw idx
  (idx2, mday) ← convert_2digit raw idx1
  (idx3, hour) ← convert_2digit raw idx2
  (idx4, min) ← convert_2digit raw idx3
  (idx5, sec) ← convert_2digit raw idx4
  z ← read raw idx5
  refuse (z != b'Z') invalid_validity_time
  to_unix timegm (record {
    year = pos year;
    mon = sub_ℕ mon 1;
    mday = pos mday;
    hour = pos hour;
    min = pos min;
    sec = pos sec;
  })

-- The index behind the time, and the timestamp.
unfoldable pub parse_time : Timegm → Bytes → ℕ → ℕ → Parse (ℕ × ℤ)
parse_time timegm raw idx parent_end = do
  e ← parse_optional_data raw Tag.utctime idx parent_end idx_none
  (idx1, year, ts_end) ←
      if e.content_end != idx_none then utc_year raw e else generalized_year raw e.idx parent_end
  ret ← month_to_second timegm raw year idx1
  ok (ts_end, ret)

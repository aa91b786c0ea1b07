-- ===== src/X509/Time/Bounds.antt =====
-- Times: no abort, whatever timegm does, and the index goes to the end of the element.
use simple_x509_authenticate.Common.{ℕ, ◌+◌, ◌≤◌, ◌<◌, ◌≡◌, Bytes, ◌!=◌, arith}
use simple_x509_authenticate.Common.Result.{Returns, Returns-bind}
use simple_x509_authenticate.Common.Buffer.{Returns-refuse, Returns-if, Returns-read}
use simple_x509_authenticate.X509.Tag
use simple_x509_authenticate.X509.Der.{Content, idx_none, parse_data_element, parse_optional_data}
use simple_x509_authenticate.X509.Der.Bounds.{
  Fits, Within, parse_data_element-Returns, parse_optional_data-Returns,
}
use simple_x509_authenticate.X509.Time.{
  Timegm, Tm, convert_num, convert_2digit, utc_year, generalized_year, to_unix, month_to_second,
  parse_time,
}

module _ (raw : Bytes) (parent_end : ℕ) (fits : Fits raw parent_end) where
  convert_num-Returns :
      (m idx n : ℕ) → idx < parent_end → Returns (λ r. r.0 ≡ idx + 1) (convert_num raw m idx n)
  unfolding convert_num
  convert_num-Returns m idx n h =
      Returns-read _ raw idx _ (ground arith) λ ch _. Returns-refuse _ _ _ _ λ _. ground arith

  convert_2digit-Returns :
      (idx : ℕ) → idx + 2 ≤ parent_end → Returns (λ r. r.0 ≡ idx + 2) (convert_2digit raw idx)
  unfolding convert_2digit
  convert_2digit-Returns idx h =
      Returns-bind _ _ (convert_num raw 10 idx 0) _ (convert_num-Returns 10 idx 0 (omega arith))
        λ r _ e.
          let next : idx + 1 + 1 ≡ idx + 2 = omega arith in
          rw (e, ← next) (convert_num-Returns 1 (idx + 1) r.1 (omega arith))

  utc_year-Returns :
      (idx : ℕ) (e : Content)
      → Within idx parent_end e.idx e.content_end
      → Returns (λ r. (idx + 2 ≤ r.0) × (r.0 + 11 ≤ parent_end) × (r.0 + 11 ≡ r.2)) (utc_year raw e)
  unfolding utc_year
  utc_year-Returns idx e h = Returns-refuse _ _ _ _ λ size.
      Returns-bind _ _ (convert_2digit raw e.idx) _ (convert_2digit-Returns e.idx (ground arith))
        λ r _ k. ground arith

  generalized_year-Returns :
      (idx : ℕ)
      → Returns
          (λ r. (idx + 2 ≤ r.0) × (r.0 + 11 ≤ parent_end) × (r.0 + 11 ≡ r.2))
          (generalized_year raw idx parent_end)
  unfolding generalized_year
  generalized_year-Returns idx =
      Returns-bind _ _ (parse_data_element raw Tag.generalizedtime idx parent_end) _
        (parse_data_element-Returns raw idx parent_end fits Tag.generalizedtime)
        λ e _ h. Returns-refuse _ _ _ _ λ size.
          Returns-bind _ _ (convert_num raw 1000 e.idx 0) _
            (convert_num-Returns 1000 e.idx 0 (ground arith))
            λ r1 _ k1.
              Returns-bind _ _ (convert_num raw 100 r1.0 r1.1) _
                (convert_num-Returns 100 r1.0 r1.1 (ground arith))
                λ r2 _ k2.
                  Returns-bind _ _ (convert_num raw 10 r2.0 r2.1) _
                    (convert_num-Returns 10 r2.0 r2.1 (ground arith))
                    λ r3 _ k3.
                      Returns-bind _ _ (convert_num raw 1 r3.0 r3.1) _
                        (convert_num-Returns 1 r3.0 r3.1 (ground arith)) λ r4 _ k4. ground arith

  to_unix-Returns : (timegm : Timegm) (tm : Tm) → Returns (λ t. Unit {0}) (to_unix timegm tm)
  unfolding to_unix
  to_unix-Returns timegm tm = Returns-refuse _ _ _ _ λ _. tt

  month_to_second-Returns :
      (timegm : Timegm) (year idx : ℕ)
      → idx + 11 ≤ parent_end
      → Returns (λ t. Unit {0}) (month_to_second timegm raw year idx)
  unfolding month_to_second
  month_to_second-Returns timegm year idx h =
      Returns-bind _ _ (convert_2digit raw idx) _ (convert_2digit-Returns idx (ground arith))
        λ r1 _ k1.
          Returns-bind _ _ (convert_2digit raw r1.0) _ (convert_2digit-Returns r1.0 (ground arith))
            λ r2 _ k2.
              Returns-bind _ _ (convert_2digit raw r2.0) _
                (convert_2digit-Returns r2.0 (ground arith))
                λ r3 _ k3.
                  Returns-bind _ _ (convert_2digit raw r3.0) _
                    (convert_2digit-Returns r3.0 (ground arith))
                    λ r4 _ k4.
                      Returns-bind _ _ (convert_2digit raw r4.0) _
                        (convert_2digit-Returns r4.0 (ground arith))
                        λ r5 _ k5.
                          Returns-read _ raw r5.0 _ (ground arith)
                            λ z _. Returns-refuse _ _ _ _ λ _. to_unix-Returns timegm _

  pub parse_time-Returns :
      (timegm : Timegm) (idx : ℕ)
      → Returns (λ r. (idx + 2 ≤ r.0) × (r.0 ≤ parent_end)) (parse_time timegm raw idx parent_end)
  unfolding parse_time
  parse_time-Returns timegm idx =
      Returns-bind _ _ (parse_optional_data raw Tag.utctime idx parent_end idx_none) _
        (parse_optional_data-Returns raw idx parent_end fits Tag.utctime idx_none)
        λ e _ h.
          Returns-bind (λ r. (idx + 2 ≤ r.0) × (r.0 + 11 ≤ parent_end) × (r.0 + 11 ≡ r.2)) _ _ _
            (Returns-if _ (e.content_end != idx_none) _ _
              (λ found. utc_year-Returns idx e (ground arith))
              (λ missing.
                let same : e.idx ≡ idx = ground arith in rw same (generalized_year-Returns idx)))
            λ y _ k.
              Returns-bind _ _ (month_to_second timegm raw y.1 y.0) _
                (month_to_second-Returns timegm y.1 y.0 (ground arith)) λ t _ _. ground arith

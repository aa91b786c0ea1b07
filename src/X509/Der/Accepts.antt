-- ===== src/X509/Der/Accepts.antt =====
-- parse_any reads back every encoded header.
use simple_x509_authenticate.Common.{
  ℕ, zero, suc, ◌+◌, ◌*◌, ◌/◌, ◌%◌, ◌^◌, ◌≤◌, ◌<◌, ◌≡◌, ◌≢◌, ◌⊎◌, refl, ap, inl, inr, Bytes, IsByte,
  [], ◌∷◌, ◌++◌, All, length, drop, get_elem?-drop, drop-suc, get_elem?-some_lt, add64, bit_and,
  ltb, ◌==◌, true, false, Bool-cases, arith,
}
use simple_x509_authenticate.Common.Bits.{top_bit, low_bits, bit_or_byte}
use simple_x509_authenticate.Common.Result.{ok, refuse}
use simple_x509_authenticate.Common.Buffer.{read}
use simple_x509_authenticate.X509.Code.{ParseCode}
use native.Mathlib.Nat.{le-div_iff_mul-le}
use simple_x509_authenticate.X509.Der.{read_octets, long_form, parse_length, parse_any}
use simple_x509_authenticate.X509.Der.Encoding.{
  pow256, pow256_pos, be_octets, be_value, octet_count, encode_length, encode_header,
  length-be_octets, be_value-be_octets, be_octets-IsByte,
}

pub be_value-ge : (v : ℕ) (bs : Bytes) → v ≤ be_value v bs
be_value-ge v [] = omega arith
be_value-ge v (b ∷ bs) = omega (arith, be_value-ge (v * 256 + b) bs)

read_octets-eq :
    (bs : Bytes) (raw : Bytes) (idx v : ℕ) (rest : Bytes)
    → length raw < 2 ^ 63
    → drop idx raw ≡ bs ++ rest
    → All IsByte bs
    → be_value v bs < 2 ^ 64
    → read_octets (length bs) raw idx v
      ≡ ok (record { length = be_value v bs; idx = idx + length bs })
unfolding read_octets read
read_octets-eq [] raw idx v rest small e h fits = ground arith
read_octets-eq (b ∷ bs) raw idx v rest small e (hb, h) fits =
    let at = get_elem?-drop raw idx e in
    let inside = get_elem?-some_lt raw idx at in
    let step : add64 idx 1 ≡ suc idx = omega arith in
    let shifted : v * 256 % 2 ^ 64 ≡ v * 256 = omega (arith, be_value-ge (v * 256 + b) bs) in
    let end : suc idx + length bs ≡ idx + suc (length bs) = omega arith in
    rw (at, step, shifted, bit_or_byte v b hb, ← end)
      (read_octets-eq bs raw (suc idx) (v * 256 + b) rest small (drop-suc raw idx e) h fits)

octet_count-zero : (fuel : ℕ) → octet_count fuel 0 ≡ 0
unfolding octet_count
octet_count-zero zero = refl
octet_count-zero (suc fuel) = refl

-- Where the count of octets of a number lies.
octet_count_bounds :
    (fuel v : ℕ)
    → 0 < v
    → v < pow256 fuel
    → (n : ℕ) × (octet_count fuel v ≡ suc n) × (n < fuel) × (pow256 n ≤ v) × (v < pow256 (suc n))
unfolding octet_count
octet_count_bounds zero v pos h = absurd (omega arith)
octet_count_bounds (suc fuel) v pos h = elim (Bool-cases (v / 256 == 0)) [
  | inl small ↦
      let gone : v / 256 ≡ 0 = ground arith in
      (
        0,
        ground (arith, ap (octet_count fuel) gone, octet_count-zero fuel),
        omega arith,
        omega arith,
        ground arith,
      )
  | inr big ↦
      let (n, e, lt, lo, hi) = octet_count_bounds fuel (v / 256) (ground arith) (omega arith) in
      (suc n, ground (arith, e), omega arith, omega arith, omega arith)
]

pub read-drop :
    (raw : Bytes) (idx : ℕ) {b : ℕ} {rest : Bytes}
    → drop idx raw ≡ b ∷ rest
    → read {E = ParseCode} raw idx ≡ ok b
unfolding read
read-drop raw idx e = rw (get_elem?-drop raw idx e)

octets-eq :
    (n size : ℕ) (raw : Bytes) (idx : ℕ) (rest : Bytes)
    → size < pow256 n
    → size < 2 ^ 64
    → length raw < 2 ^ 63
    → drop idx raw ≡ be_octets n size ++ rest
    → read_octets n raw idx 0 ≡ ok (record { length = size; idx = idx + n })
octets-eq n size raw idx rest hi fits small e =
    rw (length-be_octets, be_value-be_octets n size hi) at
      (read_octets-eq (be_octets n size) raw idx 0 rest small e (be_octets-IsByte n size hi)
        (rw (be_value-be_octets n size hi) fits))

long_form-eq :
    (n size : ℕ) (raw : Bytes) (idx parent_end : ℕ) (rest : Bytes)
    → n < 8
    → pow256 n ≤ size
    → size < pow256 (suc n)
    → 127 < size
    → size < 2 ^ 64
    → length raw < 2 ^ 63
    → parent_end ≤ length raw
    → idx + suc n ≤ parent_end
    → drop idx raw ≡ be_octets (suc n) size ++ rest
    → long_form (suc n) raw idx parent_end ≡ ok (record { length = size; idx = idx + suc n })
unfolding long_form refuse be_octets
long_form-eq n size raw idx parent_end rest lt lo hi long fits small inside room e =
    let some : 0 < size / pow256 n = (le-div_iff_mul-le (pow256_pos n)).1 (omega arith) in
    ground (arith, some, read-drop raw idx e, octets-eq (suc n) size raw idx rest hi fits small e)

short_lem : (b : ℕ) → b < 128 → ltb 0 (bit_and b 0x80) ≡ false
short_lem b h = ground (arith, top_bit b (omega arith))

long_lem :
    (n : ℕ) → n < 8 → (ltb 0 (bit_and (129 + n) 0x80) ≡ true) × (bit_and (129 + n) 0x7f ≡ suc n)
long_lem n h = (
  ground (arith, top_bit (129 + n) (omega arith)),
  ground (arith, low_bits (129 + n) (omega arith)),
)

-- The two forms of an encoded length.
encode_length-cases :
    (size : ℕ)
    → size < 2 ^ 64
    → ((size < 128) × (encode_length size ≡ size ∷ []))
      ⊎ ((n : ℕ) × (n < 8)
          × (pow256 n ≤ size)
          × (size < pow256 (suc n))
          × (127 < size)
          × (encode_length size ≡ (129 + n) ∷ be_octets (suc n) size))
unfolding encode_length
encode_length-cases size fits = elim (Bool-cases (ltb size 128)) [
  | inl short ↦ inl (ground arith, rw short)
  | inr long ↦
      let (n, e, lt, lo, hi) = octet_count_bounds 8 size (ground arith) (omega arith) in
      let first : 128 + suc n ≡ 129 + n = omega arith in
      inr (n, lt, lo, hi, ground arith, rw (long, e, first))
]

module _ (raw : Bytes) (idx parent_end size : ℕ) (rest : Bytes) (small : length raw < 2 ^ 63)
    (inside : parent_end ≤ length raw) where
  parse_length-short :
      size < 128 → parse_length raw idx parent_end size ≡ ok (record { length = size; idx = idx })
  unfolding parse_length
  parse_length-short h = rw (short_lem size h)

  parse_length-long :
      (n : ℕ)
      → n < 8
      → pow256 n ≤ size
      → size < pow256 (suc n)
      → 127 < size
      → size < 2 ^ 64
      → idx + suc n ≤ parent_end
      → drop idx raw ≡ be_octets (suc n) size ++ rest
      → parse_length raw idx parent_end (129 + n) ≡ ok (record { length = size; idx = idx + suc n })
  unfolding parse_length
  parse_length-long n lt lo hi long fits room e =
      let (is_long, count) = long_lem n lt in
      rw (is_long, count)
        (long_form-eq n size raw idx parent_end rest lt lo hi long fits small inside room e)

  -- A header whose length was read.
  parse_any-length :
      (identifier b end : ℕ) (bs : Bytes)
      → drop idx raw ≡ identifier ∷ b ∷ bs
      → b ≢ 0x80
      → b ≢ 0xff
      → parse_length raw (idx + 2) parent_end b ≡ ok (record { length = size; idx = end })
      → idx + 2 ≤ end
      → end + size ≤ parent_end
      → parse_any raw idx parent_end
        ≡ ok (record { idx = end; content_end = end + size; identifier = identifier })
  unfolding parse_any refuse
  parse_any-length identifier b end bs e definite reserved l from to =
      let one : add64 idx 1 ≡ suc idx = omega arith in
      let two : add64 (suc idx) 1 ≡ idx + 2 = omega arith in
      rw (one, two)
        (ground (arith, read-drop raw idx e, read-drop raw (suc idx) (drop-suc raw idx e), l))

-- parse_any reads back a header in front of its contents: from an encoding of `identifier` and
-- `size` at `idx`, with `size` more bytes before the end of the parent, it returns the identifier,
-- the index behind the header and the end of the contents.
pub parse_any-encode_header :
    (identifier size : ℕ) (raw : Bytes) (idx parent_end : ℕ) (rest : Bytes)
    → length raw < 2 ^ 63
    → parent_end ≤ length raw
    → drop idx raw ≡ encode_header identifier size ++ rest
    → idx + length (encode_header identifier size) + size ≤ parent_end
    → parse_any raw idx parent_end
      ≡ ok (record {
        idx = idx + length (encode_header identifier size);
        content_end = idx + length (encode_header identifier size) + size;
        identifier = identifier;
      })
unfolding encode_header
parse_any-encode_header identifier size raw idx parent_end rest small inside e room =
    elim (encode_length-cases size (omega arith)) [
      | inl (short, form) ↦
          let r : idx + 2 + size ≤ parent_end = omega (arith, rw form at room) in
          rw form (
            parse_any-length raw idx parent_end size rest small inside identifier size (idx + 2)
              rest (rw form at e) (omega arith) (omega arith)
              (parse_length-short raw (idx + 2) parent_end size rest small inside short)
              (omega arith) r)
      | inr (n, lt, lo, hi, long, form) ↦
          let size_of = length-be_octets (suc n) size in
          let header : length (identifier ∷ (129 + n) ∷ be_octets (suc n) size) ≡ suc n + 2 =
            omega (arith, size_of) in
          let end : idx + 2 + suc n ≡ idx + (suc n + 2) = omega arith in
          let r : idx + 2 + suc n + size ≤ parent_end = omega (arith, header, rw form at room) in
          let tail = drop-suc raw (suc idx) (drop-suc raw idx (rw form at e)) in
          rw (form, header, ← end)
            (parse_any-length raw idx parent_end size rest small inside identifier (129 + n)
              (idx + 2 + suc n) (be_octets (suc n) size ++ rest) (rw form at e) (omega arith)
              (omega arith)
              (parse_length-long raw (idx + 2) parent_end size rest small inside n lt lo hi long
                (omega arith) (omega arith)
                (let two : idx + 2 ≡ suc (suc idx) = omega arith in rw two tail))
              (omega arith) r)
    ]

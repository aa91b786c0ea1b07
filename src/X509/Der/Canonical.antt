-- ===== src/X509/Der/Canonical.antt =====
-- Whatever parse_any accepts is the encoding of what it returns, so no other form is accepted.
use simple_x509_authenticate.Common.{
  ℕ, zero, suc, ◌+◌, ◌-◌, ◌*◌, ◌^◌, ◌≤◌, ◌<◌, ◌≡◌, ◌≢◌, refl, sym, ap, ap₂, ◌∙◌, subst, inl, inr,
  Bytes, IsByte, [], ◌∷◌, ◌++◌, All, All-get_elem?, length, drop, drop-cons, add64, bit_and, ltb,
  Bool-cases, arith, get_elem?, get_elem?-drop, some, true, false,
}
use native.Mathlib.Nat.{mul-le-mul_right}
use simple_x509_authenticate.Common.Bits.{top_bit, low_bits}
use simple_x509_authenticate.Common.Result.{Returns, Returns-bind, Returns-mono, Returns_ok}
use simple_x509_authenticate.Common.Buffer.{Returns-refuse, Returns-read}
use simple_x509_authenticate.X509.Tag
use simple_x509_authenticate.X509.Der.{
  Length, read_octets, long_form, parse_length, parse_any, parse_data_element,
  parse_bitstring_no_unused,
}
use simple_x509_authenticate.X509.Der.Bounds.{
  Fits, parse_length-Returns, parse_data_element-Returns,
}
use simple_x509_authenticate.X509.Der.Encoding.{
  pow256, be_octets, be_value, be_value_cons, octet_count, encode_length, encode_header,
  be_octets-be_value, octet_count_lem, be_value-lt,
}
use simple_x509_authenticate.X509.Der.Octets.{Octets, read_octets-Octets}

pow256_mono : (k n : ℕ) → pow256 n ≤ pow256 (k + n)
pow256_mono zero n = let e : 0 + n ≡ n = omega arith in rw e (omega arith)
pow256_mono (suc k) n =
    let e : suc k + n ≡ suc (k + n) = omega arith in rw e (omega (arith, pow256_mono k n))

pow256_le : (n : ℕ) → n ≤ 8 → pow256 n ≤ 2 ^ 64
pow256_le n h =
    let e : 8 - n + n ≡ 8 = omega arith in
    let width : pow256 n ≤ pow256 8 = rw e at (pow256_mono (8 - n) n) in omega arith

some_inj : {a b : ℕ} → some a ≡ some b → a ≡ b
some_inj e = cc

cons-cases : {n : ℕ} (xs : Bytes) → length xs ≡ suc n → (b : ℕ) × (bs : Bytes) × (xs ≡ b ∷ bs)
cons-cases [] e = absurd (omega arith)
cons-cases (b ∷ bs) e = (b, bs, refl)

-- Octets that begin with another digit than 0 are the shortest form of their number.
shortest :
    (n v b : ℕ) (bs : Bytes)
    → n < 8
    → b ≢ 0
    → length (b ∷ bs) ≡ suc n
    → All IsByte (b ∷ bs)
    → v ≡ be_value 0 (b ∷ bs)
    → (octet_count 8 v ≡ suc n) × (be_octets (suc n) v ≡ b ∷ bs)
shortest n v b bs small pos count (byte, bytes) value =
    let counts : length bs ≡ n = omega arith in
    let number : v ≡ b * pow256 n + be_value 0 bs =
      value ∙ be_value_cons b bs ∙ ap (λ k. b * pow256 k + be_value 0 bs) counts in
    let below : v < pow256 (suc n) =
      rw (sym value, ap pow256 count) at (be_value-lt (b ∷ bs) (byte, bytes)) in
    let above : 1 * pow256 n ≤ b * pow256 n = mul-le-mul_right (pow256 n) (omega arith) in
    (
      octet_count_lem 8 n v small (omega arith) below,
      ap₂ be_octets (sym count) value ∙ be_octets-be_value (b ∷ bs) (byte, bytes),
    )

Octets-shortest :
    (n : ℕ) (raw : Bytes) (idx first : ℕ) (l : Length)
    → n < 8
    → get_elem? raw idx ≡ some first
    → first ≢ 0
    → Octets (suc n) raw idx 0 l
    → (octet_count 8 l.length ≡ suc n)
      × (drop idx raw ≡ be_octets (suc n) l.length ++ drop l.idx raw)
Octets-shortest n raw idx first l small at pos o =
    let (b, bs, e) = cons-cases o.octets o.count in
    let same : b ≡ first =
      some_inj
        (sym (get_elem?-drop raw idx (o.here ∙ ap (λ xs. xs ++ drop (suc n + idx) raw) e)) ∙ at) in
    let (count, back) =
      shortest n l.length b bs small (λ z. pos (sym same ∙ z)) (sym (ap length e) ∙ o.count)
        (subst (All IsByte) e o.bytes) (o.value ∙ ap (be_value 0) e) in
    (count, o.here ∙ ap₂ ◌++◌ (e ∙ sym back) (ap (λ i. drop i raw) (sym o.behind)))

long_form-Returns_shortest :
    (octets : ℕ) (raw : Bytes) (idx parent_end : ℕ)
    → Fits raw parent_end
    → 0 < octets
    → octets < 128
    → idx ≤ parent_end
    → Returns
        (λ l.
          (127 < l.length)
          × (octet_count 8 l.length ≡ octets)
          × (drop idx raw ≡ be_octets octets l.length ++ drop l.idx raw))
        (long_form octets raw idx parent_end)
unfolding long_form
long_form-Returns_shortest zero raw idx parent_end fits pos small h = absurd (omega arith)
long_form-Returns_shortest (suc n) raw idx parent_end fits pos small h =
    let size = fits.small in
    let inside = fits.inside in
    Returns-refuse _ _ _ _ λ room. Returns-read _ raw idx _ (ground arith) λ first at.
      Returns-refuse _ _ _ _ λ no_zero. Returns-refuse _ _ _ _ λ eight.
        let all : Fits raw (suc n + idx) = record {
          small = fits.small;
          inside = ground arith;
          bytes = fits.bytes;
        } in
        let width : (0 + 1) * pow256 (suc n) ≤ 2 ^ 64 =
          omega (arith, pow256_le (suc n) (ground arith)) in
        Returns-bind (Octets (suc n) raw idx 0) _ (read_octets (suc n) raw idx 0) _
          (read_octets-Octets (suc n) raw idx 0 all width)
          λ l _ o. Returns-refuse _ _ _ _ λ long.
            let (count, form) =
              Octets-shortest n raw idx first l (ground arith) at (ground arith) o in
            (ground arith, count, form)

-- The length octets that parse_length accepts, from the first one on.
parse_length-Returns_encoded :
    (raw : Bytes) (idx parent_end b : ℕ)
    → Fits raw parent_end
    → b < 256
    → b ≢ 0x80
    → idx ≤ parent_end
    → Returns
        (λ l. b ∷ drop idx raw ≡ encode_length l.length ++ drop l.idx raw)
        (parse_length raw idx parent_end b)
unfolding parse_length encode_length
parse_length-Returns_encoded raw idx parent_end b fits byte definite h =
    let low = low_bits b byte in
    elim (Bool-cases (ltb 0 (bit_and b 0x80))) [
      | inl long ↦ rw long (
          Returns-mono _ _ (long_form (bit_and b 0x7f) raw idx parent_end)
            (λ l (wide, count, form).
              let is_long : ltb l.length 128 ≡ false = ground arith in
              let first : b ≡ 128 + octet_count 8 l.length = ground (arith, top_bit b byte) in
              let octets : be_octets (bit_and b 0x7f) l.length
                  ≡ be_octets (octet_count 8 l.length) l.length =
                ap (λ k. be_octets k l.length) (sym count) in
              rw is_long (ap₂ ◌∷◌ first (form ∙ ap (λ xs. xs ++ drop l.idx raw) octets)))
            (long_form-Returns_shortest (bit_and b 0x7f) raw idx parent_end fits
              (ground (arith, top_bit b byte)) (ground arith) h))
      | inr short ↦
          let is_short : ltb b 128 ≡ true = ground (arith, top_bit b byte) in
          rw (short, is_short) refl
    ]

-- Where parse_any accepts an element of a buffer of bytes, the bytes at `idx` are the encoding of
-- the identifier and the length that it returns, in the shortest form, up to the index that it
-- returns.
pub parse_any-canonical :
    (raw : Bytes) (idx parent_end : ℕ)
    → Fits raw parent_end
    → Returns
        (λ e. drop idx raw ≡ encode_header e.identifier (e.content_end - e.idx) ++ drop e.idx raw)
        (parse_any raw idx parent_end)
unfolding parse_any encode_header
parse_any-canonical raw idx parent_end fits =
    let size = fits.small in
    let inside = fits.inside in
    Returns-refuse _ _ _ _ λ open1. Returns-read _ raw idx _ (ground arith) λ identifier at.
      Returns-refuse _ _ _ _ λ open2. Returns-read _ raw (add64 idx 1) _ (ground arith) λ b at_b.
        let byte : b < 256 = All-get_elem? IsByte raw (add64 idx 1) fits.bytes at_b in
        let one : add64 idx 1 ≡ suc idx = ground arith in
        let two : add64 (add64 idx 1) 1 ≡ suc (suc idx) = ground arith in
        let start : add64 (add64 idx 1) 1 ≤ parent_end = ground arith in
        Returns-refuse _ _ _ _ λ form.
          let definite : b ≢ 0x80 = ground arith in
          Returns-bind _ _ (parse_length raw (add64 (add64 idx 1) 1) parent_end b) _
            (parse_length-Returns raw _ parent_end b fits byte definite start)
            λ l done h. Returns-refuse _ _ _ _ λ room.
              let length_is : add64 l.idx l.length - l.idx ≡ l.length = ground arith in
              let encoded =
                Returns_ok _ _
                  (parse_length-Returns_encoded raw _ parent_end b fits byte definite start) done in
              rw length_is (
                drop-cons raw idx at
                ∙ ap (◌∷◌ identifier)
                    (drop-cons raw (suc idx) (rw one at at_b) ∙ rw two at encoded))

-- The same of parse_data_element, for the identifier that it expects.
pub parse_data_element-canonical :
    (raw : Bytes) (tag idx parent_end : ℕ)
    → Fits raw parent_end
    → Returns
        (λ e. drop idx raw ≡ encode_header tag (e.content_end - e.idx) ++ drop e.idx raw)
        (parse_data_element raw tag idx parent_end)
unfolding parse_data_element
parse_data_element-canonical raw tag idx parent_end fits =
    Returns-bind _ _ (parse_any raw idx parent_end) _ (parse_any-canonical raw idx parent_end fits)
      λ e _ h. Returns-refuse _ _ _ _ λ same.
        let is_tag : e.identifier ≡ tag = ground arith in
        h ∙ ap (λ t. encode_header t (e.content_end - e.idx) ++ drop e.idx raw) is_tag

-- A bit string of which no bit is unused has the octet 0 in front of its bits.
pub parse_bitstring_no_unused-canonical :
    (raw : Bytes) (idx parent_end : ℕ)
    → Fits raw parent_end
    → Returns
        (λ e.
          drop idx raw
          ≡ encode_header Tag.bitstring (suc (e.content_end - e.idx)) ++ 0 ∷ drop e.idx raw)
        (parse_bitstring_no_unused raw idx parent_end)
unfolding parse_bitstring_no_unused
parse_bitstring_no_unused-canonical raw idx parent_end fits =
    Returns-bind _ _ (parse_data_element raw Tag.bitstring idx parent_end) _
      (parse_data_element-Returns raw idx parent_end fits Tag.bitstring)
      λ e done h. Returns-refuse _ _ _ _ λ some_left.
        let fits_in = fits.inside in
        let size = fits.small in
        Returns-read _ raw e.idx _ (ground arith) λ b at. Returns-refuse _ _ _ _ λ zero_octet.
          let none_unused : b ≡ 0 = ground arith in
          let next : add64 e.idx 1 ≡ suc e.idx = ground arith in
          let count : e.content_end - e.idx ≡ suc (e.content_end - suc e.idx) = ground arith in
          let form =
            Returns_ok _ _ (parse_data_element-canonical raw Tag.bitstring idx parent_end fits)
              done in
          rw next (
            form
            ∙ ap₂ (λ n xs. encode_header Tag.bitstring n ++ xs) count
                (drop-cons raw e.idx at ∙ ap (λ x. x ∷ drop (suc e.idx) raw) none_unused))

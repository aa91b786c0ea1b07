-- ===== src/X509/Der/Bounds.antt =====
-- The parsers of single elements stay inside of the buffer and of the enclosing element.
use simple_x509_authenticate.Common.{
  ℕ, zero, suc, ◌+◌, ◌^◌, ◌≤◌, ◌<◌, ◌≡◌, ◌≢◌, ◌⊎◌, inl, inr, Bytes, IsByte, length, All,
  All-get_elem?, add64, arith, bit_and, ltb, ◌!=◌, Bool-cases,
}
use simple_x509_authenticate.Common.Bits.{top_bit, low_bits}
use simple_x509_authenticate.Common.Result.{ok, err, abort, Returns, Returns-bind}
use simple_x509_authenticate.Common.Buffer.{Returns-refuse, Returns-read}
use simple_x509_authenticate.X509.Code.{Parse, unexpected_end_of_data}
use simple_x509_authenticate.X509.Tag
use simple_x509_authenticate.X509.Der.{
  Content, Length, idx_none, read_octets, long_form, parse_length, parse_any, parse_data_element,
  parse_null, rollback, parse_optional_data, bool_value, parse_default_bool,
  parse_bitstring_no_unused,
}

-- The buffer is smaller than the largest size that mmap grants, and the parent lies within it.
pub record Fits (raw : Bytes) (parent_end : ℕ) : Type 0 where
  pub small : length raw < 2 ^ 63
  pub inside : parent_end ≤ length raw
  pub bytes : All IsByte raw

-- `Fits` for a smaller parent.
pub Fits-le : {raw : Bytes} {outer inner : ℕ} → Fits raw outer → inner ≤ outer → Fits raw inner
Fits-le fits h = record { small = fits.small; inside = omega arith; bytes = fits.bytes }

read_octets-Returns :
    (n : ℕ) (raw : Bytes) (idx value : ℕ)
    → length raw < 2 ^ 63
    → idx + n ≤ length raw
    → Returns (λ l. l.idx ≡ idx + n) (read_octets n raw idx value)
unfolding read_octets
read_octets-Returns zero raw idx value small h = omega arith
read_octets-Returns (suc n) raw idx value small h = Returns-read _ raw idx _ (omega arith) λ b _.
    let step : add64 idx 1 ≡ suc idx = omega arith in
    let later : suc idx + n ≡ idx + suc n = omega arith in
    rw (step, ← later) (read_octets-Returns n raw (suc idx) _ small (omega arith))

long_form-Returns :
    (octets : ℕ) (raw : Bytes) (idx parent_end : ℕ)
    → Fits raw parent_end
    → 0 < octets
    → octets < 128
    → idx ≤ parent_end
    → Returns (λ l. (idx ≤ l.idx) × (l.idx ≤ parent_end)) (long_form octets raw idx parent_end)
unfolding long_form
long_form-Returns octets raw idx parent_end fits pos small h = Returns-refuse _ _ _ _ λ room.
    Returns-read _ raw idx _ (ground arith) λ b _. Returns-refuse _ _ _ _ λ _.
      Returns-refuse _ _ _ _ λ _.
        Returns-bind (λ (l : Length). l.idx ≡ idx + octets) _ (read_octets octets raw idx 0) _
          (read_octets-Returns octets raw idx 0 fits.small (ground arith))
          λ l _ e. Returns-refuse _ _ _ _ λ _. ground arith

pub parse_length-Returns :
    (raw : Bytes) (idx parent_end b : ℕ)
    → Fits raw parent_end
    → b < 256
    → b ≢ 0x80
    → idx ≤ parent_end
    → Returns (λ l. (idx ≤ l.idx) × (l.idx ≤ parent_end)) (parse_length raw idx parent_end b)
unfolding parse_length
parse_length-Returns raw idx parent_end b fits byte definite h =
    elim (Bool-cases (ltb 0 (bit_and b 0x80))) [
      | inl long ↦ rw long (
          long_form-Returns (bit_and b 0x7f) raw idx parent_end fits
            (ground (arith, top_bit b byte, low_bits b byte)) (ground (arith, low_bits b byte)) h)
      | inr short ↦ rw short (omega arith)
    ]

-- The bounds that the comments of x509.h promise; an element takes two bytes at least.
abbrev pub Within : ℕ → ℕ → ℕ → ℕ → Type 0
Within idx parent_end start end = (idx + 2 ≤ start) × (start ≤ end) × (end ≤ parent_end)

-- An optional element was skipped, or it is there.
abbrev pub Optional : ℕ → ℕ → ℕ → Content → Type 0
Optional idx parent_end pre_end e =
    ((e.idx ≡ idx) × (e.content_end ≡ pre_end)) ⊎ Within idx parent_end e.idx e.content_end

module _ (raw : Bytes) (idx parent_end : ℕ) (fits : Fits raw parent_end) where
  pub parse_any-Returns :
      Returns (λ e. Within idx parent_end e.idx e.content_end) (parse_any raw idx parent_end)
  unfolding parse_any
  parse_any-Returns = Returns-refuse _ _ _ _ λ open1.
      Returns-read _ raw idx _ (ground arith) λ identifier _. Returns-refuse _ _ _ _ λ open2.
        Returns-read _ raw (add64 idx 1) _ (ground arith) λ b at_b.
          let byte : b < 256 = All-get_elem? IsByte raw (add64 idx 1) fits.bytes at_b in
          Returns-refuse _ _ _ _ λ form.
            Returns-bind _ _ (parse_length raw (add64 (add64 idx 1) 1) parent_end b) _
              (parse_length-Returns raw _ parent_end b fits byte (ground arith) (ground arith))
              λ l _ h. Returns-refuse _ _ _ _ λ room. ground arith

  pub parse_data_element-Returns :
      (tag : ℕ)
      → Returns
          (λ e. Within idx parent_end e.idx e.content_end)
          (parse_data_element raw tag idx parent_end)
  unfolding parse_data_element
  parse_data_element-Returns tag =
      Returns-bind _ _ (parse_any raw idx parent_end) _ parse_any-Returns
        λ e _ h. Returns-refuse _ _ _ _ λ _. h

  pub parse_null-Returns :
      idx < 2 ^ 63 → Returns (λ i. (i ≡ idx + 2) × (i ≤ parent_end)) (parse_null raw idx parent_end)
  unfolding parse_null
  parse_null-Returns small = Returns-refuse _ _ _ _ λ room.
      Returns-read _ raw idx _ (ground arith) λ tag _. Returns-refuse _ _ _ _ λ _.
        Returns-read _ raw (add64 idx 1) _ (ground arith)
          λ size _. Returns-refuse _ _ _ _ λ _. ground arith

  rollback-Returns :
      (pre_end : ℕ) (m : Parse Content)
      → Returns (λ e. Within idx parent_end e.idx e.content_end) m
      → Returns
          (Optional idx parent_end pre_end)
          (rollback (record { idx = idx; content_end = pre_end }) m)
  unfolding rollback
  rollback-Returns pre_end (ok e) h = inr h
  rollback-Returns pre_end (err unexpected_end_of_data) h = ground arith
  rollback-Returns pre_end (err _) h = ground arith
  rollback-Returns pre_end (abort _) h = elim h [ ]

  pub parse_optional_data-Returns :
      (tag pre_end : ℕ)
      → Returns
          (Optional idx parent_end pre_end)
          (parse_optional_data raw tag idx parent_end pre_end)
  unfolding parse_optional_data
  parse_optional_data-Returns tag pre_end =
      rollback-Returns pre_end _ (parse_data_element-Returns tag)

  bool_value-Returns :
      (e : Content)
      → Within idx parent_end e.idx e.content_end
      → Returns (λ p. (idx ≤ p.0) × (p.0 ≤ parent_end)) (bool_value raw e)
  unfolding bool_value
  bool_value-Returns e h = Returns-refuse _ _ _ _ λ one.
      Returns-read _ raw e.idx _ (ground arith) λ b _. Returns-refuse _ _ _ _ λ _. ground arith

  pub parse_default_bool-Returns :
      idx ≤ parent_end
      → Returns (λ p. (idx ≤ p.0) × (p.0 ≤ parent_end)) (parse_default_bool raw idx parent_end)
  unfolding parse_default_bool
  parse_default_bool-Returns start =
      Returns-bind _ _ (parse_optional_data raw Tag.boolean idx parent_end idx_none) _
        (parse_optional_data-Returns Tag.boolean idx_none)
        λ e _ h. elim (Bool-cases (e.content_end != idx_none)) [
          | inl found ↦ rw found (bool_value-Returns e (ground arith))
          | inr missing ↦ rw missing (ground arith)
        ]

  pub parse_bitstring_no_unused-Returns :
      Returns
        (λ e. (idx + 3 ≤ e.idx) × (e.idx ≤ e.content_end) × (e.content_end ≤ parent_end))
        (parse_bitstring_no_unused raw idx parent_end)
  unfolding parse_bitstring_no_unused
  parse_bitstring_no_unused-Returns =
      Returns-bind _ _ (parse_data_element raw Tag.bitstring idx parent_end) _
        (parse_data_element-Returns Tag.bitstring)
        λ e _ h. Returns-refuse _ _ _ _ λ some_left.
          Returns-read _ raw e.idx _ (ground arith) λ b _. Returns-refuse _ _ _ _ λ _. ground arith

-- ===== src/X509/Der.antt =====
-- The functions of src/x509.c that read one DER data element. An index, a size and a length are
-- 64-bit words; `raw` is the memory at `raw_cert`, and reading past its end is an abort.
-- An index that a function advances is an argument, and comes back in its result.
pub mod Bounds
pub mod Encoding
pub mod Accepts
pub mod Octets
pub mod Canonical
use simple_x509_authenticate.Common.{
  ℕ, zero, suc, ◌*◌, ◌%◌, ◌^◌, Bool, true, false, ◌||◌, Option, none, some, Bytes, add64, sub64,
  bit_and, bit_or, ltb, leb, ◌==◌, ◌!=◌, if◌then◌else◌,
}
use simple_x509_authenticate.Common.Result.{Result, ok, err, abort, ◌>>=◌, ◌>>◌, refuse}
use simple_x509_authenticate.Common.Buffer.{read}
use simple_x509_authenticate.X509.Tag
use simple_x509_authenticate.X509.Code.{
  ParseCode, Parse, unexpected_end_of_data, unexpected_identifier, invalid_length_form,
  invalid_boolean, invalid_bitstring,
}

abbrev pub idx_none : ℕ
idx_none = 0

-- The start and the end of the contents of an element.
pub record Content : Type 0 where
  pub idx : ℕ
  pub content_end : ℕ

-- The same, with the identifier byte.
pub record AnyElement : Type 0 where
  pub idx : ℕ
  pub content_end : ℕ
  pub identifier : ℕ

-- What the length octets say, and the index behind them.
pub record Length : Type 0 where
  pub length : ℕ
  pub idx : ℕ

unfoldable pub read_octets : ℕ → Bytes → ℕ → ℕ → Parse Length
read_octets zero raw idx length = ok (record { length = length; idx = idx })
read_octets (suc n) raw idx length = do
  b ← read raw idx
  read_octets n raw (add64 idx 1) (bit_or (length * 256 % 2 ^ 64) b)

unfoldable pub long_form : ℕ → Bytes → ℕ → ℕ → Parse Length
long_form octets raw idx parent_end = do
  refuse (ltb parent_end (add64 idx octets)) unexpected_end_of_data
  first ← read raw idx
  refuse (first == 0) invalid_length_form
  refuse (ltb 8 octets) unexpected_end_of_data
  l ← read_octets octets raw idx 0
  refuse (leb l.length 127) invalid_length_form
  ok l

-- `idx` stands behind the first length byte.
unfoldable pub parse_length : Bytes → ℕ → ℕ → ℕ → Parse Length
parse_length raw idx parent_end length_byte =
    if ltb 0 (bit_and length_byte 0x80)
    then long_form (bit_and length_byte 0x7f) raw idx parent_end
    else ok (record { length = length_byte; idx = idx })

unfoldable pub parse_any : Bytes → ℕ → ℕ → Parse AnyElement
parse_any raw idx parent_end = do
  refuse (leb parent_end idx) unexpected_end_of_data
  identifier ← read raw idx
  refuse (leb parent_end (add64 idx 1)) unexpected_end_of_data
  length_byte ← read raw (add64 idx 1)
  refuse (length_byte == 0x80 || length_byte == 0xff) invalid_length_form
  l ← parse_length raw (add64 (add64 idx 1) 1) parent_end length_byte
  refuse (ltb (sub64 parent_end l.idx) l.length) unexpected_end_of_data
  ok (record { idx = l.idx; content_end = add64 l.idx l.length; identifier = identifier })

unfoldable pub parse_data_element : Bytes → ℕ → ℕ → ℕ → Parse Content
parse_data_element raw expected_identifier idx parent_end = do
  e ← parse_any raw idx parent_end
  refuse (e.identifier != expected_identifier) unexpected_identifier
  ok (record { idx = e.idx; content_end = e.content_end })

-- The index is left alone on an error.
unfoldable pub parse_null : Bytes → ℕ → ℕ → Parse ℕ
parse_null raw idx parent_end = do
  refuse (ltb parent_end (add64 idx 2)) unexpected_end_of_data
  tag ← read raw idx
  refuse (tag != 0x05) unexpected_identifier
  size ← read raw (add64 idx 1)
  refuse (size != 0x00) invalid_length_form
  ok (add64 idx 2)

-- The `switch` of parse_optional_data: two of the codes restore the state that was saved.
unfoldable pub rollback : Content → Parse Content → Parse Content
rollback saved (err unexpected_end_of_data) = ok saved
rollback saved (err unexpected_identifier) = ok saved
rollback saved m = m

-- `pre_end` is what `*ret_content_end` held before the call.
unfoldable pub parse_optional_data : Bytes → ℕ → ℕ → ℕ → ℕ → Parse Content
parse_optional_data raw expected_identifier idx parent_end pre_end =
    rollback (record { idx = idx; content_end = pre_end })
      (parse_data_element raw expected_identifier idx parent_end)

unfoldable pub bool_value : Bytes → Content → Parse (ℕ × Bool)
bool_value raw e = do
  refuse (e.content_end != add64 e.idx 1) invalid_boolean
  b ← read raw e.idx
  refuse (b != 0xff) invalid_boolean
  ok (e.content_end, true)

-- The index behind the element, and the value.
unfoldable pub parse_default_bool : Bytes → ℕ → ℕ → Parse (ℕ × Bool)
parse_default_bool raw idx parent_end = do
  e ← parse_optional_data raw Tag.boolean idx parent_end idx_none
  if e.content_end != idx_none then bool_value raw e else ok (e.idx, false)

unfoldable pub parse_bitstring_no_unused : Bytes → ℕ → ℕ → Parse Content
parse_bitstring_no_unused raw idx parent_end = do
  e ← parse_data_element raw Tag.bitstring idx parent_end
  refuse (leb e.content_end e.idx) unexpected_end_of_data
  unused ← read raw e.idx
  refuse (unused != 0) invalid_bitstring
  ok (record { idx = add64 e.idx 1; content_end = e.content_end })

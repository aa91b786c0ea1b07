-- ===== src/X509/Extension.antt =====
-- The parsers of the supported extensions of src/x509.c. Each takes the fields that are known so
-- far and gives them back with its own filled in.
pub mod Bounds
pub mod Usage
use simple_x509_authenticate.Common.{
  ℕ, zero, suc, ◌+◌, ◌-◌, ◌*◌, ◌/◌, ◌%◌, ◌^◌, Bool, true, false, ◌||◌, not, Bytes, List, [], ◌∷◌,
  add64, sub64, bit_and, bit_or, ltb, leb, ◌==◌, ◌!=◌, if◌then◌else◌,
}
use simple_x509_authenticate.Common.Result.{
  Result, ok, err, abort, Fault, ◌>>=◌, ◌>>◌, refuse, check,
}
use simple_x509_authenticate.Common.Buffer.{read, read_bytes, memeq}
use simple_x509_authenticate.X509.Code.{
  ParseCode, Parse, unexpected_end_of_data, trailing_data, invalid_integer, invalid_bitstring,
  invalid_criticality,
}
use simple_x509_authenticate.X509.Tag
use simple_x509_authenticate.X509.Der.{
  Content, idx_none, parse_data_element, parse_optional_data, parse_default_bool,
}
use simple_x509_authenticate.X509.Fields.{
  X509Fields, max_uint32, flag_any_extended, flag_server_auth, flag_client_auth, flag_code_signing,
  flag_email_protect, flag_timestamp, flag_ocsp_sign,
}

-- Where an optional element ends that is not looked into, or where it was missing.
abbrev pub after_optional : Content → ℕ
after_optional e = if e.content_end != idx_none then e.content_end else e.idx

-- `while (idx < path_end)`, shifting the octets into a uint32. One round of fuel for each octet.
unfoldable pub path_len_loop : ℕ → Bytes → ℕ → ℕ → ℕ → Parse ℕ
path_len_loop zero raw idx path_end value = abort Fault.out_of_fuel
path_len_loop (suc fuel) raw idx path_end value = elim (ltb idx path_end) [
  | true ↦ do
    b ← read raw idx
    path_len_loop fuel raw (add64 idx 1) path_end (bit_or (value * 256 % 2 ^ 32) b)
  | false ↦ ok value
]

unfoldable pub path_len_value : Bytes → Content → X509Fields → Parse (ℕ × X509Fields)
path_len_value raw e fields = do
  refuse (e.idx == e.content_end) unexpected_end_of_data
  first ← read raw e.idx
  refuse (ltb 0 (bit_and first 0x80) || ltb 4 (sub64 e.content_end e.idx)) invalid_integer
  n ← path_len_loop (suc e.content_end) raw e.idx e.content_end fields.path_len_constraint
  ok (e.content_end, record fields { path_len_constraint = n })

unfoldable pub parse_path_len : Bytes → ℕ → ℕ → X509Fields → Parse (ℕ × X509Fields)
parse_path_len raw idx constraint_end fields = do
  e ← parse_optional_data raw Tag.integer idx constraint_end idx_none
  if e.content_end != idx_none
      then path_len_value raw e fields
      else ok (e.idx, record fields { path_len_constraint = max_uint32 })

unfoldable pub parse_basic_constraint : Bytes → ℕ → ℕ → X509Fields → Parse X509Fields
parse_basic_constraint raw idx extn_end fields = do
  e ← parse_data_element raw Tag.sequence idx extn_end
  (after_ca, ca) ← parse_default_bool raw e.idx e.content_end
  let with_ca = record fields { key_cert_sign = ca }
  (end, result) ←
      if ca then parse_path_len raw after_ca e.content_end with_ca else ok (after_ca, with_ca)
  refuse (end != extn_end) trailing_data
  ok result

unfoldable pub parse_akid : Bytes → ℕ → ℕ → X509Fields → Parse X509Fields
parse_akid raw idx extn_end fields = do
  seq ← parse_data_element raw Tag.sequence idx extn_end
  refuse (seq.content_end != extn_end) trailing_data
  key ← parse_optional_data raw Tag.implicit_0 seq.idx seq.content_end idx_none
  aci ←
      parse_optional_data raw (bit_or Tag.implicit_1 Tag.constructed) (after_optional key)
        seq.content_end idx_none
  acsn ← parse_optional_data raw Tag.implicit_2 (after_optional aci) seq.content_end idx_none
  refuse (after_optional acsn != extn_end) trailing_data
  ok (record fields {
    akid_end = key.content_end;
    akid_start = if key.content_end != idx_none then key.idx else fields.akid_start;
  })

unfoldable pub parse_skid : Bytes → ℕ → ℕ → X509Fields → Parse X509Fields
parse_skid raw idx extn_end fields = do
  e ← parse_data_element raw Tag.octet_string idx extn_end
  refuse (e.content_end != extn_end) trailing_data
  ok (record fields { skid_end = e.content_end; skid_start = e.idx })

-- The second octet of the usages, if there is one.
unfoldable pub second_usage : Bytes → Content → X509Fields → Parse X509Fields
second_usage raw e fields =
    if ltb (add64 e.idx 2) e.content_end
    then (read raw (add64 e.idx 2) >>= λ b.
        ok (record fields { key_usage_flags = bit_or fields.key_usage_flags (b * 2 % 2 ^ 32) }))
    else ok fields

-- `0x80u >> (7 - unused)`, and that number minus one as a uint8.
abbrev pub last_set_bit : ℕ → ℕ
last_set_bit unused = 0x80 / 2 ^ (7 - unused)

abbrev pub unused_bits : ℕ → ℕ
unused_bits unused = (last_set_bit unused + 255) % 256

unfoldable pub parse_key_usage : Bytes → ℕ → ℕ → X509Fields → Parse X509Fields
parse_key_usage raw idx extn_end fields = do
  e ← parse_data_element raw Tag.bitstring idx extn_end
  refuse (leb (sub64 e.content_end e.idx) 1) unexpected_end_of_data
  refuse (e.content_end != extn_end || ltb 3 (sub64 e.content_end e.idx)) trailing_data
  unused ← read raw e.idx
  refuse (leb 8 unused) invalid_bitstring
  last ← read raw (sub64 e.content_end 1)
  refuse (bit_and last (last_set_bit unused) == 0 || ltb 0 (bit_and last (unused_bits unused)))
      invalid_bitstring
  first ← read raw (add64 e.idx 1)
  second_usage raw e (record fields {
    has_key_usage = true;
    key_usage_flags = bit_or fields.key_usage_flags first;
  })

-- The first seven bytes of KP_OID.
abbrev pub kp_oid : Bytes
kp_oid = 0x2b ∷ 0x06 ∷ 0x01 ∷ 0x05 ∷ 0x05 ∷ 0x07 ∷ 0x03 ∷ []

-- The `switch` on the last byte of a purpose.
unfoldable pub add_purpose : ℕ → ℕ → ℕ
add_purpose b flags =
    if b == 0x00
    then bit_or flags flag_any_extended
    else if b == 0x01
    then bit_or flags flag_server_auth
    else if b == 0x02
    then bit_or flags flag_client_auth
    else if b == 0x03
    then bit_or flags flag_code_signing
    else if b == 0x04
    then bit_or flags flag_email_protect
    else if b == 0x08
    then bit_or flags flag_timestamp
    else if b == 0x09
    then bit_or flags flag_ocsp_sign
    else flags

unfoldable pub official_purpose : Bytes → Content → ℕ → Parse ℕ
official_purpose raw e flags = do
  prefix ← read_bytes 7 raw e.idx
  last ← read raw (sub64 e.content_end 1)
  ok (if memeq prefix kp_oid then add_purpose last flags else flags)

unfoldable pub parse_purpose : Bytes → Content → ℕ → Parse ℕ
parse_purpose raw e flags =
    if sub64 e.content_end e.idx == 8 then official_purpose raw e flags else ok flags

-- `while (idx < usage_end)`: the index behind the last purpose, and the flags.
unfoldable pub purpose_loop : ℕ → Bytes → ℕ → ℕ → ℕ → Parse (ℕ × ℕ)
purpose_loop zero raw idx usage_end flags = abort Fault.out_of_fuel
purpose_loop (suc fuel) raw idx usage_end flags = elim (ltb idx usage_end) [
  | true ↦ do
    e ← parse_data_element raw Tag.oid idx usage_end
    added ← parse_purpose raw e flags
    purpose_loop fuel raw e.content_end usage_end added
  | false ↦ ok (idx, flags)
]

unfoldable pub parse_ext_key_usage : Bytes → ℕ → ℕ → X509Fields → Parse X509Fields
parse_ext_key_usage raw idx extn_end fields = do
  seq ← parse_data_element raw Tag.sequence idx extn_end
  refuse (seq.content_end != extn_end) trailing_data
  (end, flags) ←
      purpose_loop (suc seq.content_end) raw seq.idx seq.content_end fields.key_usage_flags
  check (end == seq.content_end)
  ok (record fields { key_usage_flags = flags; has_ext_key_usage = true })

-- `criticality` is 0b00, 0b10 or 0b11.
pub record SupportedExtn : Type 0 where
  pub oid : Bytes
  pub criticality : ℕ
  pub parse_extn : Bytes → ℕ → ℕ → X509Fields → Parse X509Fields

abbrev pub supported_extns : List SupportedExtn
supported_extns =
    record {
      oid = 0x55 ∷ 0x1d ∷ 0x13 ∷ [];
      criticality = 0b11;
      parse_extn = parse_basic_constraint;
    }
    ∷ record { oid = 0x55 ∷ 0x1d ∷ 0x23 ∷ []; criticality = 0b10; parse_extn = parse_akid }
    ∷ record { oid = 0x55 ∷ 0x1d ∷ 0x0e ∷ []; criticality = 0b10; parse_extn = parse_skid }
    ∷ record { oid = 0x55 ∷ 0x1d ∷ 0x0f ∷ []; criticality = 0b00; parse_extn = parse_key_usage }
    ∷ record { oid = 0x55 ∷ 0x1d ∷ 0x25 ∷ []; criticality = 0b00; parse_extn = parse_ext_key_usage }
    ∷ []

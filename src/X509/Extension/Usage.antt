-- ===== src/X509/Extension/Usage.antt =====
-- What parse_key_usage makes of the bits of a KeyUsage.
use simple_x509_authenticate.Common.{
  ℕ, suc, ◌+◌, ◌*◌, ◌%◌, ◌^◌, ◌≤◌, ◌<◌, ◌≡◌, refl, Bool, true, false, ◌||◌, ◌∷◌, ◌++◌, Bytes,
  length, drop, drop-suc, add64, sub64, bit_and, bit_or, ltb, leb, ◌!=◌, ◌==◌, arith,
}
use simple_x509_authenticate.Common.Result.{ok, refuse}
use simple_x509_authenticate.X509.Tag
use simple_x509_authenticate.X509.Der.{parse_data_element}
use simple_x509_authenticate.X509.Der.Encoding.{encode_header, encode_length}
use simple_x509_authenticate.X509.Der.Accepts.{parse_any-encode_header, read-drop}
use simple_x509_authenticate.X509.Fields.{X509Fields}
use simple_x509_authenticate.X509.Extension.{
  parse_key_usage, second_usage, last_set_bit, unused_bits,
}

-- The last octet of a named bit list ends with a bit that is set, in front of the unused ones.
abbrev pub bad_padding : ℕ → ℕ → Bool
bad_padding unused last =
    bit_and last (last_set_bit unused) == 0 || ltb 0 (bit_and last (unused_bits unused))

-- A KeyUsage of two octets, with a proper padding, sets the flags of its first octet, and the bits
-- of its second one, decipherOnly the highest, one place further up: at the places of the flags of
-- the first octet and the bit above them, and not at KEY_USAGE_FLAG_KEY_DEC_ONLY.
pub parse_key_usage-two_octets :
    (raw : Bytes) (idx extn_end unused first second : ℕ) (rest : Bytes) (fields : X509Fields)
    → length raw < 2 ^ 63
    → extn_end ≤ length raw
    → extn_end ≡ idx + 5
    → drop idx raw ≡ encode_header Tag.bitstring 3 ++ unused ∷ first ∷ second ∷ rest
    → unused < 8
    → second < 256
    → bad_padding unused second ≡ false
    → parse_key_usage raw idx extn_end fields
      ≡ ok (record fields {
        has_key_usage = true;
        key_usage_flags = bit_or (bit_or fields.key_usage_flags first) (second * 2);
      })
unfolding parse_key_usage second_usage parse_data_element refuse encode_header encode_length
parse_key_usage-two_octets raw idx extn_end unused first second rest fields small inside whole e pad
      byte good =
    let header =
      parse_any-encode_header Tag.bitstring 3 raw idx extn_end (unused ∷ first ∷ second ∷ rest)
        small inside e (omega arith) in
    let at0 : drop (idx + 2) raw ≡ unused ∷ first ∷ second ∷ rest =
      let start : idx + 2 ≡ suc (suc idx) = omega arith in
      rw start (drop-suc raw (suc idx) (drop-suc raw idx e)) in
    let at1 = drop-suc raw (idx + 2) at0 in
    let at2 = drop-suc raw (suc (idx + 2)) at1 in
    let size : sub64 (idx + 2 + 3) (idx + 2) ≡ 3 = omega arith in
    let same : idx + 2 + 3 != extn_end ≡ false = ground arith in
    let narrow : leb 8 unused ≡ false = ground arith in
    let last : sub64 (idx + 2 + 3) 1 ≡ suc (suc (idx + 2)) = omega arith in
    let one : add64 (idx + 2) 1 ≡ suc (idx + 2) = omega arith in
    let two : add64 (idx + 2) 2 ≡ suc (suc (idx + 2)) = omega arith in
    let more : ltb (suc (suc (idx + 2))) (idx + 2 + 3) ≡ true = ground arith in
    let shifted : second * 2 % 2 ^ 32 ≡ second * 2 = omega arith in
    rw
      (
        header,
        size,
        same,
        read-drop raw (idx + 2) at0,
        narrow,
        last,
        read-drop raw (suc (suc (idx + 2))) at2,
        good,
        one,
        read-drop raw (suc (idx + 2)) at1,
        two,
        more,
        read-drop raw (suc (suc (idx + 2))) at2,
        shifted,
      )
      refl

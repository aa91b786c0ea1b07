-- ===== src/X509/Certificate.antt =====
-- parse_x509 of src/x509.c, cut into the parts of a certificate in their order.
pub mod Bounds
pub mod Extensions
pub mod Resigned
pub mod Independent
pub mod Handled
pub mod Listed
pub mod Safety
pub mod Framed
use simple_x509_authenticate.Common.{
  ℕ, zero, suc, ◌+◌, Bool, true, false, ◌||◌, ◌&&◌, Bytes, List, [], ◌∷◌, ◌++◌, length, add64,
  sub64, bit_and, ltb, leb, ◌==◌, ◌!=◌, not, if◌then◌else◌,
}
use simple_x509_authenticate.Common.Int.{ℤ}
use simple_x509_authenticate.Common.Result.{
  Result, ok, err, abort, Fault, ◌>>=◌, ◌>>◌, refuse, check,
}
use simple_x509_authenticate.Common.Buffer.{read, read_bytes, memeq}
use simple_x509_authenticate.X509.Code.{
  ParseCode, Parse, unexpected_end_of_data, trailing_data, invalid_version, mismatched_sig_id,
  exceeds_max_extns, duplicate_extns, unrecognized_critical_extn, invalid_criticality,
}
use simple_x509_authenticate.X509.Tag
use simple_x509_authenticate.X509.Der.{
  Content, idx_none, parse_data_element, parse_optional_data, parse_default_bool,
  parse_bitstring_no_unused,
}
use simple_x509_authenticate.X509.Fields.{X509Fields, assign_default_extensions}
use simple_x509_authenticate.X509.Extension.{after_optional, SupportedExtn, supported_extns}
use simple_x509_authenticate.X509.Name.{AlgId, parse_name, parse_alg_id}
use simple_x509_authenticate.X509.Time.{Timegm, parse_time}

abbrev pub max_extn : ℕ
max_extn = 64

-- The version, and the index behind it.
unfoldable pub parse_version : Bytes → ℕ → ℕ → Parse ℕ
parse_version raw idx tbs_cert_end = do
  outer ← parse_data_element raw Tag.explicit_0 idx tbs_cert_end
  version ← parse_data_element raw Tag.integer outer.idx outer.content_end
  refuse (sub64 version.content_end version.idx != 1) invalid_version
  number ← read raw version.idx
  refuse (number != 2) invalid_version
  refuse (version.content_end != outer.content_end) trailing_data
  ok version.content_end

-- The index behind the validity, notBefore and notAfter.
unfoldable pub parse_validity : Timegm → Bytes → ℕ → ℕ → Parse (ℕ × ℤ × ℤ)
parse_validity timegm raw idx tbs_cert_end = do
  e ← parse_data_element raw Tag.sequence idx tbs_cert_end
  (idx1, not_before) ← parse_time timegm raw e.idx e.content_end
  (idx2, not_after) ← parse_time timegm raw idx1 e.content_end
  refuse (idx2 != e.content_end) trailing_data
  ok (idx2, not_before, not_after)

-- The algorithm of subjectPublicKeyInfo, and the contents of its bit string.
unfoldable pub parse_public_key_info : Bytes → ℕ → ℕ → Parse (AlgId × Content)
parse_public_key_info raw idx tbs_cert_end = do
  e ← parse_data_element raw Tag.sequence idx tbs_cert_end
  alg ← parse_alg_id raw e.idx e.content_end
  key ← parse_bitstring_no_unused raw alg.id_end e.content_end
  refuse (key.content_end != e.content_end) trailing_data
  ok (alg, key)

-- One Extension: where its oid lies, and the contents of extnValue, which end where it ends.
pub record Extension : Type 0 where
  pub oid_start : ℕ
  pub oid_end : ℕ
  pub critical : Bool
  pub extn_idx : ℕ
  pub extn_end : ℕ

unfoldable pub parse_extension : Bytes → ℕ → ℕ → Parse Extension
parse_extension raw idx extensions_end = do
  e ← parse_data_element raw Tag.sequence idx extensions_end
  oid ← parse_data_element raw Tag.oid e.idx e.content_end
  (after_critical, critical) ← parse_default_bool raw oid.content_end e.content_end
  value ← parse_data_element raw Tag.octet_string after_critical e.content_end
  refuse (value.content_end != e.content_end) trailing_data
  ok (record {
    oid_start = oid.idx;
    oid_end = oid.content_end;
    critical = critical;
    extn_idx = value.idx;
    extn_end = value.content_end;
  })

-- The loop that looks for an oid among those that were seen.
unfoldable pub seen_oid : List Bytes → Bytes → Bool
seen_oid [] oid = false
seen_oid (o ∷ os) oid = memeq o oid || seen_oid os oid

-- "This extension mandates a specific criticality", and the certificate states the other one.
unfoldable pub wrong_criticality : ℕ → Bool → Bool
wrong_criticality criticality critical =
    ltb 0 (bit_and criticality 0b10) && bit_and criticality 0b01 != (if critical then 1 else 0)

-- The loop over the supported extensions: the value of critical_fail behind it, and the fields.
unfoldable pub apply_supported :
    List SupportedExtn → Bytes → Bytes → Extension → X509Fields → Parse (Bool × X509Fields)
apply_supported [] raw oid x fields = ok (x.critical, fields)
apply_supported (s ∷ ss) raw oid x fields = elim (memeq s.oid oid) [
  | true ↦ do
    refuse (wrong_criticality s.criticality x.critical) ParseCode.invalid_criticality
    result ← s.parse_extn raw x.extn_idx x.extn_end fields
    ok (false, result)
  | false ↦ apply_supported ss raw oid x fields
]

-- What one round of the loop does behind its first check: the end of the extension, its oid, and
-- the fields.
unfoldable pub extension_round :
    Bytes → ℕ → ℕ → List Bytes → X509Fields → Parse (ℕ × Bytes × X509Fields)
extension_round raw idx extensions_end seen fields = do
  x ← parse_extension raw idx extensions_end
  oid ← read_bytes (sub64 x.oid_end x.oid_start) raw x.oid_start
  refuse (seen_oid seen oid) duplicate_extns
  (critical_fail, result) ← apply_supported supported_extns raw oid x fields
  refuse critical_fail unrecognized_critical_extn
  ok (x.extn_end, oid, result)

-- `while (*idx < extensions_end)`. `seen` holds the bytes behind extn_oids, oldest first.
unfoldable pub extension_loop : ℕ → Bytes → ℕ → ℕ → List Bytes → X509Fields → Parse (ℕ × X509Fields)
extension_loop zero raw idx extensions_end seen fields = abort Fault.out_of_fuel
extension_loop (suc fuel) raw idx extensions_end seen fields = elim (ltb idx extensions_end) [
  | true ↦ do
    refuse (leb max_extn (length seen)) exceeds_max_extns
    (next, oid, result) ← extension_round raw idx extensions_end seen fields
    extension_loop fuel raw next extensions_end (seen ++ oid ∷ []) result
  | false ↦ ok (idx, fields)
]

-- The contents of the element that holds the extensions.
unfoldable pub parse_extensions : Bytes → Content → X509Fields → Parse (ℕ × X509Fields)
parse_extensions raw e fields = do
  list ← parse_data_element raw Tag.sequence e.idx e.content_end
  refuse (list.content_end != e.content_end) trailing_data
  (end, result) ← extension_loop (suc list.content_end) raw list.idx list.content_end [] fields
  check (end == list.content_end)
  ok (end, result)

-- The TBS certificate up to its extensions: the index behind subjectPublicKeyInfo.
unfoldable pub parse_tbs_fields : Timegm → Bytes → ℕ → ℕ → X509Fields → Parse (ℕ × X509Fields)
parse_tbs_fields timegm raw idx tbs_cert_end fields = do
  after_version ← parse_version raw idx tbs_cert_end
  serial ← parse_data_element raw Tag.integer after_version tbs_cert_end
  sig ← parse_alg_id raw serial.content_end tbs_cert_end
  after_issuer ← parse_name raw sig.id_end tbs_cert_end
  (after_validity, not_before, not_after) ← parse_validity timegm raw after_issuer tbs_cert_end
  after_subject ← parse_name raw after_validity tbs_cert_end
  (alg, key) ← parse_public_key_info raw after_subject tbs_cert_end
  ok (
    key.content_end,
    record fields {
      cert_serial_start = serial.idx;
      cert_serial_end = serial.content_end;
      sig_id_start = sig.id_start;
      sig_id_end = sig.id_end;
      sig_oid_start = sig.oid_start;
      sig_oid_end = sig.oid_end;
      not_before = not_before;
      not_after = not_after;
      pub_key_id_start = alg.id_start;
      pub_key_id_end = alg.id_end;
      pub_key_oid_start = alg.oid_start;
      pub_key_oid_end = alg.oid_end;
      pub_key_start = key.idx;
      pub_key_end = key.content_end;
    },
  )

-- issuerUniqueID, subjectUniqueID and the extensions: the index behind them.
unfoldable pub parse_tbs_rest : Bytes → ℕ → ℕ → X509Fields → Parse (ℕ × X509Fields)
parse_tbs_rest raw idx tbs_cert_end fields = do
  issuer_uid ← parse_optional_data raw Tag.implicit_1 idx tbs_cert_end idx_none
  subject_uid ←
      parse_optional_data raw Tag.implicit_2 (after_optional issuer_uid) tbs_cert_end idx_none
  explicit_3 ←
      parse_optional_data raw Tag.explicit_3 (after_optional subject_uid) tbs_cert_end idx_none
  if explicit_3.content_end != idx_none
      then parse_extensions raw explicit_3 (assign_default_extensions fields)
      else ok (explicit_3.idx, assign_default_extensions fields)

-- signatureAlgorithm, which must repeat the one in the TBS certificate, and signatureValue.
unfoldable pub parse_signature : Bytes → ℕ → ℕ → X509Fields → Parse X509Fields
parse_signature raw idx cert_end fields = do
  let sig_id_size = sub64 fields.sig_id_end fields.sig_id_start
  refuse (leb cert_end (add64 idx sig_id_size)) unexpected_end_of_data
  inner ← read_bytes sig_id_size raw fields.sig_id_start
  outer ← read_bytes sig_id_size raw idx
  refuse (not (memeq inner outer)) mismatched_sig_id
  sig ← parse_bitstring_no_unused raw (add64 idx sig_id_size) cert_end
  refuse (sig.content_end != cert_end) trailing_data
  ok (record fields { sig_start = sig.idx; sig_end = sig.content_end })

unfoldable pub parse_x509 : Timegm → Bytes → ℕ → X509Fields → Parse X509Fields
parse_x509 timegm raw raw_cert_size fields = do
  cert ← parse_data_element raw Tag.sequence 0 raw_cert_size
  refuse (raw_cert_size != cert.content_end) trailing_data
  tbs ← parse_data_element raw Tag.sequence cert.idx cert.content_end
  (after_key, known) ←
      parse_tbs_fields timegm raw tbs.idx tbs.content_end
        (record fields { signed_data_start = cert.idx; signed_data_end = tbs.content_end })
  (end, complete) ← parse_tbs_rest raw after_key tbs.content_end known
  refuse (end != tbs.content_end) trailing_data
  parse_signature raw end cert.content_end complete

-- ===== src/X509/Code.antt =====
-- The status codes of src/x509.h, and the outcome of a parser.
use simple_x509_authenticate.Common.Result.{Result}

-- PARSE_OK is the constructor `ok` of `Result`.
pub data ParseCode : Type 0 where
  unexpected_end_of_data unexpected_identifier invalid_length_form trailing_data : ParseCode
  invalid_version invalid_boolean invalid_integer invalid_bitstring : ParseCode
  invalid_validity_time mismatched_sig_id exceeds_max_extns duplicate_extns : ParseCode
  unrecognized_critical_extn invalid_criticality : ParseCode

abbrev pub Parse {ℓ} : Type ℓ → Type ℓ
Parse A = Result ParseCode A

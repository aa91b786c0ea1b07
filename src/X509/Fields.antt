-- ===== src/X509/Fields.antt =====
-- The struct x509Fields of src/x509.h, and its constants.
pub mod Bounds
use simple_x509_authenticate.Common.{ℕ, Bool, true, false, ◌*◌, ◌^◌}
use simple_x509_authenticate.Common.Int.{ℤ}
use simple_x509_authenticate.X509.Der.{idx_none}

pub record X509Fields : Type 0 where
  pub sig_id_start : ℕ
  pub sig_id_end : ℕ
  pub sig_oid_start : ℕ
  pub sig_oid_end : ℕ
  pub sig_start : ℕ
  pub sig_end : ℕ
  pub pub_key_id_start : ℕ
  pub pub_key_id_end : ℕ
  pub pub_key_oid_start : ℕ
  pub pub_key_oid_end : ℕ
  pub pub_key_start : ℕ
  pub pub_key_end : ℕ
  pub signed_data_start : ℕ
  pub signed_data_end : ℕ
  pub cert_serial_start : ℕ
  pub cert_serial_end : ℕ
  pub skid_start : ℕ
  pub skid_end : ℕ
  pub akid_start : ℕ
  pub akid_end : ℕ
  pub not_before : ℤ
  pub not_after : ℤ
  pub key_cert_sign : Bool
  pub path_len_constraint : ℕ
  pub has_key_usage : Bool
  pub has_ext_key_usage : Bool
  pub key_usage_flags : ℕ

abbrev pub max_uint32 : ℕ
max_uint32 = 0xffffffff

-- The flags KEY_USAGE_FLAG_*; `1 << n` is `2 ^ n`.
abbrev pub flag_sign : ℕ
flag_sign = 2 ^ 7

abbrev pub flag_key_cert_sign : ℕ
flag_key_cert_sign = 2 ^ 2

abbrev pub flag_key_dec_only : ℕ
flag_key_dec_only = 2 ^ 15

abbrev pub flag_any_extended : ℕ
flag_any_extended = 2 ^ 16

abbrev pub flag_server_auth : ℕ
flag_server_auth = 2 ^ 17

abbrev pub flag_client_auth : ℕ
flag_client_auth = 2 ^ 18

abbrev pub flag_code_signing : ℕ
flag_code_signing = 2 ^ 19

abbrev pub flag_email_protect : ℕ
flag_email_protect = 2 ^ 20

abbrev pub flag_timestamp : ℕ
flag_timestamp = 2 ^ 21

abbrev pub flag_ocsp_sign : ℕ
flag_ocsp_sign = 2 ^ 22

unfoldable pub assign_default_extensions : X509Fields → X509Fields
assign_default_extensions fields = record fields {
  skid_start = idx_none;
  skid_end = idx_none;
  akid_start = idx_none;
  akid_end = idx_none;
  key_cert_sign = false;
  path_len_constraint = 0;
  has_key_usage = false;
  has_ext_key_usage = false;
  key_usage_flags = 0;
}

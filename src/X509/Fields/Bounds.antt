-- ===== src/X509/Fields/Bounds.antt =====
-- What is known of the indices in the fields while and after a certificate is parsed.
use simple_x509_authenticate.Common.{ℕ, ◌≤◌, ◌<◌, ◌≡◌, refl, ◌⊎◌, arith}
use simple_x509_authenticate.X509.Fields.{X509Fields, assign_default_extensions}

abbrev pub Span : ℕ → ℕ → ℕ → ℕ → Type 0
Span lo hi start end = (lo ≤ start) × (start ≤ end) × (end ≤ hi)

-- A field that may be missing from the certificate.
abbrev pub OptionalSpan : ℕ → ℕ → ℕ → ℕ → Type 0
OptionalSpan lo hi start end = ((start ≡ 0) × (end ≡ 0)) ⊎ Span lo hi start end

-- The fields that stand in front of the extensions lie in the bytes from `lo` to `hi`, which are
-- the signed ones.
pub record KeyBounds (lo hi : ℕ) (f : X509Fields) : Type 0 where
  pub present : 0 < lo
  pub data_start : f.signed_data_start ≡ lo
  pub data_end : f.signed_data_end ≡ hi
  pub cert_serial : Span lo hi f.cert_serial_start f.cert_serial_end
  pub sig_id : Span lo hi f.sig_id_start f.sig_id_end
  pub sig_oid : Span f.sig_id_start f.sig_id_end f.sig_oid_start f.sig_oid_end
  pub pub_key_id : Span lo hi f.pub_key_id_start f.pub_key_id_end
  pub pub_key_oid : Span f.pub_key_id_start f.pub_key_id_end f.pub_key_oid_start f.pub_key_oid_end
  pub pub_key : Span lo hi f.pub_key_start f.pub_key_end

-- So do those that the extensions fill in.
pub record TbsBounds (lo hi : ℕ) (f : X509Fields) : Type 0 where
  pub key_bounds : KeyBounds lo hi f
  pub skid : OptionalSpan lo hi f.skid_start f.skid_end
  pub akid : OptionalSpan lo hi f.akid_start f.akid_end

-- A finished certificate of `size` bytes: the signature stands behind the signed bytes.
pub record CertBounds (size : ℕ) (f : X509Fields) : Type 0 where
  pub tbs : TbsBounds f.signed_data_start f.signed_data_end f
  pub signed_data : f.signed_data_start ≤ f.signed_data_end
  pub sig : Span f.signed_data_end size f.sig_start f.sig_end

pub assign_default_extensions-TbsBounds :
    (lo hi : ℕ) (f : X509Fields) → KeyBounds lo hi f → TbsBounds lo hi (assign_default_extensions f)
unfolding assign_default_extensions
assign_default_extensions-TbsBounds lo hi f h = ground arith

pub assign_default_extensions-akid_start :
    (f : X509Fields) → (assign_default_extensions f).akid_start ≡ 0
unfolding assign_default_extensions
assign_default_extensions-akid_start f = refl

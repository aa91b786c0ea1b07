-- ===== src/X509.antt =====
-- src/x509.h and src/x509.c: the parser of DER encoded certificates.
pub mod Code
pub mod Tag
pub mod Der
pub mod Fields
pub mod Extension
pub mod Time
pub mod Name
pub mod Certificate

-- ===== src/Samples.antt =====
-- Concrete inputs for the tests: a certificate, and a timegm.
mod Certificate
mod Calendar
pub use Certificate.*
pub use Calendar.*

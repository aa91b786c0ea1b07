-- ===== src/Tests/Remote.antt =====
-- A script that is signed, sent, and executed.
use simple_x509_authenticate.Common.{min, [], ◌∷◌, some, Bytes, take, drop}
use simple_x509_authenticate.GenSig.{Signing}
use simple_x509_authenticate.Tests.Tools.{signing}

abbrev file : Bytes
file = 104 ∷ 105 ∷ []

abbrev short_signing : Signing
short_signing = record signing {
  fread = λ n before room. take (min room 3) (drop before file);
  digest_sign = λ script. some (1 ∷ 2 ∷ []);
}

-- ===== src/Tests/Crypto.antt =====
-- The theorems on keys and files at the sample certificate.
use simple_x509_authenticate.Common.{
  ◌≡◌, true, some, arith, All, IsByte, ap, sym, subst, ◌∙◌, length,
}
use mathlib.Core.Option.{some-injective}
use simple_x509_authenticate.Common.Int.{pos, pos_part}
use simple_x509_authenticate.Common.Result.{Returns}
use simple_x509_authenticate.X509.Fields.Bounds.{CertBounds}
use simple_x509_authenticate.Crypto.{extract_self_sign_for_code_sign}
use simple_x509_authenticate.Crypto.Trust.{Trusted, extract_self_sign_for_code_sign-Returns}
use simple_x509_authenticate.ReadCert.{File, read_cert}
use simple_x509_authenticate.ReadCert.Trust.{Mapped, FromFile, read_cert-Returns}
use simple_x509_authenticate.ReadCert.Sizes.{Sized, read_cert-Sized}
use simple_x509_authenticate.Samples.{certificate, calendar}
use simple_x509_authenticate.Tests.Inputs.{certificate-Fits, agreeable, agreeable-Documented, blank}
use simple_x509_authenticate.Tests.X509.{certificate_fields}

certificate_fields-CertBounds : CertBounds 468 certificate_fields
certificate_fields-CertBounds = ground arith

extract_self_sign_for_code_sign-Returns_example :
    Returns (Trusted agreeable certificate certificate_fields (pos 1780000000)) (
      extract_self_sign_for_code_sign agreeable certificate certificate_fields
        (pos 1780000000)
        blank)
extract_self_sign_for_code_sign-Returns_example =
    extract_self_sign_for_code_sign-Returns agreeable agreeable-Documented certificate 468
      certificate-Fits certificate_fields certificate_fields-CertBounds (pos 1780000000) blank

abbrev pub certificate_file : File
certificate_file = record { opened = true; stat = some (pos 468); mapping = some certificate }

pub certificate_file-Mapped : Mapped certificate_file
certificate_file-Mapped = record {
  size = λ raw n contents stat.
      sym (ap length (some-injective certificate raw contents))
      ∙ ap pos_part (some-injective (pos 468) (pos n) stat);
  small = λ n stat.
      let e : 468 ≡ n = ap pos_part (some-injective (pos 468) (pos n) stat) in omega arith;
  bytes = λ raw contents.
      subst (All IsByte) (some-injective certificate raw contents) certificate-Fits.bytes;
}

read_cert-Returns_example :
    Returns
      (FromFile agreeable calendar certificate_file (pos 1780000000))
      (read_cert agreeable calendar certificate_file (pos 1780000000) blank)
read_cert-Returns_example =
    read_cert-Returns agreeable calendar certificate_file (pos 1780000000) blank
      agreeable-Documented certificate_file-Mapped

read_cert-Sized_example :
    Returns (Sized agreeable) (read_cert agreeable calendar certificate_file (pos 1780000000) blank)
read_cert-Sized_example =
    read_cert-Sized agreeable calendar certificate_file (pos 1780000000) blank agreeable-Documented
      certificate_file-Mapped

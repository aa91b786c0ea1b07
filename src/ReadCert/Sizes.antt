-- ===== src/ReadCert/Sizes.antt =====
-- The sizes of the signatures of the keys that read_cert answers.
use simple_x509_authenticate.Common.{
  ℕ, ◌≡◌, refl, sym, subst, ◌⊎◌, inl, inr, ◌==◌, Bytes, [], ◌∷◌, sub64, some, Bool-cases,
}
use simple_x509_authenticate.Common.Int.{ℤ}
use simple_x509_authenticate.Common.Result.{
  ok, err, abort, Returns, Returns-mono, Allows, Allows-bind, Allows-mono, Allows-any,
  Allows-refuse, Returns-Allows,
}
use simple_x509_authenticate.Common.Buffer.{read_bytes, memeq, Allows-require}
use simple_x509_authenticate.X509.Time.{Timegm}
use simple_x509_authenticate.X509.Der.{parse_null}
use simple_x509_authenticate.X509.Fields.{X509Fields}
use simple_x509_authenticate.X509.Certificate.{parse_x509}
use simple_x509_authenticate.Crypto.Ssl.{OpenSsl, Documented, KeyType}
use simple_x509_authenticate.Crypto.Memory.{Allows-assert_some}
use simple_x509_authenticate.Crypto.{
  Extract, certeq, ed_extract, ed25519_extract, ed448_extract, or_stay, RsaSpans, rsa_spans,
  rsa_sig_size, PubKey, rsa_digest, rsa_build_key, rsa_extract, supported_algs, extract_from,
  pub_key_extract, pub_key_verify, check_fields, extract_self_sign_for_code_sign, rsa_oid_prefix,
}
use simple_x509_authenticate.ReadCert.{File, zero_fields, parsed, extracted, positive, read_cert}
use simple_x509_authenticate.ReadCert.Trust.{Mapped, FromFile, read_cert-Returns}

module _ (ssl : OpenSsl) where
  -- Ed25519, Ed448, and RSA with keys of 3072 or 4096 bits.
  pub Sized : PubKey ssl → Type 0
  Sized key =
      ((key.alg_idx ≡ 0) × (key.exp_sig_size ≡ 64))
      ⊎ (((key.alg_idx ≡ 1) × (key.exp_sig_size ≡ 114))
          ⊎ ((key.alg_idx ≡ 2) × ((key.exp_sig_size ≡ 384) ⊎ (key.exp_sig_size ≡ 512))))

  abbrev Same : PubKey ssl → PubKey ssl → Type 0
  Same ret key = (key.alg_idx ≡ ret.alg_idx) × (key.exp_sig_size ≡ ret.exp_sig_size)

  ed_extract-Same :
      (raw : Bytes) (fields : X509Fields) (key_type : KeyType) (ret : PubKey ssl)
      → Allows (Same ret) (ed_extract ssl raw fields key_type ret)
  unfolding ed_extract
  ed_extract-Same raw fields key_type ret =
      let S = Same ret in
      Allows-refuse S _ _ _ λ _.
        Allows-bind (λ _. Unit {0}) S
          (certeq raw fields.sig_id_start fields.sig_id_end fields.pub_key_id_start
            fields.pub_key_id_end)
          _ (Allows-any _)
          λ same _ _. Allows-refuse S _ _ _ λ _.
            Allows-bind (λ _. Unit {0}) S
              (read_bytes (sub64 fields.pub_key_end fields.pub_key_start) raw fields.pub_key_start)
              _ (Allows-any _)
              λ bytes _ _.
                Allows-require S _ _ _ λ pkey _. Allows-require S _ _ _ λ ctx _. (refl, refl)

  rsa_build_key-Same :
      (raw : Bytes) (s : RsaSpans) (ret : PubKey ssl)
      → Allows (Same ret) (rsa_build_key ssl raw s ret)
  unfolding rsa_build_key
  rsa_build_key-Same raw s ret =
      let S = Same ret in
      Allows-bind (λ _. Unit {0}) S
        (read_bytes (sub64 s.modulus_end s.modulus_start) raw s.modulus_start) _ (Allows-any _)
        λ mb _ _. Allows-require S _ _ _ λ modulus _.
          Allows-bind (λ _. Unit {0}) S (read_bytes (sub64 s.exp_end s.exp_start) raw s.exp_start) _
            (Allows-any _)
            λ eb _ _. Allows-require S _ _ _ λ exp _. Allows-require S _ _ _ λ build _.
              Allows-refuse S _ _ _ λ _. Allows-refuse S _ _ _ λ _. Allows-refuse S _ _ _ λ _.
                Allows-require S _ _ _ λ params _. Allows-require S _ _ _ λ ctx _.
                  Allows-refuse S _ _ _ λ _. Allows-refuse S _ _ _ λ _.
                    Allows-assert_some S _ _
                      λ pkey made. Allows-require S _ _ _ λ md_ctx _. (refl, refl)

  abbrev RsaSized : PubKey ssl → PubKey ssl → Type 0
  RsaSized ret key =
      (key.alg_idx ≡ ret.alg_idx) × ((key.exp_sig_size ≡ 384) ⊎ (key.exp_sig_size ≡ 512))

  rsa_sig_size-Allows : (n : ℕ) → Allows (λ k. (k ≡ 384) ⊎ (k ≡ 512)) (rsa_sig_size n)
  unfolding rsa_sig_size
  rsa_sig_size-Allows n = elim (Bool-cases (n == 385)) [
    | inl short ↦ rw short (inl refl)
    | inr other ↦ rw other (elim (Bool-cases (n == 513)) [
      | inl long ↦ rw long (inr refl)
      | inr neither ↦ rw neither tt
    ])
  ]

  rsa_extract-RsaSized :
      (raw : Bytes) (fields : X509Fields) (ret : PubKey ssl)
      → Allows (RsaSized ret) (rsa_extract ssl raw fields ret)
  unfolding rsa_extract
  rsa_extract-RsaSized raw fields ret =
      let R = RsaSized ret in
      Allows-bind (λ _. Unit {0}) R
        (or_stay fields.pub_key_oid_end
          (parse_null raw fields.pub_key_oid_end fields.pub_key_id_end))
        _ (Allows-any _)
        λ idx _ _. Allows-refuse R _ _ _ λ _.
          Allows-bind (λ _. Unit {0}) R
            (read_bytes (sub64 fields.sig_oid_end fields.sig_oid_start) raw fields.sig_oid_start) _
            (Allows-any _)
            λ oid _ _.
              Allows-bind (λ _. Unit {0}) R (rsa_digest ssl oid) _ (Allows-any _)
                λ md _ _.
                  Allows-bind (λ _. Unit {0}) R (rsa_spans raw fields) _ (Allows-any _)
                    λ s _ _.
                      Allows-bind (λ k. (k ≡ 384) ⊎ (k ≡ 512)) R
                        (rsa_sig_size (sub64 s.modulus_end s.modulus_start)) _
                        (rsa_sig_size-Allows (sub64 s.modulus_end s.modulus_start))
                        λ n _ size.
                          let made = record ret { md = some md; exp_sig_size = n } in
                          Allows-mono (Same made) R (rsa_build_key ssl raw s made)
                            (λ key (alg, same).
                              (alg, subst (λ k. (k ≡ 384) ⊎ (k ≡ 512)) (sym same) size))
                            (rsa_build_key-Same raw s made)

  extract_from-Sized :
      (oid raw : Bytes) (fields : X509Fields) (ret : PubKey ssl)
      → Allows Sized (extract_from ssl (supported_algs ssl) 0 oid raw fields ret)
  unfolding extract_from ed25519_extract ed448_extract Sized
  extract_from-Sized oid raw fields ret = elim (Bool-cases (memeq (0x2b ∷ 0x65 ∷ 0x70 ∷ []) oid)) [
    | inl first ↦ rw first (
        Allows-mono _ Sized _ (λ key same. inl same)
          (ed_extract-Same raw fields KeyType.ed25519_key
            (record ret { alg_idx = 0; exp_sig_size = 64 })))
    | inr other ↦ rw other (elim (Bool-cases (memeq (0x2b ∷ 0x65 ∷ 0x71 ∷ []) oid)) [
      | inl second ↦ rw second (
          Allows-mono _ Sized _ (λ key same. inr (inl same))
            (ed_extract-Same raw fields KeyType.ed448_key
              (record ret { alg_idx = 1; exp_sig_size = 114 })))
      | inr neither ↦ rw neither (elim (Bool-cases (memeq (rsa_oid_prefix (0x01 ∷ [])) oid)) [
        | inl third ↦ rw third (
            Allows-mono _ Sized _ (λ key rsa. inr (inr rsa))
              (rsa_extract-RsaSized raw fields (record ret { alg_idx = 2 })))
        | inr none_is ↦ rw none_is tt
      ])
    ])
  ]

  extract_self_sign-Sized :
      (raw : Bytes) (fields : X509Fields) (now : ℤ) (ret : PubKey ssl)
      → Allows Sized (extract_self_sign_for_code_sign ssl raw fields now ret)
  unfolding extract_self_sign_for_code_sign pub_key_extract Sized
  extract_self_sign-Sized raw fields now ret =
      Allows-bind (λ _. Unit {0}) Sized (check_fields raw fields now) _ (Allows-any _)
        λ _ _ _.
          Allows-bind Sized Sized (pub_key_extract ssl raw fields ret) _
            (Allows-bind (λ _. Unit {0}) Sized
              (read_bytes (sub64 fields.pub_key_oid_end fields.pub_key_oid_start) raw
                fields.pub_key_oid_start)
              _ (Allows-any _) λ oid _ _. extract_from-Sized oid raw fields ret)
            λ key _ sized.
              Allows-bind (λ _. Unit {0}) Sized
                (read_bytes (sub64 fields.signed_data_end fields.signed_data_start) raw
                  fields.signed_data_start)
                _ (Allows-any _)
                λ signed _ _.
                  Allows-bind (λ _. Unit {0}) Sized
                    (read_bytes (sub64 fields.sig_end fields.sig_start) raw fields.sig_start) _
                    (Allows-any _)
                    λ sig _ _.
                      Allows-bind (λ _. Unit {0}) Sized (pub_key_verify ssl key signed sig) _
                        (Allows-any _) λ good _ _. Allows-refuse Sized _ _ _ λ _. sized

  extracted-Allows : (m : Extract (PubKey ssl)) → Allows Sized m → Allows Sized (extracted m)
  unfolding extracted
  extracted-Allows (ok key) h = h
  extracted-Allows (err code) h = tt
  extracted-Allows (abort x) h = tt

  read_cert-Allows :
      (timegm : Timegm) (file : File) (now : ℤ) (ret : PubKey ssl)
      → Allows Sized (read_cert ssl timegm file now ret)
  unfolding read_cert
  read_cert-Allows timegm file now ret = Allows-refuse Sized _ _ _ λ _.
      Allows-require Sized _ _ _ λ st_size _.
        Allows-bind (λ _. Unit {0}) Sized (positive st_size) _ (Allows-any _)
          λ n _ _. Allows-require Sized _ _ _ λ raw _.
            Allows-bind (λ _. Unit {0}) Sized (parsed (parse_x509 timegm raw n zero_fields)) _
              (Allows-any _)
              λ fields _ _.
                extracted-Allows (extract_self_sign_for_code_sign ssl raw fields now ret)
                  (extract_self_sign-Sized raw fields now ret)

-- Where mmap and OpenSSL behave as documented, read_cert, which then fails no assert, answers only
-- keys whose signatures have one of the sizes 64, 114, 384 and 512, the one of the algorithm that the
-- key names: 64 for the first one, Ed25519; 114 for the second one, Ed448; and 384 or 512 for the
-- third one, RSA.
pub read_cert-Sized :
    (ssl : OpenSsl) (timegm : Timegm) (file : File) (now : ℤ) (ret : PubKey ssl)
    → Documented ssl
    → Mapped file
    → Returns (Sized ssl) (read_cert ssl timegm file now ret)
read_cert-Sized ssl timegm file now ret doc mapped =
    Returns-mono _ (Sized ssl) (read_cert ssl timegm file now ret) (λ key both. both.1)
      (Returns-Allows (FromFile ssl timegm file now) (Sized ssl) (read_cert ssl timegm file now ret)
        (read_cert-Returns ssl timegm file now ret doc mapped)
        (read_cert-Allows ssl timegm file now ret))

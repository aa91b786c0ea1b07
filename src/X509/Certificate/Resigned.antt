-- ===== src/X509/Certificate/Resigned.antt =====
-- The extensions of parse_x509 hand on the indices of the signature that the fields hold.
use simple_x509_authenticate.Common.{
  ℕ, zero, suc, ◌≡◌, refl, inl, inr, Bool, Bytes, List, [], ◌∷◌, ◌++◌, length, leb, ◌==◌, sub64,
  ltb, All, arith, Bool-cases, ◌!=◌, ◌||◌, true, add64, bit_or, bit_and,
}
use simple_x509_authenticate.Common.Result.{Result, ok, err, abort, refuse, check, ◌>>=◌}
use simple_x509_authenticate.Common.Buffer.{read, read_bytes}
use simple_x509_authenticate.X509.Code.{
  Parse, unexpected_end_of_data, trailing_data, invalid_bitstring, exceeds_max_extns,
  duplicate_extns, unrecognized_critical_extn,
}
use simple_x509_authenticate.X509.Tag
use simple_x509_authenticate.X509.Der.{Content, idx_none, parse_data_element, parse_optional_data}
use simple_x509_authenticate.X509.Fields.{X509Fields}
use simple_x509_authenticate.X509.Extension.{
  after_optional, SupportedExtn, supported_extns, path_len_value, parse_path_len,
  parse_basic_constraint, parse_akid, parse_skid, second_usage, parse_key_usage,
  parse_ext_key_usage, last_set_bit, unused_bits,
}
use simple_x509_authenticate.X509.Certificate.{
  max_extn, Extension, parse_extension, seen_oid, apply_supported, extension_round, extension_loop,
  parse_extensions,
}

-- A success, changed by `t`.
abbrev pub touch {ℓ κ} : {E : Type ℓ} {A : Type κ} → (A → A) → Result E A → Result E A
touch t (ok a) = ok (t a)
touch t (err e) = err e
touch t (abort x) = abort x

pub bind_touch {ℓ κ μ} :
    {E : Type ℓ} {X : Type κ} {A : Type μ} (t : A → A) (m : Result E X) (f g : X → Result E A)
    → ((x : X) → g x ≡ touch t (f x))
    → (m >>= g) ≡ touch t (m >>= f)
bind_touch third (ok x) f g h = h x
bind_touch third (err e) f g h = refl
bind_touch third (abort x) f g h = refl

-- The first part answers the changed value, and the second part hands the change on.
chain_touch {ℓ κ μ} :
    {E : Type ℓ} {X : Type κ} {A : Type μ} (t : A → A) (u : X → X) (m n : Result E X)
    (f g : X → Result E A)
    → n ≡ touch u m
    → ((x : X) → g (u x) ≡ touch t (f x))
    → (n >>= g) ≡ touch t (m >>= f)
chain_touch t u (ok x) n f g e h = rw e (h x)
chain_touch t u (err x) n f g e h = rw e refl
chain_touch t u (abort x) n f g e h = rw e refl

-- The same where the second part takes the change away.
pub chain_same {ℓ κ μ} :
    {E : Type ℓ} {X : Type κ} {A : Type μ} (u : X → X) (m n : Result E X) (f g : X → Result E A)
    → n ≡ touch u m
    → ((x : X) → g (u x) ≡ f x)
    → (n >>= g) ≡ (m >>= f)
chain_same u (ok x) n f g e h = rw e (h x)
chain_same u (err x) n f g e h = rw e refl
chain_same u (abort x) n f g e h = rw e refl

pub bind_same {ℓ κ μ} :
    {E : Type ℓ} {X : Type κ} {A : Type μ} (m : Result E X) (f g : X → Result E A)
    → ((x : X) → g x ≡ f x)
    → (m >>= g) ≡ (m >>= f)
bind_same (ok x) f g h = h x
bind_same (err e) f g h = refl
bind_same (abort x) f g h = refl

module _ (a b : ℕ) where
  -- Other indices of the signature, which parse_signature sets last.
  abbrev pub resign : X509Fields → X509Fields
  resign fields = record fields { sig_start = a; sig_end = b }

  abbrev pub behind : ℕ × X509Fields → ℕ × X509Fields
  behind r = (r.0, resign r.1)

  abbrev third : ℕ × Bytes × X509Fields → ℕ × Bytes × X509Fields
  third r = (r.0, r.1, resign r.2)

  abbrev found : Bool × X509Fields → Bool × X509Fields
  found r = (r.0, resign r.1)

  abbrev Resigns : (Bytes → ℕ → ℕ → X509Fields → Parse X509Fields) → Type 0
  Resigns parse =
      (raw : Bytes) (i e : ℕ) (fields : X509Fields)
      → parse raw i e (resign fields) ≡ touch resign (parse raw i e fields)

  parse_basic_constraint-resign : Resigns parse_basic_constraint
  unfolding parse_basic_constraint parse_path_len path_len_value
  parse_basic_constraint-resign raw i e fields = ground arith

  parse_akid-resign : Resigns parse_akid
  unfolding parse_akid
  parse_akid-resign raw i e fields =
      bind_touch resign (parse_data_element raw Tag.sequence i e) _ _ λ seq.
        let end = seq.content_end in
        bind_touch resign (refuse (end != e) trailing_data) _ _ λ _.
          bind_touch resign (parse_optional_data raw Tag.implicit_0 seq.idx end idx_none) _ _ λ key.
            bind_touch resign
              (parse_optional_data raw (bit_or Tag.implicit_1 Tag.constructed) (after_optional key)
                end idx_none)
              _ _
              λ aci.
                bind_touch resign
                  (parse_optional_data raw Tag.implicit_2 (after_optional aci) end idx_none) _ _
                  λ acsn.
                    bind_touch resign (refuse (after_optional acsn != e) trailing_data) _ _
                      λ _. refl

  parse_skid-resign : Resigns parse_skid
  unfolding parse_skid
  parse_skid-resign raw i e fields = ground arith

  second_usage-resign :
      (raw : Bytes) (e : Content) (fields : X509Fields)
      → second_usage raw e (resign fields) ≡ touch resign (second_usage raw e fields)
  unfolding second_usage
  second_usage-resign raw e fields = elim (Bool-cases (ltb (add64 e.idx 2) e.content_end)) [
    | inl more ↦ rw more (bind_touch resign (read raw (add64 e.idx 2)) _ _ λ _. refl)
    | inr last ↦ rw last refl
  ]

  parse_key_usage-resign : Resigns parse_key_usage
  unfolding parse_key_usage
  parse_key_usage-resign raw i end fields =
      bind_touch resign (parse_data_element raw Tag.bitstring i end) _ _ λ e.
        let n = sub64 e.content_end e.idx in
        bind_touch resign (refuse (leb n 1) unexpected_end_of_data) _ _ λ _.
          bind_touch resign (refuse (e.content_end != end || ltb 3 n) trailing_data) _ _ λ _.
            bind_touch resign (read raw e.idx) _ _ λ unused.
              bind_touch resign (refuse (leb 8 unused) invalid_bitstring) _ _ λ _.
                bind_touch resign (read raw (sub64 e.content_end 1)) _ _ λ last.
                  bind_touch resign
                    (refuse
                      (bit_and last (last_set_bit unused) == 0
                        || ltb 0 (bit_and last (unused_bits unused)))
                      invalid_bitstring)
                    _ _
                    λ _. bind_touch resign (read raw (add64 e.idx 1)) _ _ λ first.
                      second_usage-resign raw e (record fields {
                        has_key_usage = true;
                        key_usage_flags = bit_or fields.key_usage_flags first;
                      })

  parse_ext_key_usage-resign : Resigns parse_ext_key_usage
  unfolding parse_ext_key_usage
  parse_ext_key_usage-resign raw i e fields = ground arith

  supported_extns-resign : All (λ s. Resigns s.parse_extn) supported_extns
  supported_extns-resign = (
    parse_basic_constraint-resign,
    (
      parse_akid-resign,
      (parse_skid-resign, (parse_key_usage-resign, (parse_ext_key_usage-resign, tt))),
    ),
  )

  apply_supported-resign :
      (raw oid : Bytes) (x : Extension) (fields : X509Fields) (ss : List SupportedExtn)
      → All (λ s. Resigns s.parse_extn) ss
      → apply_supported ss raw oid x (resign fields)
        ≡ touch found (apply_supported ss raw oid x fields)
  unfolding apply_supported
  apply_supported-resign raw oid x fields [] all = refl
  apply_supported-resign raw oid x fields (s ∷ ss) (h, all) =
      ground
        (arith, h raw x.extn_idx x.extn_end fields, apply_supported-resign raw oid x fields ss all)

  extension_round-resign :
      (raw : Bytes) (idx extensions_end : ℕ) (seen : List Bytes) (fields : X509Fields)
      → extension_round raw idx extensions_end seen (resign fields)
        ≡ touch third (extension_round raw idx extensions_end seen fields)
  unfolding extension_round
  extension_round-resign raw idx extensions_end seen fields =
      bind_touch third (parse_extension raw idx extensions_end) _ _ λ x.
        bind_touch third (read_bytes (sub64 x.oid_end x.oid_start) raw x.oid_start) _ _ λ oid.
          bind_touch third (refuse (seen_oid seen oid) duplicate_extns) _ _ λ _.
            chain_touch third found (apply_supported supported_extns raw oid x fields) _ _ _
              (apply_supported-resign raw oid x fields supported_extns supported_extns-resign)
              λ r. bind_touch third (refuse r.0 unrecognized_critical_extn) _ _ λ _. refl

  extension_loop-resign :
      (fuel : ℕ) (raw : Bytes) (idx extensions_end : ℕ) (seen : List Bytes) (fields : X509Fields)
      → extension_loop fuel raw idx extensions_end seen (resign fields)
        ≡ touch behind (extension_loop fuel raw idx extensions_end seen fields)
  unfolding extension_loop
  extension_loop-resign zero raw idx extensions_end seen fields = refl
  extension_loop-resign (suc fuel) raw idx extensions_end seen fields =
      elim (Bool-cases (ltb idx extensions_end)) [
        | inl more ↦
            rw (extension_loop, more)
              (bind_touch behind (refuse (leb max_extn (length seen)) exceeds_max_extns) _ _ λ _.
                chain_touch behind third (extension_round raw idx extensions_end seen fields) _ _ _
                  (extension_round-resign raw idx extensions_end seen fields)
                  λ r. extension_loop-resign fuel raw r.0 extensions_end (seen ++ r.1 ∷ []) r.2)
        | inr done ↦ rw (extension_loop, done) refl
      ]

  pub parse_extensions-resign :
      (raw : Bytes) (e : Content) (fields : X509Fields)
      → parse_extensions raw e (resign fields) ≡ touch behind (parse_extensions raw e fields)
  unfolding parse_extensions
  parse_extensions-resign raw e fields =
      bind_touch behind (parse_data_element raw Tag.sequence e.idx e.content_end) _ _ λ list.
        bind_touch behind (refuse (list.content_end != e.content_end) trailing_data) _ _ λ _.
          chain_touch behind behind
            (extension_loop (suc list.content_end) raw list.idx list.content_end [] fields) _ _ _
            (extension_loop-resign (suc list.content_end) raw list.idx list.content_end [] fields)
            λ r. bind_touch behind (check (r.0 == list.content_end)) _ _ λ _. refl

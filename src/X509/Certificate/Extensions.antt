-- ===== src/X509/Certificate/Extensions.antt =====
-- The loop over the extensions: no abort, and the bounds of the fields that it fills in.
use simple_x509_authenticate.Common.{
  ℕ, zero, suc, ◌+◌, ◌≤◌, ◌<◌, ◌≡◌, refl, sym, inl, inr, Bool, true, false, ◌||◌, Bytes, List, [],
  ◌∷◌, ◌++◌, sub64, ltb, Bool-cases, arith,
}
use simple_x509_authenticate.Common.Result.{Result, Returns, Returns-bind, Returns-mono}
use simple_x509_authenticate.Common.Buffer.{
  Returns-refuse, Returns-check, read_bytes, read_bytes-length, memeq, memeq_iff,
}
use simple_x509_authenticate.X509.Code.{ParseCode}
use simple_x509_authenticate.X509.Tag
use simple_x509_authenticate.X509.Der.{Content, parse_data_element, parse_default_bool}
use simple_x509_authenticate.X509.Der.Bounds.{
  Fits, Fits-le, parse_data_element-Returns, parse_default_bool-Returns,
}
use simple_x509_authenticate.X509.Fields.{X509Fields}
use simple_x509_authenticate.X509.Fields.Bounds.{TbsBounds}
use simple_x509_authenticate.X509.Extension.{SupportedExtn, supported_extns}
use simple_x509_authenticate.X509.Extension.Bounds.{
  Keeps, parse_basic_constraint-Returns, parse_akid-Returns, parse_skid-Returns,
  parse_key_usage-Returns, parse_ext_key_usage-Returns,
}
use simple_x509_authenticate.X509.Certificate.{
  Extension, parse_extension, seen_oid, apply_supported, extension_round, extension_loop,
  parse_extensions,
}

abbrev ExtensionBounds : ℕ → ℕ → Extension → Type 0
ExtensionBounds idx extensions_end x =
    (idx + 2 ≤ x.oid_start)
    × (x.oid_start ≤ x.oid_end)
    × (x.oid_end ≤ x.extn_idx)
    × (x.extn_idx ≤ x.extn_end)
    × (x.extn_end ≤ extensions_end)

parse_extension-Returns :
    (raw : Bytes) (idx extensions_end : ℕ)
    → Fits raw extensions_end
    → Returns (ExtensionBounds idx extensions_end) (parse_extension raw idx extensions_end)
unfolding parse_extension
parse_extension-Returns raw idx extensions_end fits =
    Returns-bind _ _ (parse_data_element raw Tag.sequence idx extensions_end) _
      (parse_data_element-Returns raw idx extensions_end fits Tag.sequence)
      λ e _ h.
        let inner : Fits raw e.content_end = Fits-le fits (ground arith) in
        Returns-bind _ _ (parse_data_element raw Tag.oid e.idx e.content_end) _
          (parse_data_element-Returns raw e.idx e.content_end inner Tag.oid)
          λ oid _ k.
            Returns-bind _ _ (parse_default_bool raw oid.content_end e.content_end) _
              (parse_default_bool-Returns raw oid.content_end e.content_end inner (ground arith))
              λ c _ m.
                Returns-bind _ _ (parse_data_element raw Tag.octet_string c.0 e.content_end) _
                  (parse_data_element-Returns raw c.0 e.content_end inner Tag.octet_string)
                  λ value _ n. Returns-refuse _ _ _ _ λ same. ground arith

abbrev akid_oid : Bytes
akid_oid = 0x55 ∷ 0x1d ∷ 0x23 ∷ []

-- While no authority key identifier was seen, its index is not set.
abbrev Unset : List Bytes → X509Fields → Type 0
Unset seen f = seen_oid seen akid_oid ≡ false → f.akid_start ≡ 0

memeq_comm : (xs ys : Bytes) → memeq xs ys ≡ memeq ys xs
unfolding memeq
memeq_comm [] [] = refl
memeq_comm [] (y ∷ ys) = refl
memeq_comm (x ∷ xs) [] = refl
memeq_comm (x ∷ xs) (y ∷ ys) = ground (arith, memeq_comm xs ys)

pub seen_oid-concat :
    (seen : List Bytes) (new oid : Bytes)
    → seen_oid (seen ++ new ∷ []) oid ≡ (seen_oid seen oid || memeq new oid)
unfolding seen_oid
seen_oid-concat [] new oid = ground arith
seen_oid-concat (o ∷ os) new oid = ground (arith, seen_oid-concat os new oid)

module _ (Q : Bool × X509Fields → Type 0) (raw oid : Bytes) (x : Extension)
    (fields : X509Fields) where
  apply_supported_cons :
      (s : SupportedExtn) (ss : List SupportedExtn)
      → (memeq s.oid oid ≡ true
          → Returns (λ f. Q (false, f)) (s.parse_extn raw x.extn_idx x.extn_end fields))
      → Returns Q (apply_supported ss raw oid x fields)
      → Returns Q (apply_supported (s ∷ ss) raw oid x fields)
  unfolding apply_supported
  apply_supported_cons s ss hit miss = elim (Bool-cases (memeq s.oid oid)) [
    | inl same ↦
        rw (same, apply_supported)
          (Returns-refuse _ _ _ _ λ _.
            Returns-bind _ _ (s.parse_extn raw x.extn_idx x.extn_end fields) _ (hit same)
              λ f _ q. q)
    | inr other ↦ rw (other, apply_supported) miss
  ]

-- What a supported extension with the oid `oid` makes of `fields`.
abbrev Applied : ℕ → ℕ → Bytes → X509Fields → X509Fields → Type 0
Applied lo hi oid fields f =
    TbsBounds lo hi f × (memeq akid_oid oid ≡ false → f.akid_start ≡ fields.akid_start)

module _ (lo hi : ℕ) (raw oid : Bytes) (x : Extension) (fields : X509Fields) where
  kept :
      (m : Result ParseCode X509Fields)
      → Returns (Keeps lo hi fields.akid_start) m
      → Returns (Applied lo hi oid fields) m
  kept m h = Returns-mono _ _ m (λ f b. (b.0, λ _. b.1)) h

  cons :
      (s : SupportedExtn) (ss : List SupportedExtn)
      → (memeq s.oid oid ≡ true
          → Returns (Applied lo hi oid fields) (s.parse_extn raw x.extn_idx x.extn_end fields))
      → Returns (λ r. Applied lo hi oid fields r.1) (apply_supported ss raw oid x fields)
      → Returns (λ r. Applied lo hi oid fields r.1) (apply_supported (s ∷ ss) raw oid x fields)
  cons s ss = apply_supported_cons (λ r. Applied lo hi oid fields r.1) raw oid x fields s ss

  apply_supported_nil :
      TbsBounds lo hi fields
      → Returns (λ r. Applied lo hi oid fields r.1) (apply_supported [] raw oid x fields)
  unfolding apply_supported
  apply_supported_nil old = (old, λ _. refl)

  apply_supported-Returns :
      TbsBounds lo hi fields
      → Fits raw x.extn_end
      → lo ≤ x.extn_idx
      → x.extn_end ≤ hi
      → (memeq akid_oid oid ≡ true → fields.akid_start ≡ 0)
      → Returns
          (λ r. Applied lo hi oid fields r.1)
          (apply_supported supported_extns raw oid x fields)
  apply_supported-Returns old fits from to unset =
      let i = x.extn_idx in
      let e = x.extn_end in
      let a = fields.akid_start in
      cons _ _
        (λ _. kept _ (parse_basic_constraint-Returns lo hi a raw i e fields (old, refl) fits))
        (cons _ _
          (λ same.
            Returns-mono (TbsBounds lo hi) (Applied lo hi oid fields) _ (λ f b. (b, λ other. cc))
              (parse_akid-Returns lo hi raw i e fields old fits from to (unset same)))
          (cons _ _
            (λ _. kept _ (parse_skid-Returns lo hi a raw i e fields (old, refl) fits from to))
            (cons _ _
              (λ _. kept _ (parse_key_usage-Returns lo hi a raw i e fits fields (old, refl)))
              (cons _ _
                (λ _. kept _ (parse_ext_key_usage-Returns lo hi a raw i e fields (old, refl) fits))
                (apply_supported_nil old)))))

-- What a round needs of the extensions seen so far, and what it gives.
abbrev LoopInv : ℕ → ℕ → List Bytes → X509Fields → Type 0
LoopInv lo hi seen f = TbsBounds lo hi f × Unset seen f

Unset-concat :
    (seen : List Bytes) (oid : Bytes) (f g : X509Fields)
    → Unset seen f
    → (memeq akid_oid oid ≡ false → g.akid_start ≡ f.akid_start)
    → Unset (seen ++ oid ∷ []) g
Unset-concat seen oid f g before same free =
    ground (arith, seen_oid-concat seen oid akid_oid, memeq_comm oid akid_oid, before, same)

first_akid :
    (seen : List Bytes) (oid : Bytes) (f : X509Fields)
    → Unset seen f
    → seen_oid seen oid ≡ false
    → memeq akid_oid oid ≡ true
    → f.akid_start ≡ 0
first_akid seen oid f unset fresh same =
    let e : oid ≡ akid_oid = sym ((memeq_iff akid_oid oid).0 same) in unset (rw e at fresh)

module _ (lo hi : ℕ) (raw : Bytes) (extensions_end : ℕ) (fits : Fits raw extensions_end)
    (to : extensions_end ≤ hi) where
  extension_round-Returns :
      (idx : ℕ) (seen : List Bytes) (fields : X509Fields)
      → LoopInv lo hi seen fields
      → lo ≤ idx
      → Returns
          (λ r. (idx + 2 ≤ r.0) × (r.0 ≤ extensions_end) × LoopInv lo hi (seen ++ r.1 ∷ []) r.2)
          (extension_round raw idx extensions_end seen fields)
  unfolding extension_round
  extension_round-Returns idx seen fields inv from =
      Returns-bind _ _ (parse_extension raw idx extensions_end) _
        (parse_extension-Returns raw idx extensions_end fits)
        λ x _ h.
          Returns-bind _ _ (read_bytes (sub64 x.oid_end x.oid_start) raw x.oid_start) _
            (read_bytes-length ParseCode _ raw x.oid_start (ground arith))
            λ oid _ _. Returns-refuse _ _ _ _ λ fresh.
              Returns-bind _ _ (apply_supported supported_extns raw oid x fields) _
                (apply_supported-Returns lo hi raw oid x fields inv.0 (Fits-le fits (ground arith))
                  (ground arith) (ground arith) (first_akid seen oid fields inv.1 fresh))
                λ r _ k. Returns-refuse _ _ _ _ λ _.
                  (ground arith, ground arith, (k.0, Unset-concat seen oid fields r.1 inv.1 k.1))

  extension_loop-Returns :
      (fuel idx : ℕ) (seen : List Bytes) (fields : X509Fields)
      → LoopInv lo hi seen fields
      → lo ≤ idx
      → idx ≤ extensions_end
      → extensions_end < fuel + idx
      → Returns
          (λ r. (r.0 ≡ extensions_end) × TbsBounds lo hi r.1)
          (extension_loop fuel raw idx extensions_end seen fields)
  unfolding extension_loop
  extension_loop-Returns zero idx seen fields inv from h enough = absurd (omega arith)
  extension_loop-Returns (suc fuel) idx seen fields inv from h enough =
      elim (Bool-cases (ltb idx extensions_end)) [
        | inl more ↦
            rw (more, extension_loop)
              (Returns-refuse _ _ _ _ λ _.
                Returns-bind _ _ (extension_round raw idx extensions_end seen fields) _
                  (extension_round-Returns idx seen fields inv from)
                  λ r _ k.
                    extension_loop-Returns fuel r.0 (seen ++ r.1 ∷ []) r.2 k.2 (omega arith)
                      (omega arith) (omega arith))
        | inr done ↦ rw (done, extension_loop) (ground arith, inv.0)
      ]

pub parse_extensions-Returns :
    (lo hi : ℕ) (raw : Bytes) (e : Content) (fields : X509Fields)
    → Fits raw e.content_end
    → lo ≤ e.idx
    → e.content_end ≤ hi
    → TbsBounds lo hi fields
    → fields.akid_start ≡ 0
    → Returns
        (λ r. (e.idx ≤ r.0) × (r.0 ≤ e.content_end) × TbsBounds lo hi r.1)
        (parse_extensions raw e fields)
unfolding parse_extensions
parse_extensions-Returns lo hi raw e fields fits from to old unset =
    Returns-bind _ _ (parse_data_element raw Tag.sequence e.idx e.content_end) _
      (parse_data_element-Returns raw e.idx e.content_end fits Tag.sequence)
      λ list _ h. Returns-refuse _ _ _ _ λ _.
        Returns-bind _ _
          (extension_loop (suc list.content_end) raw list.idx list.content_end [] fields) _
          (extension_loop-Returns lo hi raw list.content_end (Fits-le fits (ground arith))
            (ground arith) _ list.idx [] fields (old, λ _. unset) (ground arith) (ground arith)
            (ground arith))
          λ r _ k. Returns-check _ _ _ (ground arith) (ground arith, ground arith, k.1)

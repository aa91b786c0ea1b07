-- ===== src/X509/Certificate/Handled.antt =====
-- What becomes of one extension in parse_x509, by the table of the supported ones.
use simple_x509_authenticate.Common.{
  ℕ, suc, ◌≡◌, ◌≢◌, ◌⊎◌, refl, inl, inr, Bool, false, Bytes, List, [], ◌∷◌, some, get_elem?, All,
  Bool-cases,
}
use simple_x509_authenticate.Common.Result.{
  ok, Allows, Allows-bind, Allows-mono, Allows-any, Allows-refuse,
}
use simple_x509_authenticate.Common.Buffer.{memeq, memeq_iff}
use simple_x509_authenticate.X509.Fields.{X509Fields}
use simple_x509_authenticate.X509.Extension.{SupportedExtn}
use simple_x509_authenticate.X509.Certificate.{Extension, wrong_criticality, apply_supported}

-- The extension has the criticality that it must have, or a criticality is not prescribed.
abbrev pub Supports : Bytes → Extension → Bytes → SupportedExtn → Type 0
Supports raw x oid s = (s.oid ≡ oid) × (wrong_criticality s.criticality x.critical ≡ false)

-- One of `ss` has the oid, and its parser makes `after` of `before`; or none has it, the extension
-- is not critical, and the fields stay as they are.
abbrev pub Handled :
    Bytes → List SupportedExtn → Extension → Bytes → X509Fields → X509Fields → Type 0
Handled raw ss x oid before after =
    ((k : ℕ) × (s : SupportedExtn) × (get_elem? ss k ≡ some s)
      × Supports raw x oid s
      × (s.parse_extn raw x.extn_idx x.extn_end before ≡ ok after))
    ⊎ (All (λ s. s.oid ≢ oid) ss × (x.critical ≡ false) × (after ≡ before))

-- What apply_supported answers: whether nothing was found for a critical extension.
abbrev pub Sorted :
    Bytes → List SupportedExtn → Extension → Bytes → X509Fields → Bool × X509Fields → Type 0
Sorted raw ss x oid before r = r.0 ≡ false → Handled raw ss x oid before r.1

pub different : (xs ys : Bytes) → memeq xs ys ≡ false → xs ≢ ys
different xs ys h e = let same = (memeq_iff xs ys).1 e in cc

Sorted-cons :
    (raw : Bytes) (s : SupportedExtn) (ss : List SupportedExtn) (x : Extension) (oid : Bytes)
    (before : X509Fields) (r : Bool × X509Fields)
    → s.oid ≢ oid
    → Sorted raw ss x oid before r
    → Sorted raw (s ∷ ss) x oid before r
Sorted-cons raw s ss x oid before r other h found = elim (h found) [
  | inl (k, t, at, supports, parsed) ↦ inl (suc k, t, at, supports, parsed)
  | inr (none_has, quiet, same) ↦ inr ((other, none_has), quiet, same)
]

pub apply_supported-Sorted :
    (raw oid : Bytes) (x : Extension) (fields : X509Fields) (ss : List SupportedExtn)
    → Allows (Sorted raw ss x oid fields) (apply_supported ss raw oid x fields)
unfolding apply_supported
apply_supported-Sorted raw oid x fields [] = λ quiet. inr (tt, quiet, refl)
apply_supported-Sorted raw oid x fields (s ∷ ss) = elim (Bool-cases (memeq s.oid oid)) [
  | inl same ↦
      rw (same, apply_supported)
        (Allows-refuse _ _ _ _ λ right.
          Allows-bind (λ _. Unit {0}) _ (s.parse_extn raw x.extn_idx x.extn_end fields) _
            (Allows-any _)
            λ after parsed _ _. inl (0, s, refl, ((memeq_iff s.oid oid).0 same, right), parsed))
  | inr other ↦
      rw (other, apply_supported)
        (Allows-mono (Sorted raw ss x oid fields) _ (apply_supported ss raw oid x fields)
          (λ r. Sorted-cons raw s ss x oid fields r (different s.oid oid other))
          (apply_supported-Sorted raw oid x fields ss))
]

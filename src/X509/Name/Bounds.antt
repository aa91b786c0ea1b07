-- ===== src/X509/Name/Bounds.antt =====
-- Names and algorithm identifiers: no abort, no endless loop, and indices in order.
use simple_x509_authenticate.Common.{
  ℕ, zero, suc, ◌+◌, ◌≤◌, ◌<◌, ◌≡◌, inl, inr, Bytes, ltb, Bool-cases, arith,
}
use simple_x509_authenticate.Common.Result.{Returns, Returns-bind}
use simple_x509_authenticate.Common.Buffer.{Returns-refuse, Returns-check}
use simple_x509_authenticate.X509.Tag
use simple_x509_authenticate.X509.Der.{parse_any, parse_data_element}
use simple_x509_authenticate.X509.Der.Bounds.{
  Fits, Fits-le, parse_any-Returns, parse_data_element-Returns,
}
use simple_x509_authenticate.X509.Name.{
  AlgId, parse_attribute, attribute_loop, parse_relative_name, name_loop, parse_name, parse_alg_id,
}

parse_attribute-Returns :
    (raw : Bytes) (idx relative_name_end : ℕ)
    → Fits raw relative_name_end
    → Returns
        (λ r. (idx + 2 ≤ r.0) × (r.0 ≤ relative_name_end) × (r.1 ≡ r.0))
        (parse_attribute raw idx relative_name_end)
unfolding parse_attribute
parse_attribute-Returns raw idx relative_name_end fits =
    Returns-bind _ _ (parse_data_element raw Tag.sequence idx relative_name_end) _
      (parse_data_element-Returns raw idx relative_name_end fits Tag.sequence)
      λ attribute _ h.
        let inner : Fits raw attribute.content_end = Fits-le fits (ground arith) in
        Returns-bind _ _ (parse_data_element raw Tag.oid attribute.idx attribute.content_end) _
          (parse_data_element-Returns raw attribute.idx _ inner Tag.oid)
          λ type _ k.
            Returns-bind _ _ (parse_any raw type.content_end attribute.content_end) _
              (parse_any-Returns raw type.content_end _ inner)
              λ value _ m. Returns-refuse _ _ _ _ λ same. ground arith

-- In the first round `attribute_end` is 0, in the later ones it is `idx`.
attribute_loop-Returns :
    (fuel : ℕ) (raw : Bytes) (idx attribute_end relative_name_end : ℕ)
    → Fits raw relative_name_end
    → idx ≤ relative_name_end
    → attribute_end ≤ idx
    → (relative_name_end ≤ attribute_end → idx ≡ relative_name_end)
    → relative_name_end < fuel + idx
    → Returns
        (λ r. r ≡ relative_name_end)
        (attribute_loop fuel raw idx attribute_end relative_name_end)
unfolding attribute_loop
attribute_loop-Returns zero raw idx attribute_end relative_name_end fits h below last enough =
    absurd (omega arith)
attribute_loop-Returns (suc fuel) raw idx attribute_end relative_name_end fits h below last enough =
    elim (Bool-cases (ltb attribute_end relative_name_end)) [
      | inl more ↦
          rw (more, attribute_loop)
            (Returns-bind _ _ (parse_attribute raw idx relative_name_end) _
              (parse_attribute-Returns raw idx relative_name_end fits)
              λ r _ k.
                attribute_loop-Returns fuel raw r.0 r.1 relative_name_end fits (ground arith)
                  (ground arith) (ground arith) (ground arith))
      | inr done ↦ rw (done, attribute_loop) (ground arith)
    ]

parse_relative_name-Returns :
    (raw : Bytes) (idx name_end : ℕ)
    → Fits raw name_end
    → Returns (λ end. (idx + 2 ≤ end) × (end ≤ name_end)) (parse_relative_name raw idx name_end)
unfolding parse_relative_name
parse_relative_name-Returns raw idx name_end fits =
    Returns-bind _ _ (parse_data_element raw Tag.set idx name_end) _
      (parse_data_element-Returns raw idx name_end fits Tag.set)
      λ e _ h.
        Returns-bind _ _ (attribute_loop (suc e.content_end) raw e.idx 0 e.content_end) _
          (attribute_loop-Returns _ raw e.idx 0 e.content_end (Fits-le fits (ground arith))
            (ground arith) (ground arith) (ground arith) (ground arith))
          λ end _ k. Returns-check _ _ _ (ground arith) (ground arith)

name_loop-Returns :
    (fuel : ℕ) (raw : Bytes) (idx name_end : ℕ)
    → Fits raw name_end
    → idx ≤ name_end
    → name_end < fuel + idx
    → Returns (λ end. end ≡ name_end) (name_loop fuel raw idx name_end)
unfolding name_loop
name_loop-Returns zero raw idx name_end fits h enough = absurd (omega arith)
name_loop-Returns (suc fuel) raw idx name_end fits h enough = elim (Bool-cases (ltb idx name_end)) [
  | inl more ↦
      rw (more, name_loop)
        (Returns-bind _ _ (parse_relative_name raw idx name_end) _
          (parse_relative_name-Returns raw idx name_end fits)
          λ next _ k. name_loop-Returns fuel raw next name_end fits (ground arith) (ground arith))
  | inr done ↦ rw (done, name_loop) (ground arith)
]

pub parse_name-Returns :
    (raw : Bytes) (idx parent_end : ℕ)
    → Fits raw parent_end
    → Returns (λ end. (idx + 2 ≤ end) × (end ≤ parent_end)) (parse_name raw idx parent_end)
unfolding parse_name
parse_name-Returns raw idx parent_end fits =
    Returns-bind _ _ (parse_data_element raw Tag.sequence idx parent_end) _
      (parse_data_element-Returns raw idx parent_end fits Tag.sequence)
      λ e _ h.
        Returns-bind _ _ (name_loop (suc e.content_end) raw e.idx e.content_end) _
          (name_loop-Returns _ raw e.idx e.content_end (Fits-le fits (ground arith)) (ground arith)
            (ground arith))
          λ end _ k. Returns-check _ _ _ (ground arith) (ground arith)

-- The bounds of an algorithm identifier that starts at `idx`.
abbrev pub AlgBounds : ℕ → ℕ → AlgId → Type 0
AlgBounds idx parent_end a =
    (a.id_start ≡ idx)
    × (idx + 2 ≤ a.oid_start)
    × (a.oid_start ≤ a.oid_end)
    × (a.oid_end ≤ a.id_end)
    × (a.id_end ≤ parent_end)

pub parse_alg_id-Returns :
    (raw : Bytes) (idx parent_end : ℕ)
    → Fits raw parent_end
    → Returns (AlgBounds idx parent_end) (parse_alg_id raw idx parent_end)
unfolding parse_alg_id
parse_alg_id-Returns raw idx parent_end fits =
    Returns-bind _ _ (parse_data_element raw Tag.sequence idx parent_end) _
      (parse_data_element-Returns raw idx parent_end fits Tag.sequence)
      λ id _ h.
        Returns-bind _ _ (parse_data_element raw Tag.oid id.idx id.content_end) _
          (parse_data_element-Returns raw id.idx id.content_end (Fits-le fits (ground arith))
            Tag.oid)
          λ oid _ k. ground arith

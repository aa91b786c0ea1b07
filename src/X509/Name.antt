-- ===== src/X509/Name.antt =====
-- parse_name and parse_alg_id of src/x509.c.
pub mod Bounds
use simple_x509_authenticate.Common.{ℕ, zero, suc, Bool, true, false, Bytes, ltb, ◌==◌, ◌!=◌}
use simple_x509_authenticate.Common.Result.{
  Result, ok, err, abort, Fault, ◌>>=◌, ◌>>◌, refuse, check,
}
use simple_x509_authenticate.X509.Code.{Parse, trailing_data}
use simple_x509_authenticate.X509.Tag
use simple_x509_authenticate.X509.Der.{Content, AnyElement, parse_any, parse_data_element}

-- One AttributeTypeAndValue: the index behind its value, and its end, which are then the same.
unfoldable pub parse_attribute : Bytes → ℕ → ℕ → Parse (ℕ × ℕ)
parse_attribute raw idx relative_name_end = do
  attribute ← parse_data_element raw Tag.sequence idx relative_name_end
  type ← parse_data_element raw Tag.oid attribute.idx attribute.content_end
  value ← parse_any raw type.content_end attribute.content_end
  refuse (attribute.content_end != value.content_end) trailing_data
  ok (value.content_end, attribute.content_end)

-- `while (attribute_end < relative_name_end)`.
unfoldable pub attribute_loop : ℕ → Bytes → ℕ → ℕ → ℕ → Parse ℕ
attribute_loop zero raw idx attribute_end relative_name_end = abort Fault.out_of_fuel
attribute_loop (suc fuel) raw idx attribute_end relative_name_end =
    elim (ltb attribute_end relative_name_end) [
      | true ↦ do
        (next, end) ← parse_attribute raw idx relative_name_end
        attribute_loop fuel raw next end relative_name_end
      | false ↦ ok idx
    ]

-- One RelativeDistinguishedName: the index behind it. Its set may not be empty.
unfoldable pub parse_relative_name : Bytes → ℕ → ℕ → Parse ℕ
parse_relative_name raw idx name_end = do
  e ← parse_data_element raw Tag.set idx name_end
  end ← attribute_loop (suc e.content_end) raw e.idx 0 e.content_end
  check (end == e.content_end)
  ok end

-- `while (*idx < name_end)`.
unfoldable pub name_loop : ℕ → Bytes → ℕ → ℕ → Parse ℕ
name_loop zero raw idx name_end = abort Fault.out_of_fuel
name_loop (suc fuel) raw idx name_end = elim (ltb idx name_end) [
  | true ↦ do next ← parse_relative_name raw idx name_end; name_loop fuel raw next name_end
  | false ↦ ok idx
]

unfoldable pub parse_name : Bytes → ℕ → ℕ → Parse ℕ
parse_name raw idx parent_end = do
  e ← parse_data_element raw Tag.sequence idx parent_end
  end ← name_loop (suc e.content_end) raw e.idx e.content_end
  check (end == e.content_end)
  ok end

-- What parse_alg_id writes through its return pointers; the index goes to `id_end`.
pub record AlgId : Type 0 where
  pub id_start : ℕ
  pub id_end : ℕ
  pub oid_start : ℕ
  pub oid_end : ℕ

unfoldable pub parse_alg_id : Bytes → ℕ → ℕ → Parse AlgId
parse_alg_id raw idx parent_end = do
  id ← parse_data_element raw Tag.sequence idx parent_end
  oid ← parse_data_element raw Tag.oid id.idx id.content_end
  ok (record {
    id_start = idx;
    id_end = id.content_end;
    oid_start = oid.idx;
    oid_end = oid.content_end;
  })

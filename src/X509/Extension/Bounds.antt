-- ===== src/X509/Extension/Bounds.antt =====
-- The parsers of the extensions never abort, and keep the bounds of the fields.
use simple_x509_authenticate.Common.{
  ℕ, zero, suc, ◌+◌, ◌≤◌, ◌<◌, ◌≡◌, inl, inr, Bytes, add64, sub64, arith, ltb, ◌==◌, ◌!=◌,
  Bool-cases, if◌then◌else◌,
}
use simple_x509_authenticate.Common.Result.{Returns, Returns-bind, Returns-mono}
use simple_x509_authenticate.Common.Buffer.{
  Returns-refuse, Returns-check, Returns-if, Returns-read, read_bytes, read_bytes-length,
}
use simple_x509_authenticate.X509.Code.{ParseCode}
use simple_x509_authenticate.X509.Tag
use simple_x509_authenticate.X509.Der.{
  Content, idx_none, parse_data_element, parse_optional_data, parse_default_bool,
}
use simple_x509_authenticate.X509.Der.Bounds.{
  Fits, Fits-le, Within, Optional, parse_data_element-Returns, parse_optional_data-Returns,
  parse_default_bool-Returns,
}
use simple_x509_authenticate.X509.Fields.{X509Fields}
use simple_x509_authenticate.X509.Fields.Bounds.{TbsBounds}
use simple_x509_authenticate.X509.Extension.{
  after_optional, path_len_loop, path_len_value, parse_path_len, parse_basic_constraint, parse_akid,
  parse_skid, second_usage, parse_key_usage, official_purpose, parse_purpose, purpose_loop,
  parse_ext_key_usage,
}

pub after_optional_bounds :
    (idx parent_end : ℕ) (e : Content)
    → idx ≤ parent_end
    → Optional idx parent_end idx_none e
    → (idx ≤ after_optional e) × (after_optional e ≤ parent_end)
after_optional_bounds idx parent_end e h o = ground arith

path_len_loop-Returns :
    (fuel : ℕ) (raw : Bytes) (idx path_end value : ℕ)
    → Fits raw path_end
    → idx ≤ path_end
    → path_end < fuel + idx
    → Returns (λ n. Unit {0}) (path_len_loop fuel raw idx path_end value)
unfolding path_len_loop
path_len_loop-Returns zero raw idx path_end value fits h enough = absurd (omega arith)
path_len_loop-Returns (suc fuel) raw idx path_end value fits h enough =
    elim (Bool-cases (ltb idx path_end)) [
      | inl more ↦
          rw (more, path_len_loop)
            (Returns-read _ raw idx _ (ground arith) λ b _.
              path_len_loop-Returns fuel raw (add64 idx 1) path_end _ fits (ground arith)
                (ground arith))
      | inr done ↦ rw (done, path_len_loop) tt
    ]

-- The bounds, and where the key identifier of the authority starts, which only parse_akid changes.
abbrev pub Keeps : ℕ → ℕ → ℕ → X509Fields → Type 0
Keeps lo hi start f = TbsBounds lo hi f × (f.akid_start ≡ start)

module _ (lo hi start : ℕ) (raw : Bytes) (fields : X509Fields)
    (old : Keeps lo hi start fields) where
  path_len_value-Returns :
      (idx parent_end : ℕ) (e : Content)
      → Fits raw parent_end
      → Within idx parent_end e.idx e.content_end
      → Returns
          (λ r. (idx ≤ r.0) × (r.0 ≤ parent_end) × Keeps lo hi start r.1)
          (path_len_value raw e fields)
  unfolding path_len_value
  path_len_value-Returns idx parent_end e fits h = Returns-refuse _ _ _ _ λ some_left.
      Returns-read _ raw e.idx _ (ground arith) λ first _. Returns-refuse _ _ _ _ λ _.
        Returns-bind _ _ (path_len_loop (suc e.content_end) raw e.idx e.content_end _) _
          (path_len_loop-Returns _ raw e.idx e.content_end _ (Fits-le fits (ground arith))
            (ground arith) (ground arith))
          λ n _ _. (ground arith, ground arith, ground arith)

  parse_path_len-Returns :
      (idx constraint_end : ℕ)
      → Fits raw constraint_end
      → idx ≤ constraint_end
      → Returns
          (λ r. (idx ≤ r.0) × (r.0 ≤ constraint_end) × Keeps lo hi start r.1)
          (parse_path_len raw idx constraint_end fields)
  unfolding parse_path_len
  parse_path_len-Returns idx constraint_end fits from =
      Returns-bind _ _ (parse_optional_data raw Tag.integer idx constraint_end idx_none) _
        (parse_optional_data-Returns raw idx constraint_end fits Tag.integer idx_none)
        λ e _ h.
          Returns-if _ (e.content_end != idx_none) _ _
            (λ found. path_len_value-Returns idx constraint_end e fits (ground arith))
            (λ missing. (ground arith, ground arith, ground arith))

module _ (lo hi start : ℕ) (raw : Bytes) (idx extn_end : ℕ) (fields : X509Fields)
    (old : Keeps lo hi start fields) (fits : Fits raw extn_end) where
  pub parse_basic_constraint-Returns :
      Returns (Keeps lo hi start) (parse_basic_constraint raw idx extn_end fields)
  unfolding parse_basic_constraint
  parse_basic_constraint-Returns =
      Returns-bind _ _ (parse_data_element raw Tag.sequence idx extn_end) _
        (parse_data_element-Returns raw idx extn_end fits Tag.sequence)
        λ e _ h.
          let inner : Fits raw e.content_end = Fits-le fits (ground arith) in
          Returns-bind _ _ (parse_default_bool raw e.idx e.content_end) _
            (parse_default_bool-Returns raw e.idx e.content_end inner (ground arith))
            λ p _ k.
              Returns-bind (λ r. Keeps lo hi start r.1) _ _ _
                (Returns-if _ p.1 _ _
                  (λ ca.
                    Returns-mono _ _ (parse_path_len raw p.0 e.content_end _) (λ r b. b.2)
                      (parse_path_len-Returns lo hi start raw _ (ground arith) p.0 e.content_end
                        inner (ground arith)))
                  (λ no_ca. ground arith))
                λ r _ b. Returns-refuse _ _ _ _ λ _. b

  pub parse_skid-Returns :
      lo ≤ idx → extn_end ≤ hi → Returns (Keeps lo hi start) (parse_skid raw idx extn_end fields)
  unfolding parse_skid
  parse_skid-Returns from to =
      Returns-bind _ _ (parse_data_element raw Tag.octet_string idx extn_end) _
        (parse_data_element-Returns raw idx extn_end fits Tag.octet_string)
        λ e _ h. Returns-refuse _ _ _ _ λ _. ground arith

module _ (lo hi start : ℕ) (raw : Bytes) (idx extn_end : ℕ) (fits : Fits raw extn_end) where
  second_usage-Returns :
      (e : Content) (fields : X509Fields)
      → Keeps lo hi start fields
      → Within idx extn_end e.idx e.content_end
      → Returns (Keeps lo hi start) (second_usage raw e fields)
  unfolding second_usage
  second_usage-Returns e fields old h =
      Returns-if _ (ltb (add64 e.idx 2) e.content_end) _ _
        (λ more. Returns-read _ raw (add64 e.idx 2) _ (ground arith) λ b _. ground arith)
        (λ done. old)

  pub parse_key_usage-Returns :
      (fields : X509Fields)
      → Keeps lo hi start fields
      → Returns (Keeps lo hi start) (parse_key_usage raw idx extn_end fields)
  unfolding parse_key_usage
  parse_key_usage-Returns fields old =
      Returns-bind _ _ (parse_data_element raw Tag.bitstring idx extn_end) _
        (parse_data_element-Returns raw idx extn_end fits Tag.bitstring)
        λ e _ h. Returns-refuse _ _ _ _ λ two. Returns-refuse _ _ _ _ λ three.
          Returns-read _ raw e.idx _ (ground arith) λ unused _. Returns-refuse _ _ _ _ λ _.
            Returns-read _ raw (sub64 e.content_end 1) _ (ground arith) λ last _.
              Returns-refuse _ _ _ _ λ _.
                Returns-read _ raw (add64 e.idx 1) _ (ground arith)
                  λ first _. second_usage-Returns e _ (ground arith) h

  parse_purpose-Returns :
      (e : Content) (flags : ℕ)
      → Within idx extn_end e.idx e.content_end
      → Returns (λ f. Unit {0}) (parse_purpose raw e flags)
  unfolding parse_purpose official_purpose
  parse_purpose-Returns e flags h =
      Returns-if _ (sub64 e.content_end e.idx == 8) _ _
        (λ eight.
          Returns-bind _ _ (read_bytes 7 raw e.idx) _
            (read_bytes-length ParseCode 7 raw e.idx (ground arith))
            λ prefix _ _. Returns-read _ raw (sub64 e.content_end 1) _ (ground arith) λ last _. tt)
        (λ other. tt)

purpose_loop-Returns :
    (fuel : ℕ) (raw : Bytes) (idx usage_end flags : ℕ)
    → Fits raw usage_end
    → idx ≤ usage_end
    → usage_end < fuel + idx
    → Returns (λ r. r.0 ≡ usage_end) (purpose_loop fuel raw idx usage_end flags)
unfolding purpose_loop
purpose_loop-Returns zero raw idx usage_end flags fits h enough = absurd (omega arith)
purpose_loop-Returns (suc fuel) raw idx usage_end flags fits h enough =
    elim (Bool-cases (ltb idx usage_end)) [
      | inl more ↦
          rw (more, purpose_loop)
            (Returns-bind _ _ (parse_data_element raw Tag.oid idx usage_end) _
              (parse_data_element-Returns raw idx usage_end fits Tag.oid)
              λ e _ w.
                Returns-bind _ _ (parse_purpose raw e flags) _
                  (parse_purpose-Returns 0 0 0 raw idx usage_end fits e flags w)
                  λ added _ _.
                    purpose_loop-Returns fuel raw e.content_end usage_end added fits (ground arith)
                      (ground arith))
      | inr done ↦ rw (done, purpose_loop) (ground arith)
    ]

pub parse_ext_key_usage-Returns :
    (lo hi start : ℕ) (raw : Bytes) (idx extn_end : ℕ) (fields : X509Fields)
    → Keeps lo hi start fields
    → Fits raw extn_end
    → Returns (Keeps lo hi start) (parse_ext_key_usage raw idx extn_end fields)
unfolding parse_ext_key_usage
parse_ext_key_usage-Returns lo hi start raw idx extn_end fields old fits =
    Returns-bind _ _ (parse_data_element raw Tag.sequence idx extn_end) _
      (parse_data_element-Returns raw idx extn_end fits Tag.sequence)
      λ seq _ h. Returns-refuse _ _ _ _ λ _.
        Returns-bind _ _ (purpose_loop (suc seq.content_end) raw seq.idx seq.content_end _) _
          (purpose_loop-Returns _ raw seq.idx seq.content_end _ (Fits-le fits (ground arith))
            (ground arith) (ground arith))
          λ r _ end. Returns-check _ _ _ (ground arith) (ground arith)

-- If parse_akid finds no key identifier it leaves akid_start alone, so that must not be set yet.
akid_bounds :
    (lo hi parent_start parent_end : ℕ) (fields : X509Fields) (key : Content)
    → TbsBounds lo hi fields
    → fields.akid_start ≡ 0
    → lo ≤ parent_start
    → parent_end ≤ hi
    → Optional parent_start parent_end idx_none key
    → TbsBounds lo hi (record fields {
      akid_end = key.content_end;
      akid_start = if key.content_end != idx_none then key.idx else fields.akid_start;
    })
akid_bounds lo hi parent_start parent_end fields key old unset from to h = ground arith

module _ (lo hi : ℕ) (raw : Bytes) (idx extn_end : ℕ) (fields : X509Fields)
    (old : TbsBounds lo hi fields) (fits : Fits raw extn_end) where
  pub parse_akid-Returns :
      lo ≤ idx
      → extn_end ≤ hi
      → fields.akid_start ≡ 0
      → Returns (TbsBounds lo hi) (parse_akid raw idx extn_end fields)
  unfolding parse_akid
  parse_akid-Returns from to unset =
      Returns-bind _ _ (parse_data_element raw Tag.sequence idx extn_end) _
        (parse_data_element-Returns raw idx extn_end fits Tag.sequence)
        λ seq _ h. Returns-refuse _ _ _ _ λ _.
          let inner : Fits raw seq.content_end = Fits-le fits (ground arith) in
          Returns-bind _ _ (parse_optional_data raw _ seq.idx seq.content_end idx_none) _
            (parse_optional_data-Returns raw seq.idx _ inner Tag.implicit_0 idx_none)
            λ key _ k.
              Returns-bind _ _
                (parse_optional_data raw _ (after_optional key) seq.content_end idx_none) _
                (parse_optional_data-Returns raw (after_optional key) _ inner _ idx_none)
                λ aci _ a.
                  Returns-bind _ _
                    (parse_optional_data raw _ (after_optional aci) seq.content_end idx_none) _
                    (parse_optional_data-Returns raw (after_optional aci) _ inner _ idx_none)
                    λ acsn _ c. Returns-refuse _ _ _ _ λ _.
                      akid_bounds lo hi seq.idx extn_end fields key old unset (ground arith) to
                        (ground arith)

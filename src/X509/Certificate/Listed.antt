-- ===== src/X509/Certificate/Listed.antt =====
-- The list of extensions that the loop over them in parse_x509 accepts.
use simple_x509_authenticate.Common.{
  ℕ, zero, suc, ◌+◌, ◌≤◌, ◌≡◌, ◌≢◌, refl, subst, ◌∙◌, inl, inr, Bool, true, false, Bytes, List, [],
  ◌∷◌, ◌++◌, length, length-append, sub64, ltb, All, Bool-cases, arith,
}
use simple_x509_authenticate.Common.Result.{
  Result, ok, err, abort, check, ◌>>=◌, Returns, Returns-mono, Allows, Allows-bind, Allows-any,
  Allows-refuse, Returns-Allows,
}
use simple_x509_authenticate.Common.Buffer.{read_bytes, memeq}
use simple_x509_authenticate.X509.Tag
use simple_x509_authenticate.X509.Der.{Content, parse_data_element}
use simple_x509_authenticate.X509.Der.Bounds.{Fits}
use simple_x509_authenticate.X509.Fields.Bounds.{TbsBounds}
use simple_x509_authenticate.X509.Code.{ParseCode}
use simple_x509_authenticate.X509.Fields.{X509Fields}
use simple_x509_authenticate.X509.Extension.{supported_extns}
use simple_x509_authenticate.X509.Certificate.{
  max_extn, Extension, parse_extension, seen_oid, apply_supported, extension_round, extension_loop,
  parse_extensions,
}
use simple_x509_authenticate.X509.Certificate.Extensions.{seen_oid-concat, parse_extensions-Returns}
use simple_x509_authenticate.X509.Certificate.Handled.{
  Handled, Sorted, different, apply_supported-Sorted,
}

-- The bytes of the oid.
abbrev pub Reads : Bytes → Extension → Bytes → Type 0
Reads raw x oid = read_bytes {E = ParseCode} (sub64 x.oid_end x.oid_start) raw x.oid_start ≡ ok oid

-- Extensions with their oids, one behind the other from `idx` to `extensions_end`, and what they
-- make of the fields.
abbrev pub Chain : Bytes → ℕ → ℕ → X509Fields → List (Extension × Bytes) → ℕ → X509Fields → Type 0
Chain raw extensions_end idx before [] end after = (end ≡ idx) × (after ≡ before)
Chain raw extensions_end idx before ((x, oid) ∷ xs) end after =
    (parse_extension raw idx extensions_end ≡ ok x)
    × Reads raw x oid
    × ((mid : X509Fields) × Handled raw supported_extns x oid before mid
        × Chain raw extensions_end x.extn_end mid xs end after)

-- No two are the same.
abbrev pub Distinct : List (Extension × Bytes) → Type 0
Distinct [] = Unit {0}
Distinct ((x, oid) ∷ xs) = All (λ y. oid ≢ y.1) xs × Distinct xs

abbrev New : List Bytes → List (Extension × Bytes) → Type 0
New seen xs = All (λ y. seen_oid seen y.1 ≡ false) xs

-- What the loop accepts from a round on.
record Rest (raw : Bytes) (extensions_end idx : ℕ) (seen : List Bytes) (before : X509Fields)
    (r : ℕ × X509Fields) : Type 0 where
  xs : List (Extension × Bytes)
  chain : Chain raw extensions_end idx before xs r.0 r.1
  distinct : Distinct xs
  new : New seen xs
  few : length seen + length xs ≤ max_extn

New-concat :
    (seen : List Bytes) (oid : Bytes) (xs : List (Extension × Bytes))
    → New (seen ++ oid ∷ []) xs
    → New seen xs × All (λ y. oid ≢ y.1) xs
New-concat seen oid [] new = (tt, tt)
New-concat seen oid ((x, o) ∷ xs) (h, new) =
    let (older, others) = New-concat seen oid xs new in
    let joined = seen_oid-concat seen oid o in
    let not_seen : seen_oid seen o ≡ false = ground arith in
    let not_same : memeq oid o ≡ false = ground arith in
    ((not_seen, older), (different oid o not_same, others))

module _ (raw : Bytes) (extensions_end : ℕ) where
  abbrev Round : ℕ → List Bytes → X509Fields → ℕ × Bytes × X509Fields → Type 0
  Round idx seen before r =
      (x : Extension) × (parse_extension raw idx extensions_end ≡ ok x)
      × (r.0 ≡ x.extn_end)
      × Reads raw x r.1
      × (seen_oid seen r.1 ≡ false)
      × Handled raw supported_extns x r.1 before r.2

  extension_round-Round :
      (idx : ℕ) (seen : List Bytes) (fields : X509Fields)
      → Allows (Round idx seen fields) (extension_round raw idx extensions_end seen fields)
  unfolding extension_round
  extension_round-Round idx seen fields =
      let R = Round idx seen fields in
      Allows-bind (λ _. Unit {0}) R (parse_extension raw idx extensions_end) _ (Allows-any _)
        λ x there _.
          Allows-bind (λ _. Unit {0}) R (read_bytes (sub64 x.oid_end x.oid_start) raw x.oid_start) _
            (Allows-any _)
            λ oid reads _. Allows-refuse R _ _ _ λ fresh.
              Allows-bind (Sorted raw supported_extns x oid fields) R
                (apply_supported supported_extns raw oid x fields) _
                (apply_supported-Sorted raw oid x fields supported_extns)
                λ r _ sorted.
                  Allows-refuse R _ _ _ λ found. (x, there, refl, reads, fresh, sorted found)

  extension_loop-Rest :
      (fuel idx : ℕ) (seen : List Bytes) (fields : X509Fields)
      → length seen ≤ max_extn
      → Allows
          (Rest raw extensions_end idx seen fields)
          (extension_loop fuel raw idx extensions_end seen fields)
  unfolding extension_loop
  extension_loop-Rest zero idx seen fields few = tt
  extension_loop-Rest (suc fuel) idx seen fields few =
      let Q = Rest raw extensions_end idx seen fields in
      elim (Bool-cases (ltb idx extensions_end)) [
        | inl more ↦
            rw (more, extension_loop)
              (Allows-refuse Q _ _ _ λ room.
                Allows-bind (Round idx seen fields) Q
                  (extension_round raw idx extensions_end seen fields) _
                  (extension_round-Round idx seen fields)
                  λ r _ round.
                    let joined = length-append seen (r.1 ∷ []) in
                    keep r round (extension_loop fuel raw r.0 extensions_end (seen ++ r.1 ∷ []) r.2)
                      (extension_loop-Rest fuel r.0 (seen ++ r.1 ∷ []) r.2 (ground arith)))
        | inr done ↦
            rw (done, extension_loop)
              (record { xs = []; chain = (refl, refl); distinct = tt; new = tt; few = omega arith })
      ]
    where
      keep :
          (r : ℕ × Bytes × X509Fields)
          → Round idx seen fields r
          → (m : Result ParseCode (ℕ × X509Fields))
          → Allows (Rest raw extensions_end r.0 (seen ++ r.1 ∷ []) r.2) m
          → Allows (Rest raw extensions_end idx seen fields) m
      keep (next, oid, mid) (x, there, e, reads, fresh, handled) (ok s) rest =
          let (older, others) = New-concat seen oid rest.xs rest.new in
          let joined = length-append seen (oid ∷ []) in
          let few = rest.few in
          record {
            xs = (x, oid) ∷ rest.xs;
            chain = (
              there,
              reads,
              (
                mid,
                handled,
                subst (λ i. Chain raw extensions_end i mid rest.xs s.0 s.1) e rest.chain,
              ),
            );
            distinct = (others, rest.distinct);
            new = (fresh, older);
            few = omega arith;
          }
      keep r round (err e) rest = tt
      keep r round (abort e) rest = tt

-- What parse_extensions accepts of the element `e`.
pub record Listed (raw : Bytes) (e : Content) (fields : X509Fields) (r : ℕ × X509Fields)
    : Type 0 where
  pub list : Content
  pub there : parse_data_element raw Tag.sequence e.idx e.content_end ≡ ok list
  pub whole : list.content_end ≡ e.content_end
  pub xs : List (Extension × Bytes)
  pub chain : Chain raw e.content_end list.idx fields xs e.content_end r.1
  pub distinct : Distinct xs
  pub few : length xs ≤ max_extn
  pub end : r.0 ≡ e.content_end

Allows-check :
    (Q : ℕ × X509Fields → Type 0) (b : Bool) (f : Unit {0} → Result ParseCode (ℕ × X509Fields))
    → (b ≡ true → Allows Q (f tt))
    → Allows Q (check b >>= f)
unfolding check
Allows-check Q true f h = h refl
Allows-check Q false f h = tt

parse_extensions-Allows :
    (raw : Bytes) (e : Content) (fields : X509Fields)
    → Allows (Listed raw e fields) (parse_extensions raw e fields)
unfolding parse_extensions
parse_extensions-Allows raw e fields =
    let L = Listed raw e fields in
    Allows-bind (λ _. Unit {0}) L (parse_data_element raw Tag.sequence e.idx e.content_end) _
      (Allows-any _)
      λ list there _. Allows-refuse L _ _ _ λ trailing.
        let whole : list.content_end ≡ e.content_end = ground arith in
        Allows-bind (Rest raw list.content_end list.idx [] fields) L
          (extension_loop (suc list.content_end) raw list.idx list.content_end [] fields) _
          (extension_loop-Rest raw list.content_end (suc list.content_end) list.idx [] fields
            (omega arith))
          λ r _ rest. Allows-check L _ _ λ ends.
            let at_end : r.0 ≡ list.content_end = ground arith in
            record {
              list = list;
              there = there;
              whole = whole;
              xs = rest.xs;
              chain =
                  subst (λ i. Chain raw i list.idx fields rest.xs i r.1) whole
                    (subst (λ i. Chain raw list.content_end list.idx fields rest.xs i r.1) at_end
                      rest.chain);
              distinct = rest.distinct;
              few = let few = rest.few in omega arith;
              end = at_end ∙ whole;
            }

-- On the element that holds the extensions parse_extensions reads no byte outside of the
-- certificate, and no assert fails. If it accepts, the element is one sequence and nothing else, and
-- this is a row of at most 64 extensions, each beginning where the one before it ends, the first at
-- the beginning of the sequence and the last ending at its end; no two of them have the same oid;
-- each has an oid of a supported extension, and the criticality that is prescribed for this, if one
-- is, or is not critical; and the fields are what the parsers of the supported ones make of the
-- given ones, one after the other, and nothing else.
pub parse_extensions-Listed :
    (lo hi : ℕ) (raw : Bytes) (e : Content) (fields : X509Fields)
    → Fits raw e.content_end
    → lo ≤ e.idx
    → e.content_end ≤ hi
    → TbsBounds lo hi fields
    → fields.akid_start ≡ 0
    → Returns (Listed raw e fields) (parse_extensions raw e fields)
parse_extensions-Listed lo hi raw e fields fits from to old unset =
    Returns-mono _ (Listed raw e fields) (parse_extensions raw e fields) (λ r both. both.1)
      (Returns-Allows _ (Listed raw e fields) (parse_extensions raw e fields)
        (parse_extensions-Returns lo hi raw e fields fits from to old unset)
        (parse_extensions-Allows raw e fields))

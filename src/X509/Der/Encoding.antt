-- ===== src/X509/Der/Encoding.antt =====
-- The DER encoding of a header, from the standard: the shortest form of the length. It is the
-- independent description that parse_any is held against.
use simple_x509_authenticate.Common.{
  ℕ, zero, suc, ◌+◌, ◌*◌, ◌/◌, ◌%◌, ◌≤◌, ◌<◌, ◌≡◌, refl, ap, ap₂, Bytes, IsByte, [], ◌∷◌, All,
  length, ltb, ◌==◌, if◌then◌else◌, arith, ◌∙◌,
}
use native.Mathlib.Nat.{
  mul-add-div_right, mul-add-mod_self_right, div-eq_of_lt, mod-eq_of_lt, mod-lt, div-add-mod',
  div-lt_iff_lt-mul,
}

abbrev pub pow256 : ℕ → ℕ
pow256 zero = 1
pow256 (suc n) = pow256 n * 256

-- The `n` octets of `v`, the highest first.
unfoldable pub be_octets : ℕ → ℕ → Bytes
be_octets zero v = []
be_octets (suc n) v = v / pow256 n ∷ be_octets n (v % pow256 n)

-- The number that octets stand for, behind a number that was read before.
abbrev pub be_value : ℕ → Bytes → ℕ
be_value v [] = v
be_value v (b ∷ bs) = be_value (v * 256 + b) bs

-- How many octets `v` needs, up to `fuel`.
unfoldable pub octet_count : ℕ → ℕ → ℕ
octet_count zero v = 0
octet_count (suc fuel) v = if v == 0 then 0 else suc (octet_count fuel (v / 256))

unfoldable pub encode_length : ℕ → Bytes
encode_length v =
    if ltb v 128 then v ∷ [] else (128 + octet_count 8 v) ∷ be_octets (octet_count 8 v) v

unfoldable pub encode_header : ℕ → ℕ → Bytes
encode_header identifier size = identifier ∷ encode_length size

pub pow256_pos : (n : ℕ) → 0 < pow256 n
pow256_pos zero = omega arith
pow256_pos (suc n) = omega (arith, pow256_pos n)

div_digit : (b w p : ℕ) → w < p → (b * p + w) / p ≡ b
div_digit b w p h = mul-add-div_right (omega (arith, h)) b w ∙ omega (arith, div-eq_of_lt h)

mod_digit : (b w p : ℕ) → w < p → (b * p + w) % p ≡ w
mod_digit b w p h = mul-add-mod_self_right b p w ∙ mod-eq_of_lt h

be_value-split : (v : ℕ) (bs : Bytes) → be_value v bs ≡ v * pow256 (length bs) + be_value 0 bs
be_value-split v [] = omega arith
be_value-split v (b ∷ bs) =
    omega (arith, be_value-split (v * 256 + b) bs, be_value-split (0 * 256 + b) bs)

pub be_value_cons :
    (b : ℕ) (bs : Bytes) → be_value 0 (b ∷ bs) ≡ b * pow256 (length bs) + be_value 0 bs
be_value_cons b bs = be_value-split (0 * 256 + b) bs ∙ omega arith

pub be_value-lt : (bs : Bytes) → All IsByte bs → be_value 0 bs < pow256 (length bs)
be_value-lt [] h = omega arith
be_value-lt (b ∷ bs) (hb, h) =
    let p = pow256 (length bs) in rw be_value_cons (grind (arith, be_value-lt bs h))

-- Octets are read back from their number.
pub be_octets-be_value : (bs : Bytes) → All IsByte bs → be_octets (length bs) (be_value 0 bs) ≡ bs
unfolding be_octets
be_octets-be_value [] h = refl
be_octets-be_value (b ∷ bs) (hb, h) =
    let lt = be_value-lt bs h in
    rw be_value_cons (
      ap₂ ◌∷◌ (div_digit b (be_value 0 bs) (pow256 (length bs)) lt)
        (rw (mod_digit b (be_value 0 bs) (pow256 (length bs)) lt) (be_octets-be_value bs h)))

pub length-be_octets : (n v : ℕ) → length (be_octets n v) ≡ n
unfolding be_octets
length-be_octets zero v = refl
length-be_octets (suc n) v = ap suc (length-be_octets n (v % pow256 n))

-- And a number from its octets.
pub be_value-be_octets : (n v : ℕ) → v < pow256 n → be_value 0 (be_octets n v) ≡ v
unfolding be_octets
be_value-be_octets zero v h = omega arith
be_value-be_octets (suc n) v h =
    be_value_cons (v / pow256 n) (be_octets n (v % pow256 n))
    ∙ rw (length-be_octets, be_value-be_octets n (v % pow256 n) (mod-lt v (pow256_pos n)))
        (div-add-mod' v (pow256 n))

pub be_octets-IsByte : (n v : ℕ) → v < pow256 n → All IsByte (be_octets n v)
unfolding be_octets
be_octets-IsByte zero v h = tt
be_octets-IsByte (suc n) v h = (
  (div-lt_iff_lt-mul (pow256_pos n)).1 (omega arith),
  be_octets-IsByte n (v % pow256 n) (mod-lt v (pow256_pos n)),
)

-- A number between two powers has the number of octets that lies between them.
pub octet_count_lem :
    (fuel n v : ℕ) → n < fuel → pow256 n ≤ v → v < pow256 (suc n) → octet_count fuel v ≡ suc n
unfolding octet_count
octet_count_lem zero n v h lo hi = absurd (omega arith)
octet_count_lem (suc zero) zero v h lo hi = ground arith
octet_count_lem (suc (suc fuel)) zero v h lo hi = ground arith
octet_count_lem (suc fuel) (suc n) v h lo hi =
    ground (arith, pow256_pos n, octet_count_lem fuel n (v / 256))

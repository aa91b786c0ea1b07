-- ===== src/X509/Der/Octets.antt =====
-- What the loop of parse_any over the length octets has read.
use simple_x509_authenticate.Common.{
  ℕ, zero, suc, ◌+◌, ◌*◌, ◌%◌, ◌^◌, ◌≤◌, ◌<◌, ◌≡◌, refl, sym, ap, ◌∙◌, Bytes, IsByte, [], ◌∷◌, ◌++◌,
  All, All-get_elem?, length, drop, drop-cons, add64, arith, get_elem?, some,
}
use native.Mathlib.Nat.{mul-le-mul_right, mul-le-mul_left}
use simple_x509_authenticate.Common.Bits.{bit_or_byte}
use simple_x509_authenticate.Common.Result.{Returns, Returns-mono}
use simple_x509_authenticate.Common.Buffer.{Returns-read}
use simple_x509_authenticate.X509.Der.{Length, read_octets}
use simple_x509_authenticate.X509.Der.Bounds.{Fits}
use simple_x509_authenticate.X509.Der.Encoding.{pow256, pow256_pos, be_value}

-- What the loop over `n` octets has read.
pub record Octets (n : ℕ) (raw : Bytes) (idx v : ℕ) (l : Length) : Type 0 where
  pub octets : Bytes
  pub count : length octets ≡ n
  pub bytes : All IsByte octets
  pub here : drop idx raw ≡ octets ++ drop (n + idx) raw
  pub value : l.length ≡ be_value v octets
  pub behind : l.idx ≡ n + idx

-- One more octet in front.
Octets-cons :
    (n : ℕ) (raw : Bytes) (idx v b : ℕ) (l : Length)
    → get_elem? raw idx ≡ some b
    → b < 256
    → Octets n raw (suc idx) (v * 256 + b) l
    → Octets (suc n) raw idx v l
Octets-cons n raw idx v b l at byte o =
    let e : suc n + idx ≡ n + suc idx = omega arith in
    record {
      octets = b ∷ o.octets;
      count = ap suc o.count;
      bytes = (byte, o.bytes);
      here = drop-cons raw idx at ∙ ap (◌∷◌ b) (rw e o.here);
      value = o.value;
      behind = o.behind ∙ sym e;
    }

-- The room that is left after a digit is shifted in.
shift_room :
    (v b p bound : ℕ)
    → 0 < p
    → b < 256
    → (v + 1) * (p * 256) ≤ bound
    → (v * 256 < bound) × ((v * 256 + b + 1) * p ≤ bound)
shift_room v b p bound pos byte h =
    let up : (v + 1) * 256 * 1 ≤ (v + 1) * 256 * p = mul-le-mul_left ((v + 1) * 256) pos in
    let le : v * 256 + b + 1 ≤ (v + 1) * 256 = omega arith in
    let digits : (v * 256 + b + 1) * p ≤ (v + 1) * 256 * p = mul-le-mul_right p le in
    (omega arith, omega arith)

pub read_octets-Octets :
    (n : ℕ) (raw : Bytes) (idx v : ℕ)
    → Fits raw (n + idx)
    → (v + 1) * pow256 n ≤ 2 ^ 64
    → Returns (Octets n raw idx v) (read_octets n raw idx v)
unfolding read_octets
read_octets-Octets zero raw idx v fits room =
    let e : 0 + idx ≡ idx = omega arith in
    record {
      octets = [];
      count = refl;
      bytes = tt;
      here = rw e;
      value = refl;
      behind = omega arith;
    }
read_octets-Octets (suc n) raw idx v fits room =
    Returns-read _ raw idx _ (omega (arith, fits.inside)) λ b at.
      let byte : b < 256 = All-get_elem? IsByte raw idx fits.bytes at in
      let small = fits.small in
      let inside = fits.inside in
      let step : add64 idx 1 ≡ suc idx = omega arith in
      let (below, left) = shift_room v b (pow256 n) (2 ^ 64) (pow256_pos n) byte room in
      let shifted : v * 256 % 2 ^ 64 ≡ v * 256 = omega arith in
      let later : Fits raw (n + suc idx) = record {
        small = fits.small;
        inside = omega arith;
        bytes = fits.bytes;
      } in
      rw (step, shifted, bit_or_byte v b byte)
        (Returns-mono _ _ (read_octets n raw (suc idx) (v * 256 + b))
          (λ l o. Octets-cons n raw idx v b l at byte o)
          (read_octets-Octets n raw (suc idx) (v * 256 + b) later left))

-- ===== src/Server/Connections/Table.antt =====
-- How many connections of the table are in use, and what the two searches find.
use simple_x509_authenticate.Common.{
  ℕ, zero, suc, ◌+◌, ◌≤◌, ◌≡◌, refl, ap, ◌∙◌, ◌⊎◌, inl, inr, Bool, true, false, List, [], ◌∷◌,
  Option, none, some, length, get_elem?, set, All, ◌&&◌, Bool-cases, arith,
}
use simple_x509_authenticate.Common.Int.{ℤ, ltb_ℤ}
use simple_x509_authenticate.Server.Connections.{Connection, is_used, oldest, unused}

abbrev pub one_if : Bool → ℕ
one_if true = 1
one_if false = 0

unfoldable pub count_used : List Connection → ℕ
count_used [] = 0
count_used (conn ∷ conns) = one_if (is_used conn) + count_used conns

pub count_used-set :
    (conns : List Connection) (i : ℕ) (conn changed : Connection)
    → get_elem? conns i ≡ some conn
    → count_used (set conns i changed) + one_if (is_used conn)
      ≡ count_used conns + one_if (is_used changed)
unfolding count_used
count_used-set [] i conn changed at = cc
count_used-set (c ∷ conns) zero conn changed at = let same : c ≡ conn = cc in rw same (omega arith)
count_used-set (c ∷ conns) (suc i) conn changed at =
    omega (arith, count_used-set conns i conn changed at)

pub count_used-le : (conns : List Connection) → count_used conns ≤ length conns
unfolding count_used
count_used-le [] = omega arith
count_used-le (c ∷ conns) = elim (Bool-cases (is_used c)) [
  | inl used ↦ rw used (omega (arith, count_used-le conns))
  | inr free ↦ rw free (omega (arith, count_used-le conns))
]

-- What `unused` found, from the index `i` on.
abbrev pub FoundUnused : List Connection → ℕ → Option (ℕ × Connection) → Type 0
FoundUnused conns i none = count_used conns ≡ length conns
FoundUnused conns i (some (j, conn)) =
    (k : ℕ) × (j ≡ i + k) × (get_elem? conns k ≡ some conn) × (is_used conn ≡ false)

FoundUnused-cons :
    (c : Connection) (conns : List Connection) (i : ℕ) (found : Option (ℕ × Connection))
    → is_used c ≡ true
    → FoundUnused conns (suc i) found
    → FoundUnused (c ∷ conns) i found
unfolding count_used
FoundUnused-cons c conns i none used h = rw used (omega (arith, h))
FoundUnused-cons c conns i (some (j, conn)) used (k, e, at, free) = (suc k, omega arith, at, free)

pub unused-FoundUnused : (conns : List Connection) (i : ℕ) → FoundUnused conns i (unused conns i)
unfolding unused count_used
unused-FoundUnused [] i = refl
unused-FoundUnused (c ∷ conns) i = elim (Bool-cases (is_used c)) [
  | inl used ↦
      rw (used, unused) (FoundUnused-cons c conns i _ used (unused-FoundUnused conns (suc i)))
  | inr free ↦ rw (free, unused) (0, omega arith, refl, free)
]

-- The connection was opened at `t` or later, if it is in use.
abbrev pub Since : ℤ → Connection → Type 0
Since t conn = is_used conn ≡ true → ltb_ℤ conn.open_time t ≡ false

-- A connection in use, and none in use was opened before it.
pub record IsOldest (conns : List Connection) (k : ℕ) (conn : Connection) : Type 0 where
  pub at : get_elem? conns k ≡ some conn
  pub used : is_used conn ≡ true
  pub first : All (Since conn.open_time) conns

-- What `oldest` found: what was known already, or a connection that was opened before `t`.
abbrev pub FoundOldest : List Connection → ℕ → ℤ → Option ℕ → Option ℕ → Type 0
FoundOldest conns i t known found =
    ((found ≡ known) × All (Since t) conns)
    ⊎ ((k : ℕ) × (conn : Connection) × (found ≡ some (i + k))
        × (ltb_ℤ conn.open_time t ≡ true)
        × IsOldest conns k conn)

All-mono :
    (P Q : Connection → Type 0) (conns : List Connection)
    → ((c : Connection) → P c → Q c)
    → All P conns
    → All Q conns
All-mono P Q [] f h = tt
All-mono P Q (c ∷ conns) f (p, h) = (f c p, All-mono P Q conns f h)

FoundOldest-older :
    (c : Connection) (conns : List Connection) (i : ℕ) (t : ℤ) (known found : Option ℕ)
    → is_used c ≡ true
    → ltb_ℤ c.open_time t ≡ true
    → FoundOldest conns (suc i) c.open_time (some i) found
    → FoundOldest (c ∷ conns) i t known found
FoundOldest-older c conns i t known found used older (inl (e, all)) =
    let start : i ≡ i + 0 = omega arith in
    inr (
      0,
      c,
      e ∙ ap some start,
      older,
      record { at = refl; used = used; first = ((λ _. ground arith), all) },
    )
FoundOldest-older c conns i t known found used older (inr (k, conn, e, before, o)) =
    let next : suc i + k ≡ i + suc k = omega arith in
    inr (
      suc k,
      conn,
      e ∙ ap some next,
      ground arith,
      record { at = o.at; used = o.used; first = ((λ _. ground arith), o.first) },
    )

FoundOldest-newer :
    (c : Connection) (conns : List Connection) (i : ℕ) (t : ℤ) (known found : Option ℕ)
    → Since t c
    → FoundOldest conns (suc i) t known found
    → FoundOldest (c ∷ conns) i t known found
FoundOldest-newer c conns i t known found newer (inl (e, all)) = inl (e, (newer, all))
FoundOldest-newer c conns i t known found newer (inr (k, conn, e, before, o)) =
    let next : suc i + k ≡ i + suc k = omega arith in
    inr (
      suc k,
      conn,
      e ∙ ap some next,
      before,
      record { at = o.at; used = o.used; first = ((λ used. ground (arith, newer used)), o.first) },
    )

pub oldest-FoundOldest :
    (conns : List Connection) (i : ℕ) (t : ℤ) (known : Option ℕ)
    → FoundOldest conns i t known (oldest conns i t known)
unfolding oldest
oldest-FoundOldest [] i t known = inl (refl, tt)
oldest-FoundOldest (c ∷ conns) i t known = elim (Bool-cases (is_used c && ltb_ℤ c.open_time t)) [
  | inl both ↦
      let used : is_used c ≡ true = ground arith in
      let older : ltb_ℤ c.open_time t ≡ true = ground arith in
      rw (both, oldest)
        (FoundOldest-older c conns i t known _ used older
          (oldest-FoundOldest conns (suc i) c.open_time (some i)))
  | inr neither ↦
      rw (neither, oldest)
        (FoundOldest-newer c conns i t known _ (λ used. ground arith)
          (oldest-FoundOldest conns (suc i) t known))
]

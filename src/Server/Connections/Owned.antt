-- ===== src/Server/Connections/Owned.antt =====
-- Which descriptors the server holds, and how often it has closed one.
use simple_x509_authenticate.Common.{
  ℕ, zero, suc, ◌+◌, ◌≡◌, refl, ap, true, false, ◌&&◌, List, [], ◌∷◌, some, get_elem?, set,
  replicate, arith,
}
use simple_x509_authenticate.Common.Int.{ℤ, eq_ℤ}
use simple_x509_authenticate.Crypto.Ssl.{OpenSsl}
use simple_x509_authenticate.Server.Connections.{
  Connection, zero_conn, is_used, Action, close_fd, call_exec_script,
}
use simple_x509_authenticate.Server.Connections.Table.{one_if}

-- 1 if the connection is in use with this descriptor.
unfoldable pub holds : ℤ → Connection → ℕ
holds fd conn = one_if (is_used conn && eq_ℤ fd conn.fd)

pub holds_used :
    (fd : ℤ) (conn : Connection) → is_used conn ≡ true → holds fd conn ≡ one_if (eq_ℤ fd conn.fd)
unfolding holds
holds_used fd conn used = ap (λ b. one_if (b && eq_ℤ fd conn.fd)) used

pub holds_free : (fd : ℤ) (conn : Connection) → is_used conn ≡ false → holds fd conn ≡ 0
unfolding holds
holds_free fd conn free = ap (λ b. one_if (b && eq_ℤ fd conn.fd)) free

unfoldable pub count_held : ℤ → List Connection → ℕ
count_held fd [] = 0
count_held fd (conn ∷ conns) = holds fd conn + count_held fd conns

pub count_held-set :
    (fd : ℤ) (conns : List Connection) (i : ℕ) (conn changed : Connection)
    → get_elem? conns i ≡ some conn
    → count_held fd (set conns i changed) + holds fd conn ≡ count_held fd conns + holds fd changed
unfolding count_held
count_held-set fd [] i conn changed at = cc
count_held-set fd (c ∷ conns) zero conn changed at =
    let same : holds fd c ≡ holds fd conn = cc in omega arith
count_held-set fd (c ∷ conns) (suc i) conn changed at =
    omega (arith, count_held-set fd conns i conn changed at)

pub count_held-replicate : (fd : ℤ) (n : ℕ) → count_held fd (replicate n zero_conn) ≡ 0
unfolding count_held holds is_used
count_held-replicate fd zero = refl
count_held-replicate fd (suc n) = omega (arith, count_held-replicate fd n)

-- How often a descriptor is in a list.
unfoldable pub occurrences : ℤ → List ℤ → ℕ
occurrences fd [] = 0
occurrences fd (x ∷ xs) = one_if (eq_ℤ fd x) + occurrences fd xs

-- How often a descriptor was closed.
unfoldable pub closes : (ssl : OpenSsl) → ℤ → List (Action ssl) → ℕ
closes ssl fd [] = 0
closes ssl fd (close_fd x ∷ actions) = one_if (eq_ℤ fd x) + closes ssl fd actions
closes ssl fd (call_exec_script key script n now ∷ actions) = closes ssl fd actions

-- ===== src/Server/Sessions/Table.antt =====
-- The table of connections of src/main.c as sessions in no order.

use simple_x509_authenticate.Common.{
  ℕ, zero, suc, ◌≡◌, refl, sym, ap, ◌∙◌, inl, inr, true, false, List, [], ◌∷◌, some, length,
  get_elem?, set, set-get_elem?, All, replicate, Bool-cases, if◌then◌else◌, arith,
}
use simple_x509_authenticate.Common.Int.{ℤ, ltb_ℤ}
use simple_x509_authenticate.Crypto.Ssl.{OpenSsl}
use simple_x509_authenticate.Server.Connections.{
  Connection, zero_conn, is_used, contents, Resources,
}
use simple_x509_authenticate.Server.Connections.Table.{count_used, Since}
use simple_x509_authenticate.Server.Sessions.{Session, Bag, bag, add, add_comm, Size, Every, Spec}

unfoldable pub session_of : Connection → Session
session_of conn = record { fd = conn.fd; since = conn.open_time; received = contents conn }

-- The connections in use.
unfoldable pub sessions_of : List Connection → List Session
sessions_of [] = []
sessions_of (conn ∷ conns) =
    if is_used conn then session_of conn ∷ sessions_of conns else sessions_of conns

abbrev pub opened : List Connection → Bag
opened conns = bag (sessions_of conns)

abbrev pub view : (ssl : OpenSsl) → Resources ssl → Spec ssl
view ssl resources = record {
  sessions = opened resources.conns;
  script_n = resources.keys.script_n;
  actions = resources.actions;
}

add_used : Connection → Bag → Bag
add_used conn b = if is_used conn then add (session_of conn) b else b

opened-cons :
    (conn : Connection) (conns : List Connection)
    → opened (conn ∷ conns) ≡ add_used conn (opened conns)
unfolding add_used sessions_of add
opened-cons conn conns = elim (Bool-cases (is_used conn)) [
  | inl used ↦ rw used refl
  | inr free ↦ rw free refl
]

add_used_comm : (c d : Connection) (b : Bag) → add_used c (add_used d b) ≡ add_used d (add_used c b)
unfolding add_used
add_used_comm c d b = elim (Bool-cases (is_used c)) [
  | inl used ↦ rw used (elim (Bool-cases (is_used d)) [
    | inl both ↦ rw both (add_comm (session_of c) (session_of d) b)
    | inr free ↦ rw free refl
  ])
  | inr free ↦ rw free refl
]

-- The table without one connection.
unfoldable pub except : ℕ → List Connection → List Connection
except i [] = []
except zero (conn ∷ conns) = conns
except (suc i) (conn ∷ conns) = conn ∷ except i conns

opened-set :
    (conns : List Connection) (i : ℕ) (old conn : Connection)
    → get_elem? conns i ≡ some old
    → opened (set conns i conn) ≡ add_used conn (opened (except i conns))
unfolding except
opened-set [] i old conn at = cc
opened-set (c ∷ conns) zero old conn at = opened-cons conn conns
opened-set (c ∷ conns) (suc i) old conn at =
    opened-cons c (set conns i conn)
    ∙ ap (add_used c) (opened-set conns i old conn at)
    ∙ add_used_comm c conn (opened (except i conns))
    ∙ ap (add_used conn) (sym (opened-cons c (except i conns)))

-- A connection in use is written to, put in a free place, or leaves.
pub opened-set_used :
    (conns : List Connection) (i : ℕ) (old conn : Connection)
    → get_elem? conns i ≡ some old
    → is_used conn ≡ true
    → opened (set conns i conn) ≡ add (session_of conn) (opened (except i conns))
unfolding add_used
opened-set_used conns i old conn at used = opened-set conns i old conn at ∙ rw used refl

pub opened-set_free :
    (conns : List Connection) (i : ℕ) (old conn : Connection)
    → get_elem? conns i ≡ some old
    → is_used conn ≡ false
    → opened (set conns i conn) ≡ opened (except i conns)
unfolding add_used
opened-set_free conns i old conn at free = opened-set conns i old conn at ∙ rw free refl

pub opened_used :
    (conns : List Connection) (i : ℕ) (conn : Connection)
    → get_elem? conns i ≡ some conn
    → is_used conn ≡ true
    → opened conns ≡ add (session_of conn) (opened (except i conns))
opened_used conns i conn at used =
    ap opened (sym (set-get_elem? conns i at)) ∙ opened-set_used conns i conn conn at used

pub opened_free :
    (conns : List Connection) (i : ℕ) (conn : Connection)
    → get_elem? conns i ≡ some conn
    → is_used conn ≡ false
    → opened conns ≡ opened (except i conns)
opened_free conns i conn at free =
    ap opened (sym (set-get_elem? conns i at)) ∙ opened-set_free conns i conn conn at free

length-sessions_of : (conns : List Connection) → length (sessions_of conns) ≡ count_used conns
unfolding sessions_of count_used
length-sessions_of [] = refl
length-sessions_of (c ∷ conns) = elim (Bool-cases (is_used c)) [
  | inl used ↦ rw used (omega (arith, length-sessions_of conns))
  | inr free ↦ rw free (omega (arith, length-sessions_of conns))
]

pub opened-Size : (conns : List Connection) → Size (count_used conns) (opened conns)
opened-Size conns = (sessions_of conns, refl, length-sessions_of conns)

All-sessions_of :
    (t : ℤ) (conns : List Connection)
    → All (Since t) conns
    → All (λ s. ltb_ℤ s.since t ≡ false) (sessions_of conns)
unfolding sessions_of session_of
All-sessions_of t [] all = tt
All-sessions_of t (c ∷ conns) (h, all) = elim (Bool-cases (is_used c)) [
  | inl used ↦ rw used (h used, All-sessions_of t conns all)
  | inr free ↦ rw free (All-sessions_of t conns all)
]

All-except :
    (t : ℤ) (i : ℕ) (conns : List Connection) → All (Since t) conns → All (Since t) (except i conns)
unfolding except
All-except t i [] all = tt
All-except t zero (c ∷ conns) (h, all) = all
All-except t (suc i) (c ∷ conns) (h, all) = (h, All-except t i conns all)

pub except-Every :
    (t : ℤ) (i : ℕ) (conns : List Connection)
    → All (Since t) conns
    → Every (λ s. ltb_ℤ s.since t ≡ false) (opened (except i conns))
except-Every t i conns all =
    (sessions_of (except i conns), refl, All-sessions_of t _ (All-except t i conns all))

pub opened-replicate : (n : ℕ) → opened (replicate n zero_conn) ≡ bag []
unfolding sessions_of is_used
opened-replicate n = ap bag (none_open n)
  where
    none_open : (m : ℕ) → sessions_of (replicate m zero_conn) ≡ []
    none_open zero = refl
    none_open (suc m) = none_open m

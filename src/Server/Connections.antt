-- ===== src/Server/Connections.antt =====
-- The table of connections of src/main.c: free_conn, the search for the oldest connection, and the
-- part of the event loop that accepts a new one.
pub mod Table
pub mod Owned
pub mod Sound
pub mod Invariant
pub mod Accept
use simple_x509_authenticate.Common.{
  ℕ, zero, suc, Bool, true, false, not, List, [], ◌∷◌, Option, none, some, Bytes, get_elem?, set,
  take, replicate, add64, sub64, leb, ◌&&◌,
}
use simple_x509_authenticate.Common.Int.{ℤ, pos, ltb_ℤ, eq_ℤ}
use simple_x509_authenticate.Common.Result.{Result, ok, err, abort, Fault, ◌>>=◌, ◌>>◌, check}
use simple_x509_authenticate.Common.Buffer.{or_out_of_bounds}
use simple_x509_authenticate.Crypto.Ssl.{OpenSsl}
use simple_x509_authenticate.Crypto.{PubKey}
use simple_x509_authenticate.Server.Kernel.{Kernel, Answers}
use simple_x509_authenticate.Server.Scripts.{Keys}

abbrev pub max_script_size : ℕ
max_script_size = 2147483648

abbrev pub max_concurrency : ℕ
max_concurrency = 128

abbrev pub max_int64 : ℤ
max_int64 = pos 0x7fffffffffffffff

abbrev pub kilobyte : ℕ
kilobyte = 1024

-- `buf` is NULL or the whole allocation, of which buf_size bytes were received.
pub record Connection : Type 0 where
  pub fd : ℤ
  pub open_time : ℤ
  pub buf_size : ℕ
  pub buf_cap : ℕ
  pub buf : Option Bytes

-- `Resources resources = {0};` for one entry of the table.
abbrev pub zero_conn : Connection
zero_conn = record { fd = pos 0; open_time = pos 0; buf_size = 0; buf_cap = 0; buf = none }

-- The functions of the table of connections do not end the server.
pub data NoExit : Type 0 where

abbrev pub Serve {ℓ} : Type ℓ → Type ℓ
Serve A = Result NoExit A

-- `fd > 0`: the connection is in use.
unfoldable pub is_used : Connection → Bool
is_used conn = ltb_ℤ (pos 0) conn.fd

-- The part of the buffer that was received.
unfoldable pub contents : Connection → Bytes
contents conn = elim conn.buf [ none ↦ [] | some mem ↦ take conn.buf_size mem ]

-- The index of `min_conn`; `i` is the index of the head of the list.
unfoldable pub oldest : List Connection → ℕ → ℤ → Option ℕ → Option ℕ
oldest [] i min_open_time min_conn = min_conn
oldest (conn ∷ conns) i min_open_time min_conn =
    elim (is_used conn && ltb_ℤ conn.open_time min_open_time) [
      | true ↦ oldest conns (suc i) conn.open_time (some i)
      | false ↦ oldest conns (suc i) min_open_time min_conn
    ]

-- The first connection with `fd <= 0`, and its index.
unfoldable pub unused : List Connection → ℕ → Option (ℕ × Connection)
unused [] i = none
unused (conn ∷ conns) i = elim (is_used conn) [
  | true ↦ unused conns (suc i)
  | false ↦ some (i, conn)
]

-- A connection without a buffer gets one.
unfoldable pub with_buffer : Kernel → Option Bytes → Connection → Connection
with_buffer kernel none conn = record conn {
  buf_cap = kilobyte;
  buf_size = 0;
  buf = some (kernel.malloc kilobyte);
}
with_buffer kernel (some mem) conn = conn

-- The members of a connection that was just accepted.
unfoldable pub open_conn : Kernel → ℤ → ℤ → Connection → Connection
open_conn kernel conn_fd open_time conn =
    with_buffer kernel conn.buf (record conn { fd = conn_fd; open_time = open_time })

module _ (ssl : OpenSsl) where
  -- What the server does outside of its memory. A script stands with the key that verified it, the
  -- number that it was given, and the answer of time(NULL) in front of the loop over the keys.
  pub data Action : Type 0 where
    close_fd : ℤ → Action
    call_exec_script : PubKey ssl → Bytes → ℕ → ℤ → Action

  -- The members of Resources that the event loop changes, and what was done so far, the last first;
  -- with the descriptors that accept has answered.
  pub record Resources : Type 0 where
    pub keys : Keys ssl
    pub conns : List Connection
    pub conns_total : ℕ
    pub actions : List Action
    pub accepted : List ℤ

  -- The state in front of the event loop.
  unfoldable pub initial : Keys ssl → Resources
  initial keys = record {
    keys = keys;
    conns = replicate max_concurrency zero_conn;
    conns_total = 0;
    actions = [];
    accepted = [];
  }

  unfoldable pub free_conn : ℕ → Resources → Serve Resources
  free_conn i resources = or_out_of_bounds (get_elem? resources.conns i) >>= λ conn.
      ok (record resources {
        conns = set resources.conns i (record conn { fd = pos 0; buf_size = 0; open_time = pos 0 });
        conns_total = sub64 resources.conns_total 1;
        actions = close_fd conn.fd ∷ resources.actions;
      })

  unfoldable pub free_oldest : Option ℕ → Resources → Serve Resources
  free_oldest none resources = abort Fault.assertion
  free_oldest (some i) resources = free_conn i resources

  -- Clear old connections if there are too many.
  unfoldable pub make_room : Resources → Serve Resources
  make_room resources = elim (leb max_concurrency resources.conns_total) [
    | true ↦ free_oldest (oldest resources.conns 0 max_int64 none) resources
    | false ↦ ok resources
  ]

  module _ (kernel : Kernel) where
    -- The search for an unused connection, with what is left in `conn_fd`.
    unfoldable pub take_unused : Bool → ℤ → ℤ → Option (ℕ × Connection) → Resources → ℤ × Resources
    take_unused added clock conn_fd none resources = (conn_fd, resources)
    take_unused true clock conn_fd (some (i, conn)) resources = (
      pos 0,
      record resources { conns = set resources.conns i (open_conn kernel conn_fd clock conn) },
    )
    take_unused false clock conn_fd (some (i, conn)) resources =
        (conn_fd, record resources { actions = close_fd conn_fd ∷ resources.actions })

    -- The rest of the branch behind the call of accept.
    unfoldable pub add_conn : Answers → Resources → Serve Resources
    add_conn answers resources = elim (ltb_ℤ answers.accept (pos 0)) [
      | true ↦ ok resources
      | false ↦
          let r = record resources {
            conns_total = add64 resources.conns_total 1;
            accepted = answers.accept ∷ resources.accepted;
          } in
          let (conn_fd, after) =
            take_unused answers.added answers.clock answers.accept (unused r.conns 0) r in
          check (eq_ℤ conn_fd (pos 0)) >> ok after
    ]

    -- The events with the index MAX_INT32.
    unfoldable pub accept_conn : Answers → Resources → Serve Resources
    accept_conn answers resources = make_room resources >>= λ r. add_conn answers r

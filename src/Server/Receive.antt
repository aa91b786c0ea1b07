-- ===== src/Server/Receive.antt =====
-- The loop of src/main.c that receives what a connection sent, until there is no more of it.
pub mod Store
pub mod Heard
pub mod Round
pub mod Loop
use simple_x509_authenticate.Common.{
  ℕ, zero, suc, ◌+◌, ◌*◌, ◌%◌, ◌^◌, Bool, true, false, List, [], ◌∷◌, ◌++◌, Option, none, some,
  Bytes, length, get_elem?, set, take, drop, add64, sub64, leb, ◌==◌, ◌!=◌, ◌||◌,
}
use simple_x509_authenticate.Common.Int.{ℤ}
use simple_x509_authenticate.Common.Result.{ok, abort, Fault, ◌>>=◌}
use simple_x509_authenticate.Common.Buffer.{or_out_of_bounds}
use simple_x509_authenticate.Crypto.Ssl.{OpenSsl}
use simple_x509_authenticate.Server.Kernel.{Kernel, Received, failed, received}
use simple_x509_authenticate.Server.Connections.{
  max_script_size, Connection, Serve, Resources, free_conn,
}

-- The memory with `bytes` written to it from `start` on.
unfoldable pub store : Bytes → ℕ → Bytes → Serve Bytes
store mem start bytes = elim (leb (start + length bytes) (length mem)) [
  | true ↦ ok (take start mem ++ bytes ++ drop (start + length bytes) mem)
  | false ↦ abort Fault.out_of_bounds
]

-- `bytes` written behind what was received.
unfoldable pub append_received : Bytes → Connection → Serve Connection
append_received bytes conn = or_out_of_bounds conn.buf >>= λ mem.
    store mem conn.buf_size bytes >>= λ written.
    ok (record conn { buf = some written; buf_size = add64 conn.buf_size (length bytes) })

-- realloc keeps the bytes; those behind them are whatever malloc answers.
unfoldable pub grow : Kernel → Connection → Serve Connection
grow kernel conn = or_out_of_bounds conn.buf >>= λ mem.
    let cap = (conn.buf_cap * 2) % 2 ^ 64 in
    ok (record conn {
      buf_cap = cap;
      buf = some (take cap (mem ++ drop (length mem) (kernel.malloc cap)));
    })

-- A full buffer is made twice as large.
unfoldable pub keep_room : Kernel → Connection → Serve Connection
keep_room kernel conn = elim (leb conn.buf_cap conn.buf_size) [
  | true ↦ grow kernel conn
  | false ↦ ok conn
]

module _ (ssl : OpenSsl) (kernel : Kernel) where
  -- `errno != EAGAIN || errno != EWOULDBLOCK`
  unfoldable pub receive_failed : ℕ → ℕ → Resources ssl → Serve (Resources ssl)
  receive_failed errno i resources = elim (errno != kernel.eagain || errno != kernel.ewouldblock) [
    | true ↦ free_conn ssl i resources
    | false ↦ ok resources
  ]

  -- `n` is how often recv was called.
  unfoldable pub receive_loop :
      ℕ → (ℤ → ℕ → ℕ → ℕ → Received) → ℕ → ℕ → Resources ssl → Serve (Resources ssl)
  receive_loop zero recv n i resources = abort Fault.out_of_fuel
  receive_loop (suc fuel) recv n i resources =
      or_out_of_bounds (get_elem? resources.conns i) >>= λ conn.
      elim (recv conn.fd n conn.buf_size (sub64 conn.buf_cap conn.buf_size)) [
        | failed errno ↦ receive_failed errno i resources
        | received bytes ↦ elim (length bytes == 0) [
          | true ↦ ok resources
          | false ↦ append_received bytes conn >>= λ more.
              elim (leb max_script_size more.buf_size) [
                | true ↦ free_conn ssl i (record resources { conns = set resources.conns i more })
                | false ↦ keep_room kernel more >>= λ roomy.
                    receive_loop fuel recv (suc n) i
                      (record resources { conns = set resources.conns i roomy })
              ]
        ]
      ]

  -- Every round but the last makes what was received longer, and max_script_size ends the loop.
  unfoldable pub receive : (ℤ → ℕ → ℕ → ℕ → Received) → ℕ → Resources ssl → Serve (Resources ssl)
  receive recv i resources = receive_loop (suc max_script_size) recv 0 i resources

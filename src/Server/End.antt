-- ===== src/Server/End.antt =====
-- The end of the program: free_all of src/main.c, with pub_key_free and openssl_free of
-- src/crypto.c.
pub mod Released
use simple_x509_authenticate.Common.{
  ℕ, zero, suc, true, false, List, [], ◌∷◌, Option, none, some, Bytes, length, replicate, ltb,
}
use simple_x509_authenticate.Common.Int.{ℤ, pos, ltb_ℤ}
use simple_x509_authenticate.Common.Result.{ok, abort, Fault, ◌>>=◌, ◌>>◌, check}
use simple_x509_authenticate.Crypto.Ssl.{OpenSsl}
use simple_x509_authenticate.Crypto.{PubKey, supported_algs}
use simple_x509_authenticate.Server.Connections.{
  max_concurrency, Connection, zero_conn, is_used, Action, close_fd, Resources, Serve,
}

-- The buffers that the loop over the connections passes to free.
unfoldable pub buffers : List Connection → List Bytes
buffers [] = []
buffers (conn ∷ conns) = elim conn.buf [ none ↦ buffers conns | some mem ↦ mem ∷ buffers conns ]

module _ (ssl : OpenSsl) where
  -- What EVP_PKEY_free and EVP_MD_CTX_free are called with.
  abbrev pub Handles : Type 0
  Handles = Option ssl.Pkey × Option ssl.MdCtx

  unfoldable pub openssl_free : PubKey ssl → Handles
  openssl_free pub_key = (pub_key.pkey, pub_key.md_ctx)

  -- Every supported algorithm has openssl_free as its member `free`.
  unfoldable pub pub_key_free : PubKey ssl → Serve Handles
  pub_key_free pub_key =
      check (ltb pub_key.alg_idx (length (supported_algs ssl))) >> ok (openssl_free pub_key)

  -- The first keys_size keys, each freed.
  unfoldable pub free_keys : ℕ → List (PubKey ssl) → Serve (List Handles)
  free_keys zero keys = ok []
  free_keys (suc keys_size) [] = abort Fault.out_of_bounds
  free_keys (suc keys_size) (key ∷ keys) =
      pub_key_free key >>= λ handles. free_keys keys_size keys >>= λ others. ok (handles ∷ others)

  -- `if (fd > 0) close(fd);`
  unfoldable pub close_open : ℤ → List (Action ssl) → List (Action ssl)
  close_open fd actions = elim (ltb_ℤ (pos 0) fd) [ true ↦ close_fd fd ∷ actions | false ↦ actions ]

  -- The closing of the connections, in the order of the table.
  unfoldable pub close_conns : List Connection → List (Action ssl) → List (Action ssl)
  close_conns [] actions = actions
  close_conns (conn ∷ conns) actions = close_conns conns (close_open conn.fd actions)

  -- What is left behind free_all, what was freed of the keys, and which buffers were.
  pub record Shutdown : Type 0 where
    pub left : Resources ssl
    pub keys_freed : List Handles
    pub bufs_freed : List Bytes

  -- The array of the keys is NULL only where keys_size is 0.
  unfoldable pub free_all : ℤ → ℤ → Resources ssl → Serve Shutdown
  free_all epoll_fd socket_fd resources =
      free_keys resources.keys.keys_size resources.keys.keys >>= λ keys_freed. ok (record {
        left = record {
          keys = record { keys = []; keys_size = 0; script_n = 0 };
          conns = replicate max_concurrency zero_conn;
          conns_total = 0;
          actions =
              close_conns resources.conns
                (close_open socket_fd (close_open epoll_fd resources.actions));
          accepted = resources.accepted;
        };
        keys_freed = keys_freed;
        bufs_freed = buffers resources.conns;
      })

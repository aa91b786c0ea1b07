-- ===== src/Server/End/Released.antt =====
-- What free_all releases, in every state that the server reaches.
use simple_x509_authenticate.Common.{
  ℕ, zero, suc, ◌+◌, ◌≤◌, ◌<◌, ◌≡◌, refl, ap₂, true, Bool-cases, inl, inr, List, [], ◌∷◌, Bytes,
  length, get_elem?-some_lt, map, take, All, ltb, ◌&&◌, arith,
}
use simple_x509_authenticate.Common.Int.{ℤ, pos, ltb_ℤ, eq_ℤ}
use simple_x509_authenticate.Common.Result.{ok, Yields, Yields-bind, Returns_ok, check}
use simple_x509_authenticate.X509.Time.{Timegm}
use simple_x509_authenticate.Crypto.Ssl.{OpenSsl, Documented}
use simple_x509_authenticate.Crypto.Keys.{Chosen}
use simple_x509_authenticate.Crypto.{PubKey, supported_algs}
use simple_x509_authenticate.ReadCert.Trust.{Mapped}
use simple_x509_authenticate.Server.Kernel.{Kernel, Answers, Allocates}
use simple_x509_authenticate.Server.Scripts.Authentic.{Usable}
use simple_x509_authenticate.Server.Start.Origin.{Origin, Origin-Usable}
use simple_x509_authenticate.Server.Connections.{
  max_concurrency, Connection, is_used, Action, Resources,
}
use simple_x509_authenticate.Server.Connections.Table.{one_if}
use simple_x509_authenticate.Server.Connections.Owned.{
  holds, count_held, count_held-replicate, occurrences, closes,
}
use simple_x509_authenticate.Server.Connections.Invariant.{Valid}
use simple_x509_authenticate.Server.Events.Reachable.{Last, Last-Valid}
use simple_x509_authenticate.Server.Start.{Startup, start}
use simple_x509_authenticate.Server.Start.Valid.{Sized, start-Valid}
use simple_x509_authenticate.Server.End.{
  openssl_free, pub_key_free, free_keys, close_open, close_conns, Shutdown, free_all,
}

-- How often `fd` is closed as a descriptor of the program's own.
abbrev pub own : ℤ → ℤ → ℕ
own fd handle = one_if (ltb_ℤ (pos 0) handle && eq_ℤ fd handle)

module _ (ssl : OpenSsl) where
  close_open-closes :
      (fd handle : ℤ) (actions : List (Action ssl))
      → closes ssl fd (close_open ssl handle actions) ≡ own fd handle + closes ssl fd actions
  unfolding close_open closes
  close_open-closes fd handle actions = elim (Bool-cases (ltb_ℤ (pos 0) handle)) [
    | inl used ↦ rw (close_open, used) refl
    | inr free ↦ rw (close_open, free) (omega arith)
  ]

  close_conns-closes :
      (fd : ℤ) (conns : List Connection) (actions : List (Action ssl))
      → closes ssl fd (close_conns ssl conns actions) ≡ closes ssl fd actions + count_held fd conns
  unfolding close_conns count_held holds is_used
  close_conns-closes fd [] actions = omega arith
  close_conns-closes fd (conn ∷ conns) actions = omega (
    arith,
    close_conns-closes fd conns (close_open ssl conn.fd actions),
    close_open-closes fd conn.fd actions,
  )

  -- What `free_all` answers for the state `before`.
  pub record Released (epoll_fd socket_fd : ℤ) (before : Resources ssl) (after : Shutdown ssl)
      : Type 0 where
    pub closed :
        (fd : ℤ)
        → closes ssl fd after.left.actions
          ≡ own fd epoll_fd + (own fd socket_fd + occurrences fd before.accepted)
    pub freed :
        after.keys_freed ≡ map (openssl_free ssl) (take before.keys.keys_size before.keys.keys)
    pub none_held : (fd : ℤ) → count_held fd after.left.conns ≡ 0

  module _ (P : PubKey ssl → Type 0) (usable : (key : PubKey ssl) → P key → Usable ssl key) where
    pub_key_free-Yields :
        (key : PubKey ssl) → P key → Yields (λ hs. hs ≡ openssl_free ssl key) (pub_key_free ssl key)
    unfolding pub_key_free Chosen check
    pub_key_free-Yields key trusted =
        let (alg, named, oid, ctx) = (usable key trusted).chosen in
        let lt = get_elem?-some_lt (supported_algs ssl) key.alg_idx named in
        let inside : ltb key.alg_idx (length (supported_algs ssl)) ≡ true = ground arith in
        rw inside refl

    free_keys-Yields :
        (keys_size : ℕ) (keys : List (PubKey ssl))
        → keys_size ≤ length keys
        → All P keys
        → Yields
            (λ hss. hss ≡ map (openssl_free ssl) (take keys_size keys))
            (free_keys ssl keys_size keys)
    unfolding free_keys
    free_keys-Yields zero keys inside trusted = refl
    free_keys-Yields (suc keys_size) [] inside trusted = omega arith
    free_keys-Yields (suc keys_size) (key ∷ keys) inside trusted =
        Yields-bind (λ hs. hs ≡ openssl_free ssl key) _ (pub_key_free ssl key) _
          (pub_key_free-Yields key trusted.0)
          λ hs _ first.
            Yields-bind (λ hss. hss ≡ map (openssl_free ssl) (take keys_size keys)) _
              (free_keys ssl keys_size keys) _
              (free_keys-Yields keys_size keys (omega arith) trusted.1)
              λ hss _ others. ap₂ (λ x xs. x ∷ xs) first others

    free_all-Released :
        (epoll_fd socket_fd : ℤ) (resources : Resources ssl)
        → Valid ssl P resources
        → Yields (Released epoll_fd socket_fd resources) (free_all ssl epoll_fd socket_fd resources)
    unfolding free_all
    free_all-Released epoll_fd socket_fd resources valid =
        Yields-bind _ (Released epoll_fd socket_fd resources)
          (free_keys ssl resources.keys.keys_size resources.keys.keys) _
          (free_keys-Yields resources.keys.keys_size resources.keys.keys valid.inside valid.trusted)
          λ freed _ e.
            let conns = resources.conns in
            let first = close_open ssl epoll_fd resources.actions in
            let second = close_open ssl socket_fd first in
            record {
              closed = λ fd. omega (
                arith,
                close_conns-closes fd conns second,
                close_open-closes fd socket_fd first,
                close_open-closes fd epoll_fd resources.actions,
                valid.owned fd,
              );
              freed = e;
              none_held = λ fd. count_held-replicate fd max_concurrency;
            }

-- Where OpenSSL and mmap behave as documented, and the start of the server succeeds, with a path
-- and names below 2 ^ 62 bytes, fewer than 2 ^ 62 names, and a path of at least two bytes if it is
-- one of a directory, and main_protected ends behind any number of events for the listening socket
-- and connections in use, or in the middle of one, because all keys have expired, while epoll_ctl
-- succeeded and the calls of the system answered as documented (recv writes no more than it has
-- room for, accept does not answer 0, clock stays below its largest value, malloc answers what was
-- asked for), free_all fails no assert in the state that is left. Behind it every descriptor that
-- accept has answered was closed, as often as accept has answered it, no more than this and no
-- less; so were the two of epoll and of the socket, where they are positive. No connection holds a
-- descriptor, and what was freed of the keys is the handles of the first keys_size keys, in order.
pub main-Released :
    (ssl : OpenSsl) (timegm : Timegm) (answers : Startup ssl) (kernel : Kernel)
    (first state : Resources ssl) (trace : List Answers) (epoll_fd socket_fd : ℤ)
    → Documented ssl
    → ((path : Bytes) → Mapped (answers.file path))
    → Sized ssl answers
    → Allocates kernel
    → start ssl timegm answers ≡ ok first
    → Last ssl kernel first trace state
    → Yields (Released ssl epoll_fd socket_fd state) (free_all ssl epoll_fd socket_fd state)
main-Released ssl timegm answers kernel first state trace epoll_fd socket_fd doc mapped sized
      allocates started last =
    let O = Origin ssl answers timegm in
    let (valid, some_key) =
      Returns_ok (λ r. Valid ssl O r × (0 < r.keys.keys_size)) _
        (start-Valid ssl timegm answers doc mapped sized) started in
    free_all-Released ssl O (Origin-Usable ssl answers timegm) epoll_fd socket_fd state
      (Last-Valid ssl O (Origin-Usable ssl answers timegm) kernel allocates valid last)

-- ===== src/Server/Events/Stale.antt =====
-- Two ways in which an answer of the system ends the server by a failed assert.
use simple_x509_authenticate.Common.{
  ℕ, ◌<◌, ◌≡◌, refl, inl, inr, true, false, List, [], ◌∷◌, Option, none, some, length, get_elem?,
  get_elem?-set, get_elem?-some_lt, set, leb, add64, sub64, arith,
}
use simple_x509_authenticate.Common.Int.{ℤ, pos, ltb_ℤ, eq_ℤ}
use simple_x509_authenticate.Common.Result.{ok, abort, Fault, check, ◌>>◌}
use simple_x509_authenticate.Crypto.Ssl.{OpenSsl}
use simple_x509_authenticate.Server.Kernel.{Kernel, Answers, Event}
use simple_x509_authenticate.Server.Connections.{
  max_concurrency, max_int64, Connection, NoExit, Resources, close_fd, is_used, oldest, unused,
  take_unused, free_conn, free_oldest, make_room, add_conn, accept_conn,
}
use simple_x509_authenticate.Server.Connections.Table.{oldest-FoundOldest}
use simple_x509_authenticate.Server.Events.{
  going, max_int32, on_conn, on_index, handle_event, handle_events,
}

module _ (ssl : OpenSsl) (kernel : Kernel) where
  -- The assert of the handler of a connection that is not in use.
  on_conn_closed :
      (answers : Answers) (event : Event) (i : ℕ) (resources : Resources ssl) (conn : Connection)
      → get_elem? resources.conns i ≡ some conn
      → is_used conn ≡ false
      → on_conn ssl kernel answers event i resources ≡ abort Fault.assertion
  unfolding on_conn check
  on_conn_closed answers event i resources conn at free = rw (at, free) refl

  on_index_closed :
      (answers : Answers) (event : Event) (idx : ℤ) (i : ℕ) (resources : Resources ssl)
      (conn : Connection)
      → idx ≡ pos i
      → get_elem? resources.conns i ≡ some conn
      → is_used conn ≡ false
      → on_index ssl kernel answers event idx resources ≡ abort Fault.assertion
  unfolding on_index
  on_index_closed answers event idx i resources conn e at free =
      rw e (on_conn_closed answers event i resources conn at free)

  handle_event_closed :
      (answers : Answers) (event : Event) (i : ℕ) (resources : Resources ssl) (conn : Connection)
      → event.idx ≡ pos i
      → i < max_concurrency
      → get_elem? resources.conns i ≡ some conn
      → is_used conn ≡ false
      → handle_event ssl kernel answers event resources ≡ abort Fault.assertion
  unfolding handle_event
  handle_event_closed answers event i resources conn e lt at free =
      let other : eq_ℤ event.idx max_int32 ≡ false = rw e (ground arith) in
      let inside : ltb_ℤ event.idx (pos max_concurrency) ≡ true = rw e (ground arith) in
      rw (other, inside, handle_event)
        (on_index_closed answers event event.idx i resources conn e at free)

  -- A full table, and no connection to accept any more.
  evict_alone :
      (answers : Answers) (event : Event) (resources : Resources ssl) (k : ℕ) (conn : Connection)
      → eq_ℤ event.idx max_int32 ≡ true
      → resources.conns_total ≡ max_concurrency
      → oldest resources.conns 0 max_int64 none ≡ some k
      → get_elem? resources.conns k ≡ some conn
      → ltb_ℤ answers.accept (pos 0) ≡ true
      → handle_event ssl kernel answers event resources ≡ going (free_conn ssl k resources)
  unfolding handle_event accept_conn make_room free_oldest add_conn free_conn going
  evict_alone answers event resources k conn listening full first at gone =
      let crowded : leb max_concurrency resources.conns_total ≡ true = ground arith in
      rw (listening, handle_event, accept_conn, make_room, crowded, first, at, gone, add_conn) refl

  oldest-get_elem? :
      (conns : List Connection) (k : ℕ)
      → oldest conns 0 max_int64 none ≡ some k
      → (conn : Connection) × (get_elem? conns k ≡ some conn)
  oldest-get_elem? conns k e = elim (oldest-FoundOldest conns 0 max_int64 none) [
    | inl (missing, since) ↦ absurd (none_some missing e)
    | inr (j, conn, found, before, o) ↦
        let same : j ≡ k = omega (arith, some_ℕ-injective found e) in (conn, rw (← same) o.at)
  ]
    where
      none_some : {o : Option ℕ} → o ≡ none → o ≡ some k → ⊥
      none_some h g = cc

      some_ℕ-injective : {o : Option ℕ} {a b : ℕ} → o ≡ some a → o ≡ some b → a ≡ b
      some_ℕ-injective h g = cc

  -- A descriptor that epoll_ctl refused is still in `conn_fd`.
  take_unused_refused :
      (clock conn_fd : ℤ) (found : Option (ℕ × Connection)) (resources : Resources ssl)
      → eq_ℤ conn_fd (pos 0) ≡ false
      → (let (left, after) = take_unused ssl kernel false clock conn_fd found resources in
          check {E = NoExit} (eq_ℤ left (pos 0)) >> ok after)
        ≡ abort Fault.assertion
  unfolding take_unused check
  take_unused_refused clock conn_fd none resources named = rw named refl
  take_unused_refused clock conn_fd (some (i, conn)) resources named = rw named refl

-- Where the table is not full, and epoll_ctl does not accept the descriptor that accept answered,
-- the handling of the event ends in a failed assert: behind the loop `conn_fd` is not 0.
pub accept_conn-refused :
    (ssl : OpenSsl) (kernel : Kernel) (answers : Answers) (resources : Resources ssl)
    → resources.conns_total < max_concurrency
    → ltb_ℤ answers.accept (pos 0) ≡ false
    → eq_ℤ answers.accept (pos 0) ≡ false
    → answers.added ≡ false
    → accept_conn ssl kernel answers resources ≡ abort Fault.assertion
unfolding accept_conn make_room add_conn
accept_conn-refused ssl kernel answers resources few given named refused =
    let room : leb max_concurrency resources.conns_total ≡ false = ground arith in
    rw (accept_conn, make_room, room, add_conn, given, refused)
      (take_unused_refused ssl kernel answers.clock answers.accept (unused resources.conns 0)
        (record resources {
          conns_total = add64 resources.conns_total 1;
          accepted = answers.accept ∷ resources.accepted;
        })
        named)

-- Where the table is full, and `k` is the place of the connection that was opened first: if one call
-- of epoll_wait answers an event for the listening socket and behind it one for the connection at
-- `k`, and the connection that waited is gone when it is accepted, then the handling of these events
-- ends in a failed assert, because the first of them has closed the connection at `k`.
pub handle_events-stale :
    (ssl : OpenSsl) (kernel : Kernel) (answers later : Answers) (event stale : Event)
    (resources : Resources ssl) (k : ℕ)
    → length resources.conns ≡ max_concurrency
    → resources.conns_total ≡ max_concurrency
    → oldest resources.conns 0 max_int64 none ≡ some k
    → eq_ℤ event.idx max_int32 ≡ true
    → ltb_ℤ answers.accept (pos 0) ≡ true
    → stale.idx ≡ pos k
    → handle_events ssl kernel ((event, answers) ∷ (stale, later) ∷ []) resources
      ≡ abort Fault.assertion
unfolding handle_events free_conn going is_used
handle_events-stale ssl kernel answers later event stale resources k table full first listening gone
      e =
    let (conn, at) = oldest-get_elem? ssl kernel resources.conns k first in
    let below = get_elem?-some_lt resources.conns k at in
    let freed = record conn { fd = pos 0; buf_size = 0; open_time = pos 0 } in
    let after = record resources {
      conns = set resources.conns k freed;
      conns_total = sub64 resources.conns_total 1;
      actions = close_fd conn.fd ∷ resources.actions;
    } in
    let there = get_elem?-set resources.conns k freed at in
    rw
      (
        evict_alone ssl kernel answers event resources k conn listening full first at gone,
        at,
        handle_event_closed ssl kernel later stale k after freed e (omega arith) there refl,
      )
      refl

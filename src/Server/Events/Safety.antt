-- ===== src/Server/Events/Safety.antt =====
-- Every event that epoll may answer keeps the state of the server valid, and no assert fails.
use simple_x509_authenticate.Common.{
  ℕ, ◌<◌, ◌≡◌, inl, inr, true, false, some, get_elem?, get_elem?-lt, get_elem?-some_lt, ◌&&◌, ◌||◌,
  Bool-cases, arith,
}
use simple_x509_authenticate.Common.Int.{ℤ, pos, ltb_ℤ, eq_ℤ}
use simple_x509_authenticate.Common.Result.{Ends, Ends-bind, Ends-mono}
use simple_x509_authenticate.Common.Buffer.{Ends-some, Ends-check}
use simple_x509_authenticate.Crypto.Ssl.{OpenSsl}
use simple_x509_authenticate.Crypto.{PubKey}
use simple_x509_authenticate.Server.Kernel.{Kernel, Answers, Event, Allocates, Answered}
use simple_x509_authenticate.Server.Scripts.Authentic.{Usable}
use simple_x509_authenticate.Server.Connections.{max_concurrency, Connection, Resources, is_used}
use simple_x509_authenticate.Server.Connections.Invariant.{Valid}
use simple_x509_authenticate.Server.Connections.Accept.{Placed, accept_conn-Placed}
use simple_x509_authenticate.Server.Receive.Loop.{receive-Ended}
use simple_x509_authenticate.Server.Receive.Heard.{Ended}
use simple_x509_authenticate.Server.Events.{
  max_int32, on_input, on_hangup, on_error, on_conn, on_index, handle_event,
}
use simple_x509_authenticate.Server.Events.Going.{going-Ends}
use simple_x509_authenticate.Server.Events.Runs.{free_conn-Stepped, run_script-Stepped}
use simple_x509_authenticate.Server.Sessions.{unheard}
use simple_x509_authenticate.Server.Sessions.Moved.{
  Ended-Turn, Placed-Moves, Stepped, Stepped-still, Turned, Turned-then, Stepped-Turned,
}

module _ (ssl : OpenSsl) (P : PubKey ssl → Type 0)
    (usable : (key : PubKey ssl) → P key → Usable ssl key) (kernel : Kernel) (answers : Answers)
    (event : Event) (allocates : Allocates kernel) (answered : Answered answers) where
  on_input-Turned :
      (i : ℕ) (resources : Resources ssl) (conn : Connection)
      → Valid ssl P resources
      → get_elem? resources.conns i ≡ some conn
      → is_used conn ≡ true
      → Ends
          (Valid ssl P)
          (Turned ssl P kernel answers resources)
          (on_input ssl kernel answers event i resources)
  unfolding on_input
  on_input-Turned i resources conn valid at used = elim (Bool-cases event.epollin) [
    | inl input ↦
        rw (input, on_input)
          (going-Ends (Valid ssl P) (Ended ssl P kernel i (answers.recv conn.fd) 0 resources conn)
            (Turned ssl P kernel answers resources) _
            (λ r ended. record {
              valid = ended.valid;
              turn = Ended-Turn ssl P kernel answers i resources r conn at used valid ended;
            })
            (receive-Ended ssl P kernel answers.recv i resources conn allocates answered.within
              valid at used))
    | inr quiet ↦
        rw (quiet, on_input)
          (Stepped-Turned ssl P kernel answers resources resources
            (Stepped-still ssl P kernel answers resources valid))
  ]

  on_hangup-Stepped :
      (i : ℕ) (resources : Resources ssl)
      → Valid ssl P resources
      → i < max_concurrency
      → Ends
          (Valid ssl P)
          (Stepped ssl P kernel answers resources)
          (on_hangup ssl kernel answers event i resources)
  unfolding on_hangup
  on_hangup-Stepped i resources valid lt =
      let whole = valid.table in
      let (conn, at) = get_elem?-lt resources.conns i (omega arith) in
      Ends-some (Valid ssl P) (Stepped ssl P kernel answers resources) _ _ at
        (elim (Bool-cases (is_used conn && (event.epollrdhup || event.epollhup))) [
          | inl over ↦ rw over (
              run_script-Stepped ssl P usable kernel answers i resources conn valid at
                (ground arith))
          | inr going ↦ rw going (Stepped-still ssl P kernel answers resources valid)
        ])

  on_error-Stepped :
      (i : ℕ) (resources : Resources ssl)
      → Valid ssl P resources
      → i < max_concurrency
      → Ends
          (Valid ssl P)
          (Stepped ssl P kernel answers resources)
          (on_error ssl kernel event i resources)
  unfolding on_error
  on_error-Stepped i resources valid lt =
      let whole = valid.table in
      let (conn, at) = get_elem?-lt resources.conns i (omega arith) in
      Ends-some (Valid ssl P) (Stepped ssl P kernel answers resources) _ _ at
        (elim (Bool-cases (is_used conn && event.epollerr)) [
          | inl broken ↦ rw broken (
              free_conn-Stepped ssl P usable kernel answers i resources conn valid at
                (ground arith))
          | inr fine ↦ rw fine (Stepped-still ssl P kernel answers resources valid)
        ])

  on_conn-Turned :
      (i : ℕ) (resources : Resources ssl) (conn : Connection)
      → Valid ssl P resources
      → get_elem? resources.conns i ≡ some conn
      → is_used conn ≡ true
      → Ends
          (Valid ssl P)
          (Turned ssl P kernel answers resources)
          (on_conn ssl kernel answers event i resources)
  unfolding on_conn
  on_conn-Turned i resources conn valid at used =
      let S = Turned ssl P kernel answers resources in
      let whole = valid.table in
      let below = get_elem?-some_lt resources.conns i at in
      Ends-some (Valid ssl P) S _ _ at (
        Ends-check (Valid ssl P) S (is_used conn) _ used (
          Ends-bind (Valid ssl P) S S (on_input ssl kernel answers event i resources) _
            (on_input-Turned i resources conn valid at used)
            λ r _ first.
              Ends-bind (Valid ssl P) S S (on_hangup ssl kernel answers event i r) _
                (Ends-mono (Valid ssl P) (Stepped ssl P kernel answers r) S _
                  (λ t second. Turned-then ssl P kernel answers resources r t first second)
                  (on_hangup-Stepped i r first.valid (omega arith)))
                λ r _ both.
                  Ends-mono (Valid ssl P) (Stepped ssl P kernel answers r) S _
                    (λ t last. Turned-then ssl P kernel answers resources r t both last)
                    (on_error-Stepped i r both.valid (omega arith))))

  on_index-Turned :
      (idx : ℤ) (i : ℕ) (resources : Resources ssl) (conn : Connection)
      → idx ≡ pos i
      → Valid ssl P resources
      → get_elem? resources.conns i ≡ some conn
      → is_used conn ≡ true
      → Ends
          (Valid ssl P)
          (Turned ssl P kernel answers resources)
          (on_index ssl kernel answers event idx resources)
  unfolding on_index
  on_index-Turned idx i resources conn e valid at used =
      rw e (on_conn-Turned i resources conn valid at used)

-- epoll_ctl succeeds where it is called, and an event that is not for the listening socket is for a
-- connection in use.
pub record Ready (ssl : OpenSsl) (resources : Resources ssl) (event : Event) (answers : Answers)
    : Type 0 where
  pub added : answers.added ≡ true
  pub registered :
      eq_ℤ event.idx max_int32 ≡ false
      → (i : ℕ) × (conn : Connection) × (event.idx ≡ pos i)
        × (get_elem? resources.conns i ≡ some conn)
        × (is_used conn ≡ true)

pub handle_event-Turned :
    (ssl : OpenSsl) (P : PubKey ssl → Type 0)
    → ((key : PubKey ssl) → P key → Usable ssl key)
    → (kernel : Kernel) (answers : Answers) (event : Event) (resources : Resources ssl)
    → Allocates kernel
    → Answered answers
    → Ready ssl resources event answers
    → Valid ssl P resources
    → Ends
        (Valid ssl P)
        (Turned ssl P kernel answers resources)
        (handle_event ssl kernel answers event resources)
unfolding handle_event
handle_event-Turned ssl P usable kernel answers event resources allocates answered ready valid =
    elim (Bool-cases (eq_ℤ event.idx max_int32)) [
      | inl listening ↦
          rw (listening, handle_event)
            (going-Ends (Valid ssl P) (Placed ssl P resources answers.accept answers.clock)
              (Turned ssl P kernel answers resources) _
              (λ r placed. record {
                valid = placed.valid;
                turn = unheard (Placed-Moves ssl P kernel answers resources r valid placed);
              })
              (accept_conn-Placed ssl P kernel answers allocates answered ready.added resources
                valid))
      | inr other ↦
          let (i, conn, e, at, used) = ready.registered other in
          let whole = valid.table in
          let below = get_elem?-some_lt resources.conns i at in
          let inside : ltb_ℤ event.idx (pos max_concurrency) ≡ true = rw e (ground arith) in
          rw (other, inside, handle_event)
            (on_index-Turned ssl P usable kernel answers event allocates answered event.idx i
              resources conn e valid at used)
    ]

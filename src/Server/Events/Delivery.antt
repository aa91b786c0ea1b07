-- ===== src/Server/Events/Delivery.antt =====
-- A signed script that a client sends is executed, whatever the pieces are in which it arrives.
use simple_x509_authenticate.Common.{
  ℕ, ◌<◌, ◌≡◌, refl, sym, ap, ap₂, subst, ◌∙◌, true, false, [], ◌∷◌, ◌++◌, some, Bytes, length,
  get_elem?, get_elem?-set, ◌&&◌, arith,
}
use simple_x509_authenticate.Common.Int.{ℤ}
use simple_x509_authenticate.Common.Result.{ok, Yields, Yields-bind, Yields-mono}
use simple_x509_authenticate.Common.Buffer.{Yields-some, Yields-check}
use simple_x509_authenticate.Crypto.Ssl.{OpenSsl}
use simple_x509_authenticate.Crypto.{PubKey}
use simple_x509_authenticate.Server.Kernel.{Kernel, Answers, Event, Allocates, Within}
use simple_x509_authenticate.Server.Scripts.{next_number, frame, Keys, executed, authenticate}
use simple_x509_authenticate.Server.Scripts.Delivery.{Signatory, authenticate-frame}
use simple_x509_authenticate.Server.Connections.{
  max_script_size, Connection, Resources, close_fd, call_exec_script, is_used, contents, free_conn,
}
use simple_x509_authenticate.Server.Connections.Invariant.{Valid}
use simple_x509_authenticate.Server.Events.Going.{going-Yields}
use simple_x509_authenticate.Server.Events.{
  settled, finish_conn, run_script, on_input, on_hangup, on_error, on_conn,
}
use simple_x509_authenticate.Server.Events.Arrival.{
  Delivers, contents-nothing, Arrived, on_input-Arrived,
}

module _ (ssl : OpenSsl) (P : PubKey ssl → Type 0) (kernel : Kernel) (i : ℕ) where
  -- The script was executed, and the connection closed.
  pub record Executed (fd now : ℤ) (key : PubKey ssl) (script : Bytes) (n : ℕ)
      (before after : Resources ssl) : Type 0 where
    pub acted : after.actions ≡ close_fd fd ∷ call_exec_script key script n now ∷ before.actions
    pub gone : (c : Connection) × (get_elem? after.conns i ≡ some c) × (is_used c ≡ false)

  run_script-Executed :
      (now : ℤ) (key : PubKey ssl) (sig script : Bytes) (resources : Resources ssl)
      (conn : Connection)
      → Signatory ssl now key sig script resources.keys
      → Valid ssl P resources
      → get_elem? resources.conns i ≡ some conn
      → is_used conn ≡ true
      → contents conn ≡ frame sig script
      → Yields
          (Executed conn.fd now key script (next_number resources.keys.script_n) resources)
          (run_script ssl now i conn resources)
  unfolding run_script settled finish_conn free_conn is_used
  run_script-Executed now key sig script resources conn signed valid at used holds =
      let e : authenticate ssl now (contents conn) resources.keys
          ≡ ok (
            executed key script,
            record resources.keys { script_n = next_number resources.keys.script_n },
          ) =
        rw holds (authenticate-frame ssl now key sig script resources.keys signed) in
      rw (run_script, e, settled)
        (going-Yields (Resources ssl)
          (Executed conn.fd now key script (next_number resources.keys.script_n) resources) _
          (Yields-some _ _ _ at
            (record { acted = refl; gone = (_, get_elem?-set resources.conns i _ at, refl) })))

  on_hangup-Executed :
      (answers : Answers) (event : Event) (key : PubKey ssl) (sig script : Bytes)
      (resources : Resources ssl) (conn : Connection)
      → event.epollrdhup ≡ true
      → Signatory ssl answers.time key sig script resources.keys
      → Valid ssl P resources
      → get_elem? resources.conns i ≡ some conn
      → is_used conn ≡ true
      → contents conn ≡ frame sig script
      → Yields
          (Executed conn.fd answers.time key script (next_number resources.keys.script_n) resources)
          (on_hangup ssl kernel answers event i resources)
  unfolding on_hangup
  on_hangup-Executed answers event key sig script resources conn over signed valid at used holds =
      Yields-some _ _ _ at (
        rw (used, over)
          (run_script-Executed answers.time key sig script resources conn signed valid at used
            holds))

  on_error_closed :
      (Q : Resources ssl → Type 0) (event : Event) (resources : Resources ssl) (conn : Connection)
      → get_elem? resources.conns i ≡ some conn
      → is_used conn ≡ false
      → Q resources
      → Yields Q (on_error ssl kernel event i resources)
  unfolding on_error
  on_error_closed Q event resources conn at free h =
      let quiet : (is_used conn && event.epollerr) ≡ false = ground arith in
      Yields-some Q _ _ at (rw quiet h)

  on_conn-Executed :
      (answers : Answers) (event : Event) (key : PubKey ssl) (sig script : Bytes)
      (resources : Resources ssl) (conn : Connection)
      → Allocates kernel
      → ((fd : ℤ) (n before room : ℕ) → Within room (answers.recv fd n before room))
      → Delivers kernel (answers.recv conn.fd) (frame sig script)
      → length (frame sig script) < max_script_size
      → event.epollin ≡ true
      → event.epollrdhup ≡ true
      → Signatory ssl answers.time key sig script resources.keys
      → Valid ssl P resources
      → get_elem? resources.conns i ≡ some conn
      → is_used conn ≡ true
      → conn.buf_size ≡ 0
      → contents conn ≡ []
      → Yields
          (Executed conn.fd answers.time key script (next_number resources.keys.script_n) resources)
          (on_conn ssl kernel answers event i resources)
  unfolding on_conn Arrived
  on_conn-Executed answers event key sig script resources conn allocates within delivers fits input
        over signed valid at used nothing empty =
      let X =
        Executed conn.fd answers.time key script (next_number resources.keys.script_n) resources in
      let sent = frame sig script in
      Yields-some X _ _ at (
        Yields-check X (is_used conn) _ used (
          Yields-bind (Arrived ssl P kernel i resources conn sent) X
            (on_input ssl kernel answers event i resources) _
            (on_input-Arrived ssl P kernel i answers event sent resources conn allocates within
              delivers nothing fits input valid at used)
            λ r _ (v, w).
              let holds : contents w.now ≡ sent = w.received ∙ ap (λ xs. xs ++ sent) empty in
              Yields-bind
                (Executed w.now.fd answers.time key script (next_number r.keys.script_n) r) X
                (on_hangup ssl kernel answers event i r) _
                (on_hangup-Executed answers event key sig script r w.now over
                  (subst (Signatory ssl answers.time key sig script) (sym w.kept) signed) v w.at
                  w.used holds)
                λ done _ x.
                  let (c, there, free) = x.gone in
                  on_error_closed X event done c there free (record {
                    acted =
                        x.acted
                        ∙ ap
                            (λ (ks : Keys ssl).
                              close_fd w.now.fd
                              ∷ call_exec_script key script (next_number ks.script_n) answers.time
                              ∷ r.actions)
                            w.kept
                        ∙ ap₂
                            (λ fd before.
                              close_fd fd
                              ∷ call_exec_script key script (next_number resources.keys.script_n)
                                  answers.time
                              ∷ before)
                            w.fd w.acted;
                    gone = x.gone;
                  })))

-- A client that is connected and has sent nothing yet sends a signed script as gen_sig writes it, and
-- ends the connection: where recv answers these bytes in any pieces and never fails, they are fewer
-- than max_script_size, a key in use has not expired at the time and verifies the signature, of its
-- size, on the script, and the keys in front of it have not expired and refuse these bytes, the
-- handling of the event executes exactly this script, with the next number, and then closes the
-- connection.
pub on_conn-executed :
    (ssl : OpenSsl) (P : PubKey ssl → Type 0) (kernel : Kernel) (answers : Answers) (event : Event)
    (i : ℕ) (key : PubKey ssl) (sig script : Bytes) (resources : Resources ssl) (conn : Connection)
    → Allocates kernel
    → ((fd : ℤ) (n before room : ℕ) → Within room (answers.recv fd n before room))
    → Delivers kernel (answers.recv conn.fd) (frame sig script)
    → length (frame sig script) < max_script_size
    → event.epollin ≡ true
    → event.epollrdhup ≡ true
    → Signatory ssl answers.time key sig script resources.keys
    → Valid ssl P resources
    → get_elem? resources.conns i ≡ some conn
    → is_used conn ≡ true
    → conn.buf_size ≡ 0
    → Yields
        (λ after.
          after.actions
          ≡ close_fd conn.fd
            ∷ call_exec_script key script (next_number resources.keys.script_n) answers.time
            ∷ resources.actions)
        (on_conn ssl kernel answers event i resources)
on_conn-executed ssl P kernel answers event i key sig script resources conn allocates within
      delivers fits input over signed valid at used nothing =
    Yields-mono
      (Executed ssl P kernel i conn.fd answers.time key script (next_number resources.keys.script_n)
        resources)
      _ _ (λ r x. x.acted)
      (on_conn-Executed ssl P kernel i answers event key sig script resources conn allocates within
        delivers fits input over signed valid at used nothing (contents-nothing conn nothing))

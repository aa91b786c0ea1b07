-- ===== src/Server/Events.antt =====
-- The event loop of src/main.c.
pub mod Going
pub mod Runs
pub mod Safety
pub mod Reachable
pub mod Stale
pub mod Shutdown
pub mod Arrival
pub mod Delivery
use simple_x509_authenticate.Common.{
  ℕ, zero, suc, Bool, true, false, List, [], ◌∷◌, Option, none, some, Bytes, get_elem?, take, ltb,
  ◌&&◌, ◌||◌,
}
use simple_x509_authenticate.Common.Int.{ℤ, pos, negsuc, ltb_ℤ, eq_ℤ}
use simple_x509_authenticate.Common.Result.{
  Result, ok, err, abort, Fault, ◌>>=◌, ◌>>◌, check, refuse,
}
use simple_x509_authenticate.Common.Buffer.{or_out_of_bounds}
use simple_x509_authenticate.Crypto.Ssl.{OpenSsl}
use simple_x509_authenticate.Crypto.{Extract, PubKey}
use simple_x509_authenticate.Server.Kernel.{Kernel, Answers, Event}
use simple_x509_authenticate.Server.Scripts.{
  Keys, Outcome, executed, unauthentic, all_expired, authenticate,
}
use simple_x509_authenticate.Server.Connections.{
  max_concurrency, Connection, NoExit, Serve, Resources, call_exec_script, is_used, contents,
  free_conn, accept_conn,
}
use simple_x509_authenticate.Server.Receive.{receive}

abbrev pub max_int32 : ℤ
max_int32 = pos 0x7fffffff

-- The loop over the keys answers no code.
unfoldable pub settled {ℓ κ} : {E : Type ℓ} {A : Type κ} → Extract A → Result E A
settled (ok a) = ok a
settled (err code) = abort Fault.assertion
settled (abort x) = abort x

-- A function of the table of connections, in the event loop.
unfoldable pub going {ℓ κ} : {E : Type ℓ} {A : Type κ} → Serve A → Result E A
going (ok a) = ok a
going (err e) = elim e [ ]
going (abort x) = abort x

module _ (ssl : OpenSsl) where
  -- main_protected answers -1 with the state that it leaves to free_all.
  abbrev pub Handling {ℓ} : Type ℓ → Type ℓ
  Handling A = Result (Resources ssl) A

  -- What follows the loop over the keys.
  unfoldable pub finish_conn :
      ℤ → ℕ → Outcome ssl → Keys ssl → Resources ssl → Handling (Resources ssl)
  finish_conn now i (executed key script) keys resources = going (
      free_conn ssl i (record resources {
        keys = keys;
        actions = call_exec_script key script keys.script_n now ∷ resources.actions;
      }))
  finish_conn now i unauthentic keys resources =
      going (free_conn ssl i (record resources { keys = keys }))
  finish_conn now i all_expired keys resources = err (record resources { keys = keys })

  -- The connection has terminated: validate and run the script.
  unfoldable pub run_script : ℤ → ℕ → Connection → Resources ssl → Handling (Resources ssl)
  run_script now i conn resources =
      settled (authenticate ssl now (contents conn) resources.keys) >>= λ (outcome, keys).
      finish_conn now i outcome keys resources

  module _ (kernel : Kernel) where
    unfoldable pub on_input : Answers → Event → ℕ → Resources ssl → Handling (Resources ssl)
    on_input answers event i resources = elim event.epollin [
      | true ↦ going (receive ssl kernel answers.recv i resources)
      | false ↦ ok resources
    ]

    unfoldable pub on_hangup : Answers → Event → ℕ → Resources ssl → Handling (Resources ssl)
    on_hangup answers event i resources = or_out_of_bounds (get_elem? resources.conns i) >>= λ conn.
        elim (is_used conn && (event.epollrdhup || event.epollhup)) [
          | true ↦ run_script answers.time i conn resources
          | false ↦ ok resources
        ]

    unfoldable pub on_error : Event → ℕ → Resources ssl → Handling (Resources ssl)
    on_error event i resources = or_out_of_bounds (get_elem? resources.conns i) >>= λ conn.
        elim (is_used conn && event.epollerr) [
          | true ↦ going (free_conn ssl i resources)
          | false ↦ ok resources
        ]

    -- A connection has had events, handle each one.
    unfoldable pub on_conn : Answers → Event → ℕ → Resources ssl → Handling (Resources ssl)
    on_conn answers event i resources = or_out_of_bounds (get_elem? resources.conns i) >>= λ conn.
        check (is_used conn)
        >> (on_input answers event i resources >>= λ r.
            on_hangup answers event i r >>= λ r. on_error event i r)

    -- `resources->conns[idx]`; a negative index lies outside of the table.
    unfoldable pub on_index : Answers → Event → ℤ → Resources ssl → Handling (Resources ssl)
    on_index answers event (pos i) resources = on_conn answers event i resources
    on_index answers event (negsuc i) resources = abort Fault.out_of_bounds

    unfoldable pub handle_event : Answers → Event → Resources ssl → Handling (Resources ssl)
    handle_event answers event resources = elim (eq_ℤ event.idx max_int32) [
      | true ↦ going (accept_conn ssl kernel answers resources)
      | false ↦ elim (ltb_ℤ event.idx (pos max_concurrency)) [
        | true ↦ on_index answers event event.idx resources
        | false ↦ err resources
      ]
    ]

    -- The events that one call of epoll_wait answers.
    unfoldable pub handle_events : List (Event × Answers) → Resources ssl → Handling (Resources ssl)
    handle_events [] resources = ok resources
    handle_events ((event, answers) ∷ events) resources =
        handle_event answers event resources >>= λ r. handle_events events r

    -- The loop behind the start, as long as epoll_wait answers; `none` is a negative answer.
    unfoldable pub event_loop :
        List (Option (List (Event × Answers))) → Resources ssl → Handling (Resources ssl)
    event_loop [] resources = ok resources
    event_loop (none ∷ batches) resources = err resources
    event_loop (some events ∷ batches) resources =
        handle_events events resources >>= λ r. event_loop batches r

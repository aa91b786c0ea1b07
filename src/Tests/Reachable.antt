-- ===== src/Tests/Reachable.antt =====
-- A run of the server from its start: a client connects and sends a signed script.
use simple_x509_authenticate.Common.{
  ◌≡◌, List, refl, get_elem?, true, [], ◌∷◌, some, Bytes, replicate,
}
use simple_x509_authenticate.Common.Int.{pos}
use simple_x509_authenticate.Common.Result.{ok, err, abort, check}
use simple_x509_authenticate.Common.Buffer.{read}
use simple_x509_authenticate.Crypto.{pub_key_verify, assert_some, openssl_verify}
use simple_x509_authenticate.Server.Kernel.{Answers, Answered}
use simple_x509_authenticate.Server.Scripts.{frame, Keys, authenticate, auth_loop, try_key}
use simple_x509_authenticate.Server.Connections.{
  Connection, Resources, initial, close_fd, call_exec_script, is_used, contents, unused,
  with_buffer, open_conn, free_conn, make_room, take_unused, add_conn, accept_conn,
}
use simple_x509_authenticate.Server.Receive.{
  store, append_received, grow, keep_room, receive_failed, receive_loop, receive,
}
use simple_x509_authenticate.Server.Events.{
  Handling, going, settled, finish_conn, run_script, on_input, on_hangup, on_error, on_conn,
  on_index, handle_event,
}
use simple_x509_authenticate.Server.Events.Reachable.{
  step, Last, amid, Reach, reach_start, reach_step,
}
use simple_x509_authenticate.Tests.Inputs.{agreeable}
use simple_x509_authenticate.Tests.Loaded.{certificate_key}
use simple_x509_authenticate.Tests.Connections.{linux, listening, first_ready}
use simple_x509_authenticate.Tests.Socket.{socket, socket-Within}

abbrev pub keys : Keys agreeable
keys = record { keys = certificate_key ∷ []; keys_size = 1; script_n = 0 }

abbrev sent : Bytes
sent = frame (replicate 64 0) (104 ∷ [])

abbrev answers : Answers
answers = record {
  recv = λ fd. socket linux sent 100;
  accept = pos 7;
  added = true;
  clock = pos 5;
  time = pos 1790000000;
}

-- The state behind the handling of an event that does not end the server.
abbrev pub state_behind : Handling agreeable (Resources agreeable) → Resources agreeable
state_behind (ok r) = r
state_behind (err e) = e
state_behind (abort x) = initial agreeable keys

abbrev one_conn : Connection
one_conn = record {
  fd = pos 7;
  open_time = pos 5;
  buf_size = 0;
  buf_cap = 1024;
  buf = some (replicate 1024 0);
}

abbrev connected : Resources agreeable
connected = state_behind (handle_event agreeable linux answers listening (initial agreeable keys))

abbrev pub served : Resources agreeable
served = state_behind (handle_event agreeable linux answers first_ready connected)

accepted : handle_event agreeable linux answers listening (initial agreeable keys) ≡ ok connected
unfolding handle_event going accept_conn make_room add_conn unused take_unused open_conn with_buffer
    is_used initial check
accepted = refl

-- The script is executed, and the connection closed.
pub executed :
    (handle_event agreeable linux answers first_ready connected ≡ ok served)
    × (served.actions
        ≡ close_fd (pos 7) ∷ call_exec_script certificate_key (104 ∷ []) 1 (pos 1790000000) ∷ [])
unfolding handle_event going accept_conn make_room add_conn unused take_unused open_conn with_buffer
    is_used initial on_index on_conn on_input on_hangup on_error receive receive_loop receive_failed
    append_received store keep_room grow socket run_script settled finish_conn free_conn contents
    authenticate auth_loop try_key pub_key_verify openssl_verify assert_some frame check read
executed = (refl, refl)

first_used : (get_elem? connected.conns 0 ≡ some one_conn) × (is_used one_conn ≡ true)
unfolding handle_event going accept_conn make_room add_conn unused take_unused open_conn with_buffer
    is_used initial check
first_used = (refl, refl)

answers-Answered : Answered answers
answers-Answered = record {
  within = λ fd. socket-Within linux sent 100 refl;
  accepted = refl;
  young = refl;
}

abbrev pub trace : List Answers
trace = answers ∷ answers ∷ []

pub served-Reach : Reach agreeable linux (initial agreeable keys) trace served
served-Reach =
    reach_step
      (reach_step reach_start (
        step listening answers-Answered (record { added = refl; registered = λ other. cc })
          accepted))
      (step first_ready answers-Answered
        (record { added = refl; registered = λ _. (0, one_conn, refl, first_used.0, first_used.1) })
        executed.0)

-- The same client, behind the expiry of the only key.
abbrev late_answers : Answers
late_answers = record answers { time = pos 1800000000 }

abbrev pub expired : Resources agreeable
expired = state_behind (handle_event agreeable linux late_answers first_ready connected)

expired_exit : handle_event agreeable linux late_answers first_ready connected ≡ err expired
unfolding handle_event going accept_conn make_room add_conn unused take_unused open_conn with_buffer
    is_used initial on_index on_conn on_input on_hangup on_error receive receive_loop receive_failed
    append_received store keep_room grow socket run_script settled finish_conn free_conn contents
    authenticate auth_loop try_key pub_key_verify openssl_verify assert_some frame check read
expired_exit = refl

abbrev pub late_trace : List Answers
late_trace = late_answers ∷ answers ∷ []

late_answers-Answered : Answered late_answers
late_answers-Answered = record {
  within = λ fd. socket-Within linux sent 100 refl;
  accepted = refl;
  young = refl;
}

pub expired-Last : Last agreeable linux (initial agreeable keys) late_trace expired
expired-Last =
    amid first_ready
      (reach_step reach_start (
        step listening answers-Answered (record { added = refl; registered = λ other. cc })
          accepted))
      late_answers-Answered
      (record { added = refl; registered = λ _. (0, one_conn, refl, first_used.0, first_used.1) })
      expired_exit

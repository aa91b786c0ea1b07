-- ===== src/Tests/Connections.antt =====
-- The table of connections and the loop that receives, at concrete states.
use simple_x509_authenticate.Common.{
  ◌+◌, ◌≤◌, ◌≡◌, refl, length, true, false, [], ◌∷◌, some, none, Bytes, replicate, length-replicate,
  arith,
}
use simple_x509_authenticate.Common.Int.{ℤ, pos, negsuc, eq_ℤ}
use simple_x509_authenticate.Common.Result.{ok, err, abort, Fault, Yields}
use simple_x509_authenticate.Crypto.{pub_key_verify, assert_some, openssl_verify}
use simple_x509_authenticate.Server.Kernel.{Kernel, Answers, Event, Allocates, Answered}
use simple_x509_authenticate.Server.Scripts.{frame}
use simple_x509_authenticate.Server.Scripts.Authentic.{Usable}
use simple_x509_authenticate.Server.Connections.{
  Connection, Resources, zero_conn, max_int64, is_used, oldest, close_fd, call_exec_script,
  accept_conn, contents,
}
use simple_x509_authenticate.Server.Connections.Table.{count_used, one_if}
use simple_x509_authenticate.Server.Connections.Owned.{
  holds, count_held, count_held-replicate, occurrences, closes,
}
use simple_x509_authenticate.Server.Connections.Invariant.{Valid}
use simple_x509_authenticate.Server.Connections.Sound.{Sound, replicate-Sound}
use simple_x509_authenticate.Server.Connections.Accept.{Placed, accept_conn-Placed}
use simple_x509_authenticate.Server.Receive.{receive}
use simple_x509_authenticate.Server.Receive.Loop.{receive-Ended}
use simple_x509_authenticate.Server.Receive.Heard.{Ended}
use simple_x509_authenticate.Server.Events.{handle_events, on_conn, run_script}
use simple_x509_authenticate.Server.Events.Shutdown.{run_script-shutdown}
use simple_x509_authenticate.Server.Events.Stale.{accept_conn-refused, handle_events-stale}
use simple_x509_authenticate.Server.Scripts.Delivery.{Signatory}
use simple_x509_authenticate.Server.Events.Delivery.{on_conn-executed}
use simple_x509_authenticate.Tests.Inputs.{agreeable}
use simple_x509_authenticate.Tests.Server.{small_key, old_key, one_key, small_key-Usable}
use simple_x509_authenticate.Tests.Socket.{socket, socket-Delivers, socket-Within}

abbrev pub linux : Kernel
linux = record { eagain = 11; ewouldblock = 11; malloc = λ n. replicate n 0 }

pub linux-Allocates : Allocates linux
linux-Allocates = record { size = λ n. length-replicate n 0 }

-- A client that sends a signed script in pieces of at most three bytes.
abbrev pub sent : Bytes
sent = frame (1 ∷ 2 ∷ []) (104 ∷ 105 ∷ [])

abbrev pub answers : Answers
answers = record {
  recv = λ fd. socket linux sent 2;
  accept = pos 7;
  added = true;
  clock = pos 5;
  time = pos 50;
}

answers-Answered : Answered answers
answers-Answered = record {
  within = λ fd. socket-Within linux sent 2 refl;
  accepted = refl;
  young = refl;
}

-- Nobody is there any more when accept is called.
abbrev gone : Answers
gone = record answers { accept = negsuc 0 }

abbrev pub listening : Event
listening = record {
  idx = pos 0x7fffffff;
  epollin = true;
  epollrdhup = false;
  epollhup = false;
  epollerr = false;
}

abbrev pub first_ready : Event
first_ready = record {
  idx = pos 0;
  epollin = true;
  epollrdhup = true;
  epollhup = false;
  epollerr = false;
}

-- A buffer of four bytes, less than is received.
abbrev pub one_conn : Connection
one_conn = record {
  fd = pos 7;
  open_time = pos 5;
  buf_size = 0;
  buf_cap = 4;
  buf = some (0 ∷ 0 ∷ 0 ∷ 0 ∷ []);
}

one_conn-Sound : Sound one_conn
unfolding is_used
one_conn-Sound = record {
  buffered = (refl, omega arith, omega arith);
  small = omega arith;
  empty = λ _. refl;
  young = refl;
}

abbrev pub connected : Resources agreeable
connected = record {
  keys = one_key;
  conns = one_conn ∷ replicate 127 zero_conn;
  conns_total = 1;
  actions = [];
  accepted = pos 7 ∷ [];
}

one_conn-holds : (fd : ℤ) → holds fd one_conn ≡ one_if (eq_ℤ fd (pos 7))
unfolding holds is_used
one_conn-holds fd = refl

connected-owned :
    (fd : ℤ)
    → closes agreeable fd [] + count_held fd (one_conn ∷ replicate 127 zero_conn)
      ≡ occurrences fd (pos 7 ∷ [])
unfolding closes count_held occurrences
connected-owned fd = omega (arith, one_conn-holds fd, count_held-replicate fd 127)

pub connected-Valid : Valid agreeable (Usable agreeable) connected
unfolding count_used is_used
connected-Valid = record {
  owned = connected-owned;
  table = refl;
  counted = refl;
  sound = (one_conn-Sound, replicate-Sound 127);
  inside = omega arith;
  trusted = (small_key-Usable, tt);
  justified = tt;
}

abbrev crowded : Resources agreeable
crowded = record {
  keys = one_key;
  conns = replicate 128 one_conn;
  conns_total = 128;
  actions = [];
  accepted = [];
}

pub one_conn-is_used : is_used one_conn ≡ true
unfolding is_used
one_conn-is_used = refl

accept_conn-Placed_example :
    Yields
      (Placed agreeable (Usable agreeable) connected (pos 7) (pos 5))
      (accept_conn agreeable linux answers connected)
accept_conn-Placed_example =
    accept_conn-Placed agreeable (Usable agreeable) linux answers linux-Allocates answers-Answered
      refl connected connected-Valid

receive-Ended_example :
    Yields
      (Ended agreeable (Usable agreeable) linux 0 (socket linux sent 2) 0 connected one_conn)
      (receive agreeable linux (λ fd. socket linux sent 2) 0 connected)
receive-Ended_example =
    receive-Ended agreeable (Usable agreeable) linux (λ fd. socket linux sent 2) 0 connected
      one_conn linux-Allocates (λ fd. socket-Within linux sent 2 refl) connected-Valid refl
      one_conn-is_used

accept_conn-refused_example :
    accept_conn agreeable linux (record answers { added = false }) connected ≡ abort Fault.assertion
accept_conn-refused_example =
    accept_conn-refused agreeable linux (record answers { added = false }) connected (omega arith)
      refl refl refl

crowded-oldest : oldest (replicate 128 one_conn) 0 max_int64 none ≡ some 0
unfolding oldest is_used
crowded-oldest = refl

handle_events-stale_example :
    handle_events agreeable linux ((listening, gone) ∷ (first_ready, answers) ∷ []) crowded
    ≡ abort Fault.assertion
handle_events-stale_example =
    handle_events-stale agreeable linux gone answers listening first_ready crowded 0 refl refl
      crowded-oldest refl refl refl

pub small_key_script : pub_key_verify agreeable small_key (104 ∷ 105 ∷ []) (1 ∷ 2 ∷ []) ≡ ok true
unfolding pub_key_verify assert_some openssl_verify
small_key_script = refl

pub small_key-Signatory :
    Signatory agreeable (pos 50) small_key (1 ∷ 2 ∷ []) (104 ∷ 105 ∷ []) connected.keys
small_key-Signatory = record {
  k = 0;
  inside = omega arith;
  at = refl;
  size = refl;
  small = omega arith;
  good = small_key_script;
  valid = refl;
  earlier = λ j other h. elim h [ ];
}

on_conn-executed_example :
    Yields
      (λ after.
        after.actions
        ≡ close_fd (pos 7) ∷ call_exec_script small_key (104 ∷ 105 ∷ []) 1 (pos 50) ∷ [])
      (on_conn agreeable linux answers first_ready 0 connected)
unfolding frame
on_conn-executed_example =
    on_conn-executed agreeable (Usable agreeable) linux answers first_ready 0 small_key (1 ∷ 2 ∷ [])
      (104 ∷ 105 ∷ []) connected one_conn linux-Allocates (λ fd. socket-Within linux sent 2 refl)
      (socket-Delivers linux sent 2 refl) (omega arith) refl refl small_key-Signatory
      connected-Valid refl one_conn-is_used refl

one_conn-contents : length (contents one_conn) ≤ 2
unfolding contents
one_conn-contents = omega arith

run_script-shutdown_example :
    run_script agreeable (pos 50) 0 one_conn (record connected {
      keys = record { keys = small_key ∷ old_key ∷ []; keys_size = 2; script_n = 0 };
    })
    ≡ err (record connected {
      keys = record { keys = small_key ∷ old_key ∷ []; keys_size = 1; script_n = 0 };
    })
run_script-shutdown_example =
    run_script-shutdown agreeable (pos 50) 0 one_conn
      (record connected {
        keys = record { keys = small_key ∷ old_key ∷ []; keys_size = 2; script_n = 0 };
      })
      small_key old_key 0 refl refl refl (omega arith) one_conn-contents

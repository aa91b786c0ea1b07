-- ===== src/Server/Sessions/Refines.antt =====
-- The whole program, from its start on, does nothing but the moves of its sessions.
use simple_x509_authenticate.Common.{
  ℕ, zero, suc, ◌%◌, ◌^◌, length, ap₂, ◌<◌, ◌≡◌, refl, ap, subst, ◌∙◌, List, [], ◌∷◌, Bytes, arith,
}
use simple_x509_authenticate.Common.Result.{ok, Returns_ok}
use simple_x509_authenticate.X509.Time.{Timegm}
use simple_x509_authenticate.Crypto.Ssl.{OpenSsl, Documented}
use simple_x509_authenticate.Crypto.{PubKey}
use simple_x509_authenticate.ReadCert.Trust.{Mapped}
use simple_x509_authenticate.Server.Kernel.{Kernel, Answers, Allocates}
use simple_x509_authenticate.Server.Scripts.{next_number, Keys}
use simple_x509_authenticate.Server.Start.Origin.{Origin, Origin-Usable}
use simple_x509_authenticate.Server.Connections.{
  max_concurrency, Resources, Action, close_fd, call_exec_script, initial,
}
use simple_x509_authenticate.Server.Connections.Invariant.{Valid}
use simple_x509_authenticate.Server.Events.Reachable.{Reach, Reach-Followed}
use simple_x509_authenticate.Server.Start.{Startup, start}
use simple_x509_authenticate.Server.Start.Valid.{Sized, start-Valid, start-initial}
use simple_x509_authenticate.Server.Sessions.{
  bag, Spec, Move, arrive, evict, close, execute, Moves, still, moved, hears, Turn, unheard,
  listened, Turns, begun, turned,
}
use simple_x509_authenticate.Server.Sessions.Table.{view, opened-replicate}
use simple_x509_authenticate.Server.Sessions.Moved.{Spec-ext}

module _ (ssl : OpenSsl) where
  -- Nobody is there, and nothing was done.
  abbrev pub nobody : Spec ssl
  nobody = record { sessions = bag []; script_n = 0; actions = [] }

  -- The numbers of the scripts that were executed, the last first.
  unfoldable pub numbers : List (Action ssl) → List ℕ
  numbers [] = []
  numbers (close_fd fd ∷ actions) = numbers actions
  numbers (call_exec_script key script n now ∷ actions) = n ∷ numbers actions

  -- n, n - 1, down to 1, each as a word of 32 bits.
  unfoldable pub down_from : ℕ → List ℕ
  down_from zero = []
  down_from (suc n) = (suc n) % 2 ^ 32 ∷ down_from n

  -- The scripts that were executed are numbered.
  pub record Consecutive (script_n : ℕ) (actions : List (Action ssl)) : Type 0 where
    pub row : numbers actions ≡ down_from (length (numbers actions))
    pub count : script_n ≡ length (numbers actions) % 2 ^ 32

  module _ (P : PubKey ssl → Type 0) where
    abbrev Counted : Spec ssl → Type 0
    Counted spec = Consecutive spec.script_n spec.actions

    executed_next :
        (n : ℕ) (xs : List ℕ) → n ≡ length xs % 2 ^ 32 → next_number n ≡ suc (length xs) % 2 ^ 32
    executed_next n xs e = rw e (omega arith)

    module _ (answers : Answers) where
      Move-Counted :
          (before after : Spec ssl)
          → Move ssl P answers before after
          → Counted before
          → Counted after
      unfolding numbers down_from
      Move-Counted before after (arrive n size few e) h = rw e h
      Move-Counted before after (evict s others there size oldest e) h =
          rw e (record { row = h.row; count = h.count })
      Move-Counted before after (close s others there e) h =
          rw e (record { row = h.row; count = h.count })
      Move-Counted before after
            (execute s others key sig script there framed size good trusted fresh e) h =
          let next = executed_next before.script_n (numbers before.actions) h.count in
          rw e (record { row = ap₂ ◌∷◌ next h.row; count = next })

      Moves-Counted :
          {before after : Spec ssl}
          → Moves ssl P answers before after
          → Counted before
          → Counted after
      Moves-Counted still h = h
      Moves-Counted (moved earlier m) h = Move-Counted _ _ m (Moves-Counted earlier h)

    module _ (kernel : Kernel) where
      Turn-Counted :
          {answers : Answers} {before after : Spec ssl}
          → Turn ssl P answers kernel before after
          → Counted before
          → Counted after
      Turn-Counted {answers} (unheard moves) h = Moves-Counted answers moves h
      Turn-Counted {answers}
            (listened (hears s others more calls total room there told space silent small e) moves)
            h =
          Moves-Counted answers moves (rw e h)

      Turns-Counted :
          {start after : Spec ssl} {trace : List Answers}
          → Turns ssl P kernel start trace after
          → Counted start
          → Counted after
      Turns-Counted begun h = h
      Turns-Counted (turned earlier t) h = Turn-Counted t (Turns-Counted earlier h)

  initial-nobody : (keys : Keys ssl) → keys.script_n ≡ 0 → view ssl (initial ssl keys) ≡ nobody
  unfolding initial
  initial-nobody keys number = Spec-ext ssl _ _ (opened-replicate max_concurrency) number refl

-- Where OpenSSL and mmap behave as documented, and the start of the server succeeds, with a path
-- and names below 2 ^ 62 bytes, fewer than 2 ^ 62 names, and a path of at least two bytes if it is
-- one of a directory, then whatever events epoll answers for the listening socket and the
-- connections in use, and whatever the calls of the system answer as they are documented (recv
-- writes no more than it has room for, accept does not answer 0, clock stays below its largest
-- value, malloc answers what was asked for) while epoll_ctl succeeds, all that the program has done
-- and what its sessions have received is what the turns of these events lead to, from no sessions
-- and no actions on. A turn hears at most one session, once and first: what comes behind all that
-- it has received is what recv answers in this turn on its own descriptor, call for call and to the
-- end. Then clients arrive, with what accept and clock answer; leave as one of the oldest of 128;
-- and are closed; and a script is executed, with the next number, only where all that one session
-- has received is a signature, a newline and this script, and a key verifies it that has not
-- expired at what time answers in this turn, and that read_cert answered at the start, for the
-- file, and at the time, that the system then answered for the path that the program was given or
-- for one of the entries of this directory.
pub main-Turns :
    (ssl : OpenSsl) (timegm : Timegm) (answers : Startup ssl) (kernel : Kernel)
    (first state : Resources ssl) (trace : List Answers)
    → Documented ssl
    → ((path : Bytes) → Mapped (answers.file path))
    → Sized ssl answers
    → Allocates kernel
    → start ssl timegm answers ≡ ok first
    → Reach ssl kernel first trace state
    → Turns ssl (Origin ssl answers timegm) kernel (nobody ssl) trace (view ssl state)
main-Turns ssl timegm answers kernel first state trace doc mapped sized allocates started reach =
    let O = Origin ssl answers timegm in
    let (valid, some_key) =
      Returns_ok (λ r. Valid ssl O r × (0 < r.keys.keys_size)) _
        (start-Valid ssl timegm answers doc mapped sized) started in
    let (keys, number, e) = start-initial ssl timegm answers doc mapped sized started in
    subst (λ spec. Turns ssl O kernel spec trace (view ssl state))
      (ap (view ssl) e ∙ initial-nobody ssl keys number)
      (Reach-Followed ssl O (Origin-Usable ssl answers timegm) kernel allocates valid reach).turns

-- Where OpenSSL and mmap behave as documented, and the start of the server succeeds, with a path
-- and names below 2 ^ 62 bytes, fewer than 2 ^ 62 names, and a path of at least two bytes if it is
-- one of a directory, then in every state that it reaches by events that epoll answers for the
-- listening socket and the connections in use, while epoll_ctl succeeds and the calls of the system
-- answer as documented (recv writes no more than it has room for, accept does not answer 0, clock
-- stays below its largest value, malloc answers what was asked for), script_n is the number of the
-- scripts that were executed, and exec_script was called with the numbers 1, 2, 3 and so on up to
-- it, in this order; all as words of 32 bits, which wrap around.
pub main-numbers :
    (ssl : OpenSsl) (timegm : Timegm) (answers : Startup ssl) (kernel : Kernel)
    (first state : Resources ssl) (trace : List Answers)
    → Documented ssl
    → ((path : Bytes) → Mapped (answers.file path))
    → Sized ssl answers
    → Allocates kernel
    → start ssl timegm answers ≡ ok first
    → Reach ssl kernel first trace state
    → Consecutive ssl state.keys.script_n state.actions
unfolding numbers down_from
main-numbers ssl timegm answers kernel first state trace doc mapped sized allocates started reach =
    Turns-Counted ssl (Origin ssl answers timegm) kernel
      (main-Turns ssl timegm answers kernel first state trace doc mapped sized allocates started
        reach)
      (record { row = refl; count = refl })

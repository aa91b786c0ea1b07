-- ===== src/Server/Events/Reachable.antt =====
-- The states that the server can reach from its start, by the events that epoll answers.
use simple_x509_authenticate.Common.{ℕ, ◌≡◌, List, [], ◌∷◌, some, Bytes, get_elem?, All-get_elem?}
use simple_x509_authenticate.Common.Int.{ℤ}
use simple_x509_authenticate.Common.Result.{ok, err, Ends_ok, Ends_err}
use simple_x509_authenticate.Crypto.Ssl.{OpenSsl}
use simple_x509_authenticate.Crypto.{PubKey}
use simple_x509_authenticate.Server.Kernel.{Kernel, Answers, Event, Allocates, Answered}
use simple_x509_authenticate.Server.Scripts.Authentic.{Usable}
use simple_x509_authenticate.Server.Connections.{Resources, call_exec_script}
use simple_x509_authenticate.Server.Connections.Invariant.{Valid, Verified, Justified}
use simple_x509_authenticate.Server.Events.{handle_event}
use simple_x509_authenticate.Server.Events.Safety.{Ready, handle_event-Turned}
use simple_x509_authenticate.Server.Sessions.{Turns, begun, turned}
use simple_x509_authenticate.Server.Sessions.Timed.{Timely, Turns-Timed}
use simple_x509_authenticate.Server.Sessions.Table.{view}
use simple_x509_authenticate.Server.Sessions.Moved.{Turned}

-- The handling of one event, where the calls of the system answer `answers`.
pub data Step (ssl : OpenSsl) (kernel : Kernel) (answers : Answers) (before after : Resources ssl)
    : Type 0 where
  step :
      (event : Event)
      → Answered answers
      → Ready ssl before event answers
      → handle_event ssl kernel answers event before ≡ ok after
      → Step ssl kernel answers before after

-- The states behind any number of events, with the answers of each, the last one first.
pub data Reach (ssl : OpenSsl) (kernel : Kernel) (start : Resources ssl)
    : List Answers → Resources ssl → Type 0 where
  reach_start : Reach ssl kernel start [] start
  reach_step :
      {trace : List Answers} {answers : Answers} {before after : Resources ssl}
      → Reach ssl kernel start trace before
      → Step ssl kernel answers before after
      → Reach ssl kernel start (answers ∷ trace) after

-- The states with which main_protected can end behind its start: one behind events that were handled,
-- as where epoll_wait fails or answers invalid data, or the one that is left in the middle of an event.
pub data Last (ssl : OpenSsl) (kernel : Kernel) (start : Resources ssl)
    : List Answers → Resources ssl → Type 0 where
  behind :
      {trace : List Answers} {state : Resources ssl}
      → Reach ssl kernel start trace state
      → Last ssl kernel start trace state
  amid :
      {trace : List Answers} {answers : Answers} {before after : Resources ssl} (event : Event)
      → Reach ssl kernel start trace before
      → Answered answers
      → Ready ssl before event answers
      → handle_event ssl kernel answers event before ≡ err after
      → Last ssl kernel start (answers ∷ trace) after

module _ (ssl : OpenSsl) (P : PubKey ssl → Type 0)
    (usable : (key : PubKey ssl) → P key → Usable ssl key) (kernel : Kernel)
    (allocates : Allocates kernel) where
  -- A valid state, and how its sessions came to it.
  pub record Followed (start : Resources ssl) (trace : List Answers) (state : Resources ssl)
      : Type 0 where
    pub valid : Valid ssl P state
    pub turns : Turns ssl P kernel (view ssl start) trace (view ssl state)

  pub Reach-Followed :
      {start state : Resources ssl} {trace : List Answers}
      → Valid ssl P start
      → Reach ssl kernel start trace state
      → Followed start trace state
  Reach-Followed valid reach_start = record { valid = valid; turns = begun }
  Reach-Followed {state = state} valid
        (reach_step {answers = answers} {before} earlier (step event answered ready e)) =
      let first = Reach-Followed valid earlier in
      let next =
        Ends_ok (Valid ssl P) (Turned ssl P kernel answers before) _
          (handle_event-Turned ssl P usable kernel answers event before allocates answered ready
            first.valid)
          e in
      record { valid = next.valid; turns = turned first.turns next.turn }

  pub Last-Valid :
      {start state : Resources ssl} {trace : List Answers}
      → Valid ssl P start
      → Last ssl kernel start trace state
      → Valid ssl P state
  Last-Valid valid (behind reach) = (Reach-Followed valid reach).valid
  Last-Valid valid (amid {answers = answers} {before} event earlier answered ready e) =
      Ends_err (Valid ssl P) (Turned ssl P kernel answers before) _
        (handle_event-Turned ssl P usable kernel answers event before allocates answered ready
          (Reach-Followed valid earlier).valid)
        e

  -- What the server has executed in a state that it reaches from a valid one, and when.
  pub Reach-Verified :
      {start state : Resources ssl} {trace : List Answers} (key : PubKey ssl) (script : Bytes)
      (now : ℤ) (i n : ℕ)
      → Valid ssl P start
      → start.actions ≡ []
      → Reach ssl kernel start trace state
      → get_elem? state.actions i ≡ some (call_exec_script key script n now)
      → Verified ssl P key script now
        × ((k : ℕ) × (a : Answers) × (get_elem? trace k ≡ some a) × (a.time ≡ now))
  Reach-Verified {state = state} {trace} key script now i n valid quiet reach at =
      let followed = Reach-Followed valid reach in
      (
        All-get_elem? (Justified ssl P) state.actions i followed.valid.justified at,
        All-get_elem? (Timely ssl trace) state.actions i (Turns-Timed ssl P followed.turns quiet)
            at,
      )

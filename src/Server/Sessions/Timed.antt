-- ===== src/Server/Sessions/Timed.antt =====
-- When the scripts were executed.
use simple_x509_authenticate.Common.{ℕ, suc, ◌≡◌, refl, List, [], ◌∷◌, some, All, get_elem?}
use simple_x509_authenticate.Crypto.Ssl.{OpenSsl}
use simple_x509_authenticate.Crypto.{PubKey}
use simple_x509_authenticate.Server.Kernel.{Kernel, Answers}
use simple_x509_authenticate.Server.Connections.{Action, close_fd, call_exec_script}
use simple_x509_authenticate.Server.Sessions.{
  Spec, Move, arrive, evict, close, execute, Moves, still, moved, hears, Turn, unheard, listened,
  Turns, begun, turned,
}

module _ (ssl : OpenSsl) where
  -- A script was executed at what time answered in one of the turns.
  abbrev pub Timely : List Answers → Action ssl → Type 0
  Timely trace (close_fd fd) = Unit {0}
  Timely trace (call_exec_script key script n now) =
      (k : ℕ) × (a : Answers) × (get_elem? trace k ≡ some a) × (a.time ≡ now)

  Timely-later :
      (answers : Answers) (trace : List Answers) (action : Action ssl)
      → Timely trace action
      → Timely (answers ∷ trace) action
  Timely-later answers trace (close_fd fd) h = tt
  Timely-later answers trace (call_exec_script key script n now) (k, a, at, time) =
      (suc k, a, at, time)

  All-later :
      (answers : Answers) (trace : List Answers) (actions : List (Action ssl))
      → All (Timely trace) actions
      → All (Timely (answers ∷ trace)) actions
  All-later answers trace [] h = tt
  All-later answers trace (action ∷ actions) (h, hs) =
      (Timely-later answers trace action h, All-later answers trace actions hs)

  module _ (P : PubKey ssl → Type 0) where
    abbrev Timed : List Answers → Spec ssl → Type 0
    Timed trace spec = All (Timely trace) spec.actions

    module _ (answers : Answers) (trace : List Answers) where
      Move-Timed :
          (before after : Spec ssl)
          → Move ssl P answers before after
          → Timed (answers ∷ trace) before
          → Timed (answers ∷ trace) after
      Move-Timed before after (arrive n size few e) h = rw e h
      Move-Timed before after (evict s others there size oldest e) h = rw e (tt, h)
      Move-Timed before after (close s others there e) h = rw e (tt, h)
      Move-Timed before after
            (execute s others key sig script there framed size good trusted fresh e) h =
          rw e (tt, ((0, answers, refl, refl), h))

      Moves-Timed :
          {before after : Spec ssl}
          → Moves ssl P answers before after
          → Timed (answers ∷ trace) before
          → Timed (answers ∷ trace) after
      Moves-Timed still h = h
      Moves-Timed (moved earlier m) h = Move-Timed _ _ m (Moves-Timed earlier h)

      Turn-Timed :
          {kernel : Kernel} {before after : Spec ssl}
          → Turn ssl P answers kernel before after
          → Timed (answers ∷ trace) before
          → Timed (answers ∷ trace) after
      Turn-Timed (unheard moves) h = Moves-Timed moves h
      Turn-Timed
            (listened (hears s others more calls total room there told space silent small e) moves)
            h =
          Moves-Timed moves (rw e h)

    pub Turns-Timed :
        {kernel : Kernel} {start after : Spec ssl} {trace : List Answers}
        → Turns ssl P kernel start trace after
        → start.actions ≡ []
        → Timed trace after
    Turns-Timed begun e = rw e tt
    Turns-Timed (turned {trace} {answers} {before} earlier t) e =
        Turn-Timed answers trace t (All-later answers trace before.actions (Turns-Timed earlier e))

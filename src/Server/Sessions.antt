-- ===== src/Server/Sessions.antt =====
-- What the event loop of src/main.c promises: sessions in no order, each with the bytes that came
-- from its client since it was accepted, and what is done with them.
pub mod Table
pub mod Moved
pub mod Timed
pub mod Refines
use mathlib.Core.List.Perm
use mathlib.Core.List.{Perm}
use mathlib.Core.Quot
use mathlib.Core.Quot.{Quot, Quot-set}
use simple_x509_authenticate.Common.{
  ℕ, ◌+◌, ◌<◌, ◌≡◌, true, false, List, [], ◌∷◌, ◌++◌, Bytes, length, All,
}
use simple_x509_authenticate.Common.Int.{ℤ, ltb_ℤ}
use simple_x509_authenticate.Common.Result.{ok}
use simple_x509_authenticate.Crypto.Ssl.{OpenSsl}
use simple_x509_authenticate.Crypto.{PubKey, pub_key_verify}
use simple_x509_authenticate.Server.Scripts.{next_number, frame}
use simple_x509_authenticate.Server.Kernel.{Kernel, Answers}
use simple_x509_authenticate.Server.Receive.Heard.{Heard, Silent}
use simple_x509_authenticate.Server.Connections.{
  max_script_size, max_concurrency, Action, close_fd, call_exec_script,
}

-- A client: its descriptor, when it was accepted, and what it has sent.
pub record Session : Type 0 where
  pub fd : ℤ
  pub since : ℤ
  pub received : Bytes

-- Sessions up to their order.
abbrev pub Bag : Type 0
Bag = Quot {α = List Session} Perm

abbrev pub bag : List Session → Bag
bag = Quot.mk

unfoldable pub add : Session → Bag → Bag
add s = Quot.lift Quot-set (λ xs. Quot.mk (s ∷ xs)) (λ xs ys h. Quot.sound (Perm.cons s h))

pub add_comm : (s t : Session) (b : Bag) → add s (add t b) ≡ add t (add s b)
unfolding add
add_comm s t = Quot.ind (λ b. Quot-set _ _) (λ xs. Quot.sound (Perm.swap t s xs))

abbrev pub Every : (Session → Type 0) → Bag → Type 0
Every P b = (xs : List Session) × (b ≡ bag xs) × All P xs

abbrev pub Size : ℕ → Bag → Type 0
Size n b = (xs : List Session) × (b ≡ bag xs) × (length xs ≡ n)

module _ (ssl : OpenSsl) where
  pub record Spec : Type 0 where
    pub sessions : Bag
    pub script_n : ℕ
    pub actions : List (Action ssl)

  module _ (P : PubKey ssl → Type 0) (answers : Answers) where
    -- What may happen where the calls of the system answer `answers`. A script is executed only if it stands behind a signature and a newline as
    -- all that one session has received, and a key that `P` holds of, not expired, verifies it.
    pub data Move (before after : Spec) : Type 0 where
      arrive :
          (n : ℕ)
          → Size n before.sessions
          → n < max_concurrency
          → after ≡ record before {
            sessions =
                add
                  (record { fd = answers.accept; since = answers.clock; received = [] })
                  before.sessions;
          }
          → Move before after
      evict :
          (s : Session) (others : Bag)
          → before.sessions ≡ add s others
          → Size max_concurrency before.sessions
          → Every (λ o. ltb_ℤ o.since s.since ≡ false) others
          → after ≡ record before { sessions = others; actions = close_fd s.fd ∷ before.actions }
          → Move before after
      close :
          (s : Session) (others : Bag)
          → before.sessions ≡ add s others
          → after ≡ record before { sessions = others; actions = close_fd s.fd ∷ before.actions }
          → Move before after
      execute :
          (s : Session) (others : Bag) (key : PubKey ssl) (sig script : Bytes)
          → before.sessions ≡ add s others
          → s.received ≡ frame sig script
          → length sig ≡ key.exp_sig_size
          → pub_key_verify ssl key script sig ≡ ok true
          → P key
          → ltb_ℤ key.expiry answers.time ≡ false
          → after ≡ record {
            sessions = others;
            script_n = next_number before.script_n;
            actions =
                close_fd s.fd
                ∷ call_exec_script key script (next_number before.script_n) answers.time
                ∷ before.actions;
          }
          → Move before after

    pub data Moves (start : Spec) : Spec → Type 0 where
      still : Moves start start
      moved : {before after : Spec} → Moves start before → Move before after → Moves start after

    module _ (kernel : Kernel) where
      -- All that recv answers on the descriptor of one session, call for call, until there is no
      -- more for now, comes behind what this session has received.
      pub data Hears (before after : Spec) : Type 0 where
        hears :
            (s : Session) (others : Bag) (more : Bytes) (calls total room : ℕ)
            → before.sessions ≡ add s others
            → Heard (answers.recv s.fd) 0 (length s.received) more calls total
            → 0 < room
            → Silent kernel (answers.recv s.fd calls total room)
            → length (s.received ++ more) < max_script_size
            → after
              ≡ record before { sessions = add (record s { received = s.received ++ more }) others }
            → Hears before after

      -- What one event does: at most one session is heard, once and before all else.
      pub data Turn (before after : Spec) : Type 0 where
        unheard : Moves before after → Turn before after
        listened : {middle : Spec} → Hears before middle → Moves middle after → Turn before after

  -- What the events do that have the answers of `trace`, the last one first.
  pub data Turns (P : PubKey ssl → Type 0) (kernel : Kernel) (start : Spec)
      : List Answers → Spec → Type 0 where
    begun : Turns P kernel start [] start
    turned :
        {trace : List Answers} {answers : Answers} {before after : Spec}
        → Turns P kernel start trace before
        → Turn P answers kernel before after
        → Turns P kernel start (answers ∷ trace) after

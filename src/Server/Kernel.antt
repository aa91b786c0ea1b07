-- ===== src/Server/Kernel.antt =====
-- What the operating system answers to the calls of the event loop of src/main.c, and what the loop
-- relies on.
use simple_x509_authenticate.Common.{ℕ, ◌≤◌, ◌≡◌, Bool, true, false, Bytes, length}
use simple_x509_authenticate.Common.Int.{ℤ, pos, ltb_ℤ, eq_ℤ}

-- The two codes of errno for a socket without data, and what malloc(n) and the new part of a
-- realloc to n bytes contain.
pub record Kernel : Type 0 where
  pub eagain : ℕ
  pub ewouldblock : ℕ
  pub malloc : ℕ → Bytes

-- A negative answer of recv with the errno behind it, or the bytes that it wrote.
pub data Received : Type 0 where
  failed : ℕ → Received
  received : Bytes → Received

-- What the calls answer while an event is handled: recv, by the descriptor, the number of the call,
-- how much was received before it, and the room that it was given, accept, whether epoll_ctl succeeds, clock and time.
pub record Answers : Type 0 where
  pub recv : ℤ → ℕ → ℕ → ℕ → Received
  pub accept : ℤ
  pub added : Bool
  pub clock : ℤ
  pub time : ℤ

-- struct epoll_event: `idx` is data.fd, the rest are bits of `events`.
pub record Event : Type 0 where
  pub idx : ℤ
  pub epollin : Bool
  pub epollrdhup : Bool
  pub epollhup : Bool
  pub epollerr : Bool

abbrev pub Within : ℕ → Received → Type 0
Within room (failed errno) = Unit {0}
Within room (received bytes) = length bytes ≤ room

-- An allocation has the size that was asked for; that it can fail is not considered.
pub record Allocates (kernel : Kernel) : Type 0 where
  pub size : (n : ℕ) → length (kernel.malloc n) ≡ n

-- recv writes no more than there is room, accept does not answer the descriptor of the standard
-- input, and clock stays below its largest value.
pub record Answered (answers : Answers) : Type 0 where
  pub within : (fd : ℤ) (n before room : ℕ) → Within room (answers.recv fd n before room)
  pub accepted : eq_ℤ answers.accept (pos 0) ≡ false
  pub young : ltb_ℤ answers.clock (pos 0x7fffffffffffffff) ≡ true

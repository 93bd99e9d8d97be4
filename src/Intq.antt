-- ===== src/Intq.antt =====
-- devices/intq.c: the queue of bytes between an interrupt handler and the threads. The functions run with interrupts
-- off. Modelled is one pass of each function up to where the thread sleeps or the byte is moved; the lock that
-- only threads hold around `wait` is left to the component of the locks. `none` is a failed ASSERT.
pub mod Fifo
mod Tests
use tddb.Base.{
  ℕ, zero, suc, ◌+◌, ◌-◌, ◌%◌, ◌^◌, Bool, true, false, not, ◌&&◌, Option, none, some, List, [], ◌∷◌,
  ◌==◌, if◌then◌else◌, ◌>>=◌, ◌>>◌, assert,
}
use tddb.Base.Members.{update}
use tddb.Thread.{Kernel, thread_current, thread_block, thread_unblock}

-- `INTQ_BUFSIZE`
abbrev pub bufsize : ℕ
bufsize = 64

-- `struct intq`, without its lock
pub record Intq : Type 0 where
  pub not_full : Option ℕ
  pub not_empty : Option ℕ
  pub buf : ℕ → ℕ
  pub head : ℕ
  pub tail : ℕ

abbrev pub intq_init : (ℕ → ℕ) → Intq
intq_init buf = record { not_full = none; not_empty = none; buf = buf; head = 0; tail = 0 }

abbrev pub next : ℕ → ℕ
next pos = (pos + 1) % bufsize

abbrev pub intq_empty : Intq → Bool
intq_empty q = q.head == q.tail

abbrev pub intq_full : Intq → Bool
intq_full q = next q.head == q.tail

-- which member `waiter` is the address of
pub data Waiter : Type 0 where
  for_room for_byte : Waiter

abbrev pub waiting : Intq → Waiter → Option ℕ
waiting q for_room = q.not_full
waiting q for_byte = q.not_empty

abbrev pub set_waiting : Intq → Waiter → Option ℕ → Intq
set_waiting q for_room t = record q { not_full = t }
set_waiting q for_byte t = record q { not_empty = t }

-- the condition that a thread waits on while it is true
abbrev pub holds : Intq → Waiter → Bool
holds q for_room = intq_full q
holds q for_byte = intq_empty q

-- `intr_context` is whether an interrupt is being handled.
unfoldable pub wait : Kernel → Intq → Waiter → Bool → Option (Kernel × Intq)
wait k q waiter intr_context = do
  assert (not intr_context)
  assert (holds q waiter)
  cur ← thread_current k
  k' ← thread_block k
  some (k', set_waiting q waiter (some cur))

unfoldable pub wake : Kernel → Intq → Waiter → Option ℕ → Option (Kernel × Intq)
wake k q waiter none = some (k, q)
wake k q waiter (some t) = do k' ← thread_unblock k t; some (k', set_waiting q waiter none)

unfoldable pub signal : Kernel → Intq → Waiter → Option (Kernel × Intq)
signal k q waiter = do assert (not (holds q waiter)); wake k q waiter (waiting q waiter)

-- How a pass of a function ends: the thread sleeps and tests again when it runs, or the function returns.
pub data Pass : Type 0 where
  asleep : Kernel → Intq → Pass
  returns : ℕ → Kernel → Intq → Pass

-- `intq_getc` behind its loop
unfoldable pub take_byte : Kernel → Intq → Option Pass
take_byte k q = signal k (record q { tail = next q.tail }) for_room >>= λ r.
    some (returns (q.buf q.tail) (r.0) (r.1))

-- Only a thread may sleep.
unfoldable pub intq_getc : Kernel → Intq → Bool → Option Pass
intq_getc k q intr_context =
    if intq_empty q
    then (wait k q for_byte intr_context >>= λ r. some (asleep (r.0) (r.1)))
    else take_byte k q

-- `intq_putc` behind its loop
unfoldable pub add_byte : Kernel → Intq → ℕ → Option Pass
add_byte k q byte =
    signal k (record q { buf = update q.buf q.head byte; head = next q.head }) for_byte >>= λ r.
    some (returns byte (r.0) (r.1))

unfoldable pub intq_putc : Kernel → Intq → ℕ → Bool → Option Pass
intq_putc k q byte intr_context =
    if intq_full q
    then (wait k q for_room intr_context >>= λ r. some (asleep (r.0) (r.1)))
    else add_byte k q byte

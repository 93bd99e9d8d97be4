-- ===== src/Intq/Tests.antt =====
-- Each property of the interrupt queue, on one that has wrapped around and that thread 5 waits on.
use mathlib.Core.Path.{subst}
use tddb.Base.{ℕ, true, Option, none, some, [], ◌∷◌, ◌++◌, ◌≡◌, refl, arith}
use tddb.Thread.{Kernel, blocked}
use tddb.Thread.Sample.{kernel}
use tddb.Intq.{Intq, intq_putc, returns, for_room, for_byte}
use tddb.Intq.Fifo.{contents, InBuffer, SleeperBlocked, Signalled, intq_putc-contents}

abbrev queue : Intq
queue = record { not_full = some 5; not_empty = none; buf = λ p. p; head = 2; tail = 62 }

queue-InBuffer : InBuffer queue
queue-InBuffer = record { head_in = omega arith; tail_in = omega arith }

wraps_around : contents queue ≡ 62 ∷ 63 ∷ 0 ∷ 1 ∷ []
wraps_around = refl

for_byte_nobody : SleeperBlocked kernel queue for_byte
for_byte_nobody t e = cc e

for_room_five : SleeperBlocked kernel queue for_room
for_room_five t e = subst (λ t. kernel.status t ≡ some blocked) (same e) refl
  where
    same : {a b : ℕ} → ◌≡◌ {A = Option ℕ} (some a) (some b) → a ≡ b
    same e = cc e

intq_putc-contents_example :
    (k' : Kernel) × (q' : Intq) × (intq_putc kernel queue 7 true ≡ some (returns 7 k' q'))
    × (contents q' ≡ contents queue ++ (7 ∷ []))
    × InBuffer q'
    × (q'.not_empty ≡ none)
    × Signalled kernel queue.not_empty k'
intq_putc-contents_example =
    intq_putc-contents kernel queue 7 true queue-InBuffer refl for_byte_nobody

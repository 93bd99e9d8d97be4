-- ===== src/Intq/Fifo.antt =====
-- The interrupt queue implements a bounded list of bytes.
use tddb.Base.{
  ℕ, zero, suc, ◌+◌, ◌-◌, ◌%◌, ◌<◌, Bool, true, false, Option, none, some, List, [], ◌∷◌, ◌++◌,
  length, ◌≡◌, ◌≢◌, refl, sym, ap, ◌∙◌, arith, ==_ne, ==_refl, Option-cases, inl, inr,
}
use tddb.Base.Members.{update}
use tddb.Thread.{Kernel, blocked, ready, thread_unblock, set_status, push_ready}
use tddb.Intq.{
  Intq, bufsize, next, intq_empty, intq_full, Waiter, for_room, for_byte, waiting, set_waiting,
  holds, wake, signal, returns, take_byte, intq_getc, add_byte, intq_putc, wait,
}

-- `n` bytes from the position on, around the end of the buffer
abbrev pub around : (ℕ → ℕ) → ℕ → ℕ → List ℕ
around buf pos zero = []
around buf pos (suc n) = buf pos ∷ around buf (next pos) n

abbrev pub count : Intq → ℕ
count q = (q.head + bufsize - q.tail) % bufsize

-- The bytes in the queue, the oldest one first.
abbrev pub contents : Intq → List ℕ
contents q = around q.buf q.tail (count q)

-- The positions are in the buffer.
pub record InBuffer (q : Intq) : Type 0 where
  pub head_in : q.head < bufsize
  pub tail_in : q.tail < bufsize

around-update :
    (n : ℕ) (buf : ℕ → ℕ) (pos h v : ℕ)
    → pos < bufsize
    → ((j : ℕ) → j < n → (pos + j) % bufsize ≢ h)
    → around (update buf h v) pos n ≡ around buf pos n
around-update zero buf pos h v lt apart = refl
around-update (suc n) buf pos h v lt apart =
    rw (==_ne h pos (omega (arith, apart 0 (omega arith), lt))) (
      ap (λ l. buf pos ∷ l)
        (around-update n buf (next pos) h v (omega arith)
          (λ j below. omega (arith, apart (j + 1) (omega (arith, below)), lt))))

around-push :
    (n : ℕ) (buf : ℕ → ℕ) (pos : ℕ)
    → pos < bufsize
    → around buf pos (suc n) ≡ around buf pos n ++ (buf ((pos + n) % bufsize) ∷ [])
around-push zero buf pos lt = ap (λ p. buf p ∷ []) (omega (arith, lt))
around-push (suc n) buf pos lt =
    ap (λ l. buf pos ∷ l)
      (around-push n buf (next pos) (omega arith)
        ∙ ap (λ p. around buf (next pos) n ++ (buf p ∷ [])) (omega (arith, lt)))

length-around : (n : ℕ) (buf : ℕ → ℕ) (pos : ℕ) → length (around buf pos n) ≡ n
length-around zero buf pos = refl
length-around (suc n) buf pos = omega (arith, length-around n buf (next pos))

-- A thread that is noted as the waiting one is blocked.
abbrev pub SleeperBlocked : Kernel → Intq → Waiter → Type 0
SleeperBlocked k q waiter = (t : ℕ) → waiting q waiter ≡ some t → k.status t ≡ some blocked

-- `signal` made the waiting thread, if there is one, ready.
pub record Signalled (k : Kernel) (waiter : Option ℕ) (k' : Kernel) : Type 0 where
  pub nobody : waiter ≡ none → k' ≡ k
  pub somebody : (t : ℕ) → waiter ≡ some t → k' ≡ set_status (push_ready k t) t ready

waiting_back : (q : Intq) (w : Waiter) → waiting q w ≡ none → q ≡ set_waiting q w none
waiting_back q for_room e = ap (λ o. set_waiting q for_room o) e
waiting_back q for_byte e = ap (λ o. set_waiting q for_byte o) e

unblock_run :
    (k : Kernel) (t : ℕ)
    → k.status t ≡ some blocked
    → thread_unblock k t ≡ some (set_status (push_ready k t) t ready)
unfolding thread_unblock
unblock_run k t e = rw e refl

signal-Signalled :
    (k : Kernel) (q : Intq) (w : Waiter)
    → holds q w ≡ false
    → SleeperBlocked k q w
    → (k' : Kernel) × (signal k q w ≡ some (k', set_waiting q w none))
      × Signalled k (waiting q w) k'
unfolding signal wake
signal-Signalled k q w go sleeper = elim (Option-cases (waiting q w)) [
  | inl e ↦ (
    k,
    rw (go, e) (ap (λ (q : Intq). some (k, q)) (waiting_back q w e)),
    record { nobody = λ e. refl; somebody = λ t e2. cc (sym e ∙ e2) },
  )
  | inr (t, e) ↦ (
    set_status (push_ready k t) t ready,
    rw (go, e, unblock_run k t (sleeper t e)) refl,
    record {
      nobody = λ e2. cc (sym e ∙ e2);
      somebody = λ t2 e2. ap (λ t. set_status (push_ready k t) t ready) (same (sym e ∙ e2));
    },
  )
]
  where
    same : {a b : ℕ} → ◌≡◌ {A = Option ℕ} (some a) (some b) → a ≡ b
    same e = cc e

-- The queue holds at most 63 bytes; it is full exactly when it holds 63, and empty exactly when it holds none.
pub intq_full-length :
    (q : Intq)
    → InBuffer q
    → (length (contents q) < bufsize)
      × ((intq_full q ≡ true → length (contents q) ≡ bufsize - 1)
          × (length (contents q) ≡ bufsize - 1 → intq_full q ≡ true))
      × ((intq_empty q ≡ true → contents q ≡ []) × (contents q ≡ [] → intq_empty q ≡ true))
intq_full-length q ok = (
  omega (arith, len),
  (
    (λ e. ground (arith, len, ok.head_in, ok.tail_in)),
    λ e. ground (arith, sym len ∙ e, ok.head_in, ok.tail_in),
  ),
  (
    (λ e. ap (around q.buf q.tail) (none_left e)),
    λ e. ground (arith, sym len ∙ ap length e, ok.head_in, ok.tail_in),
  ),
)
  where
    len : length (contents q) ≡ count q
    len = length-around (count q) q.buf q.tail

    none_left : intq_empty q ≡ true → count q ≡ 0
    none_left e = ground (arith, ok.head_in, ok.tail_in)

-- `intq_putc` to a queue that is not full, from a thread or a handler, returns with the byte behind those of the
-- queue, and wakes the thread that waits for a byte.
pub intq_putc-contents :
    (k : Kernel) (q : Intq) (byte : ℕ) (intr_context : Bool)
    → InBuffer q
    → intq_full q ≡ false
    → SleeperBlocked k q for_byte
    → (k' : Kernel) × (q' : Intq) × (intq_putc k q byte intr_context ≡ some (returns byte k' q'))
      × (contents q' ≡ contents q ++ (byte ∷ []))
      × InBuffer q'
      × (q'.not_empty ≡ none)
      × Signalled k q.not_empty k'
unfolding intq_putc add_byte
intq_putc-contents k q byte intr_context ok room sleeper =
    let q1 : Intq = record q { buf = update q.buf q.head byte; head = next q.head } in
    let (k', run, woke) =
      signal-Signalled k q1 for_byte (ground (arith, ok.head_in, ok.tail_in)) sleeper in
    (
      k',
      set_waiting q1 for_byte none,
      rw (room, run) refl,
      ap (around (update q.buf q.head byte) q.tail) more
          ∙ around-push (count q) (update q.buf q.head byte) q.tail ok.tail_in
          ∙ ap (λ l. l ++ (update q.buf q.head byte ((q.tail + count q) % bufsize) ∷ []))
              (around-update (count q) q.buf q.tail q.head byte ok.tail_in apart)
          ∙ ap (λ v. contents q ++ (v ∷ [])) written,
      record { head_in = omega arith; tail_in = ok.tail_in },
      refl,
      woke,
    )
  where
    not_full : next q.head ≢ q.tail
    not_full = ground (arith, room)

    more : (next q.head + bufsize - q.tail) % bufsize ≡ suc (count q)
    more = omega (arith, ok.head_in, ok.tail_in, not_full)

    apart : (j : ℕ) → j < count q → (q.tail + j) % bufsize ≢ q.head
    apart j below = omega (arith, ok.head_in, ok.tail_in, below)

    at_head : (q.tail + count q) % bufsize ≡ q.head
    at_head = omega (arith, ok.head_in, ok.tail_in)

    written : update q.buf q.head byte ((q.tail + count q) % bufsize) ≡ byte
    written = ap (update q.buf q.head byte) at_head ∙ rw (==_refl q.head) refl

-- `intq_getc` of a queue that is not empty, from a thread or a handler, returns its oldest byte, takes it from the
-- queue, and wakes the thread that waits for room.
pub intq_getc-contents :
    (k : Kernel) (q : Intq) (intr_context : Bool)
    → InBuffer q
    → intq_empty q ≡ false
    → SleeperBlocked k q for_room
    → (byte : ℕ) × (k' : Kernel) × (q' : Intq) × (intq_getc k q intr_context
        ≡ some (returns byte k' q'))
      × (contents q ≡ byte ∷ contents q')
      × InBuffer q'
      × (q'.not_full ≡ none)
      × Signalled k q.not_full k'
unfolding intq_getc take_byte
intq_getc-contents k q intr_context ok some_byte sleeper =
    let q1 : Intq = record q { tail = next q.tail } in
    let (k', run, woke) =
      signal-Signalled k q1 for_room (ground (arith, ok.head_in, ok.tail_in)) sleeper in
    (
      q.buf q.tail,
      k',
      set_waiting q1 for_room none,
      rw (some_byte, run) refl,
      ap (around q.buf q.tail) less,
      record { head_in = ok.head_in; tail_in = omega arith },
      refl,
      woke,
    )
  where
    not_empty : q.head ≢ q.tail
    not_empty = ground (arith, some_byte)

    less : count q ≡ suc ((q.head + bufsize - next q.tail) % bufsize)
    less = omega (arith, ok.head_in, ok.tail_in, not_empty)

-- An interrupt handler never sleeps: in one, `intq_getc` of an empty queue and `intq_putc` to a full queue fail an
-- assertion.
pub intq_getc-intq_putc :
    (k : Kernel) (q : Intq) (byte : ℕ)
    → (intq_empty q ≡ true → intq_getc k q true ≡ none)
      × (intq_full q ≡ true → intq_putc k q byte true ≡ none)
unfolding intq_getc intq_putc wait
intq_getc-intq_putc k q byte = (λ e. rw e refl, λ e. rw e refl)

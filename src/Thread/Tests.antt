-- ===== src/Thread/Tests.antt =====
-- Tests of the scheduler, and each property at the sample kernel.
use tddb.Base.{none, some, [], ◌∷◌, ◌≡◌, refl, arith}
use tddb.Thread.{Kernel, thread_unblock}
use tddb.Thread.Invariant.{IsValid}
use tddb.Thread.Operations.{yields, yields-turn}
use tddb.Thread.Sample.{kernel, kernel-IsValid}

-- A thread that is not blocked cannot be woken.
unblock_ready : thread_unblock kernel 3 ≡ none
unfolding thread_unblock
unblock_ready = refl

yields-turn_example : (k' : Kernel) × (yields 2 kernel ≡ some k') × IsValid k' × (k'.current ≡ 4)
yields-turn_example = yields-turn (3 ∷ []) 4 [] kernel-IsValid (omega arith) refl

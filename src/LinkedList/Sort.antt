-- ===== src/LinkedList/Sort.antt =====
-- The merge sort of lib/kernel/list.c. `fuel` bounds the rounds of each of its loops.
pub mod Runs
pub mod Merge
pub mod Rounds
use tddb.Base.{
  ℕ, zero, suc, ◌+◌, Bool, true, false, not, ◌&&◌, ◌||◌, Option, none, some, ◌==◌, ltb,
  if◌then◌else◌, ◌>>=◌, ◌>>◌, assert,
}
use tddb.LinkedList.{Links, list_begin, list_end, list_next, list_prev, list_splice}

module _ (less : ℕ → ℕ → Bool) where
  -- The loop of `is_sorted`
  unfoldable pub sorted_from : ℕ → Links → ℕ → ℕ → Option Bool
  sorted_from zero h a b = none
  sorted_from (suc fuel) h a b = list_next h a >>= λ a'.
      if a' == b
      then some true
      else (list_prev h a' >>= λ p.
          let rest = sorted_from fuel h a' b in if less a' p then some false else rest)

  unfoldable pub is_sorted : ℕ → Links → ℕ → ℕ → Option Bool
  is_sorted fuel h a b = if a == b then some true else sorted_from fuel h a b

  -- The loop of `find_end_of_run`
  unfoldable pub run_from : ℕ → Links → ℕ → ℕ → Option ℕ
  run_from zero h a b = none
  run_from (suc fuel) h a b = list_next h a >>= λ a'.
      if a' == b
      then some a'
      else (list_prev h a' >>= λ p.
          let rest = run_from fuel h a' b in if not (less a' p) then rest else some a')

  unfoldable pub find_end_of_run : ℕ → Links → ℕ → ℕ → Option ℕ
  find_end_of_run fuel h a b =
      assert (not (a == 0)) >> assert (not (b == 0)) >> assert (not (a == b)) >> run_from fuel h a b

  -- The loop of `inplace_merge`
  unfoldable pub merge_from : ℕ → Links → ℕ → ℕ → ℕ → Option Links
  merge_from zero h a0 a1b0 b1 = none
  merge_from (suc fuel) h a0 a1b0 b1 =
      if (a0 == a1b0) || (a1b0 == b1)
      then some h
      else if not (less a1b0 a0)
      then (list_next h a0 >>= λ a0'. merge_from fuel h a0' a1b0 b1)
      else (list_next h a1b0 >>= λ next. list_prev h next >>= λ moved.
          list_splice h a0 moved next >>= λ h'. merge_from fuel h' a0 next b1)

  unfoldable pub inplace_merge : ℕ → Links → ℕ → ℕ → ℕ → Option Links
  inplace_merge fuel h a0 a1b0 b1 =
      assert (not (a0 == 0))
      >> assert (not (a1b0 == 0))
      >> assert (not (b1 == 0))
      >> (is_sorted fuel h a0 a1b0 >>= λ s.
          assert s
          >> (is_sorted fuel h a1b0 b1 >>= λ s'. assert s' >> merge_from fuel h a0 a1b0 b1))

  -- The inner loop of `list_sort`, and how many runs it leaves
  unfoldable pub pass_from : ℕ → ℕ → Links → ℕ → ℕ → ℕ → Option (Links × ℕ)
  pass_from zero rounds h stop a0 output_run_cnt = none
  pass_from (suc fuel) rounds h stop a0 output_run_cnt =
      if a0 == stop
      then some (h, output_run_cnt)
      else (find_end_of_run rounds h a0 stop >>= λ a1b0.
          if a1b0 == stop
          then some (h, output_run_cnt + 1)
          else (find_end_of_run rounds h a1b0 stop >>= λ b1.
              inplace_merge rounds h a0 a1b0 b1 >>= λ h'.
              pass_from fuel rounds h' stop b1 (output_run_cnt + 1)))

  -- The outer loop
  unfoldable pub sort_rounds : ℕ → ℕ → Links → ℕ → Option Links
  sort_rounds zero rounds h list = none
  sort_rounds (suc fuel) rounds h list = list_begin h list >>= λ a0. list_end list >>= λ stop.
      pass_from rounds rounds h stop a0 0 >>= λ r.
      let rest = sort_rounds fuel rounds (r.0) list in if ltb 1 (r.1) then rest else some (r.0)

  unfoldable pub list_sort : ℕ → Links → ℕ → Option Links
  list_sort fuel h list =
      assert (not (list == 0))
      >> (sort_rounds fuel fuel h list >>= λ h'. list_begin h' list >>= λ a.
          list_end list >>= λ b. is_sorted fuel h' a b >>= λ s. assert s >> some h')

-- ===== src/LinkedList.antt =====
-- lib/kernel/list.c: doubly linked lists. The heap is the two links of each element at its address; the null pointer is 0.
-- A list is the address of its head, and its tail stands 8 bytes behind it. `less` compares what the
-- elements stand in. Loops have fuel. `none` is a failed ASSERT, or a loop that ran out of fuel.
pub mod Chain
pub mod Sequence
pub mod Insert
pub mod Remove
pub mod Walk
pub mod Order
pub mod Sort
pub mod Extremes
mod Tests
use tddb.Base.{
  ℕ, zero, suc, ◌+◌, Bool, true, false, not, ◌&&◌, ◌||◌, Option, none, some, ◌==◌, ltb,
  if◌then◌else◌, ◌>>=◌, ◌>>◌, assert,
}
use tddb.Base.Members.{update}

-- `prev` and `next` of each `struct list_elem`
pub record Links : Type 0 where
  pub prev : ℕ → ℕ
  pub next : ℕ → ℕ

abbrev pub set_prev : Links → ℕ → ℕ → Links
set_prev h e p = record h { prev = update h.prev e p }

abbrev pub set_next : Links → ℕ → ℕ → Links
set_next h e n = record h { next = update h.next e n }

-- `&list->head` and `&list->tail`
abbrev pub head : ℕ → ℕ
head list = list

abbrev pub tail : ℕ → ℕ
tail list = list + 8

abbrev pub is_head : Links → ℕ → Bool
is_head h elem = not (elem == 0) && ((h.prev elem == 0) && not (h.next elem == 0))

abbrev pub is_interior : Links → ℕ → Bool
is_interior h elem = not (elem == 0) && (not (h.prev elem == 0) && not (h.next elem == 0))

abbrev pub is_tail : Links → ℕ → Bool
is_tail h elem = not (elem == 0) && (not (h.prev elem == 0) && (h.next elem == 0))

unfoldable pub list_init : Links → ℕ → Option Links
list_init h list =
    assert (not (list == 0))
    >> some (
        set_next
          (set_prev (set_next (set_prev h (head list) 0) (head list) (tail list)) (tail list)
            (head list))
          (tail list) 0)

unfoldable pub list_begin : Links → ℕ → Option ℕ
list_begin h list = assert (not (list == 0)) >> some (h.next (head list))

unfoldable pub list_next : Links → ℕ → Option ℕ
list_next h elem = assert (is_head h elem || is_interior h elem) >> some (h.next elem)

unfoldable pub list_end : ℕ → Option ℕ
list_end list = assert (not (list == 0)) >> some (tail list)

unfoldable pub list_rbegin : Links → ℕ → Option ℕ
list_rbegin h list = assert (not (list == 0)) >> some (h.prev (tail list))

unfoldable pub list_prev : Links → ℕ → Option ℕ
list_prev h elem = assert (is_interior h elem || is_tail h elem) >> some (h.prev elem)

unfoldable pub list_rend : ℕ → Option ℕ
list_rend list = assert (not (list == 0)) >> some (head list)

-- The four assignments of `list_insert`, in order
abbrev pub link_before : Links → ℕ → ℕ → Links
link_before h before elem =
    let h1 = set_prev h elem (h.prev before) in
    let h2 = set_next h1 elem before in
    let h3 = set_next h2 (h2.prev before) elem in set_prev h3 before elem

unfoldable pub list_insert : Links → ℕ → ℕ → Option Links
list_insert h before elem =
    assert (is_interior h before || is_tail h before)
    >> assert (not (elem == 0))
    >> some (link_before h before elem)

-- The six assignments of `list_splice`; `last` is included here.
abbrev pub relink : Links → ℕ → ℕ → ℕ → Links
relink h before first last =
    let h1 = set_next h (h.prev first) (h.next last) in
    let h2 = set_prev h1 (h1.next last) (h1.prev first) in
    let h3 = set_prev h2 first (h2.prev before) in
    let h4 = set_next h3 last before in
    let h5 = set_next h4 (h4.prev before) first in set_prev h5 before last

unfoldable pub list_splice : Links → ℕ → ℕ → ℕ → Option Links
list_splice h before first last =
    assert (is_interior h before || is_tail h before)
    >> (if first == last
        then some h
        else (list_prev h last >>= λ last'.
            assert (is_interior h first)
            >> assert (is_interior h last')
            >> some (relink h before first last')))

unfoldable pub list_push_front : Links → ℕ → ℕ → Option Links
list_push_front h list elem = list_begin h list >>= λ b. list_insert h b elem

unfoldable pub list_push_back : Links → ℕ → ℕ → Option Links
list_push_back h list elem = list_end list >>= λ b. list_insert h b elem

abbrev pub unlink : Links → ℕ → Links
unlink h elem =
    let h1 = set_next h (h.prev elem) (h.next elem) in set_prev h1 (h1.next elem) (h1.prev elem)

unfoldable pub list_remove : Links → ℕ → Option (ℕ × Links)
list_remove h elem = assert (is_interior h elem) >> some ((unlink h elem).next elem, unlink h elem)

unfoldable pub list_empty : Links → ℕ → Option Bool
list_empty h list = list_begin h list >>= λ b. list_end list >>= λ e. some (b == e)

unfoldable pub list_front : Links → ℕ → Option ℕ
list_front h list = list_empty h list >>= λ b. assert (not b) >> some (h.next (head list))

unfoldable pub list_back : Links → ℕ → Option ℕ
list_back h list = list_empty h list >>= λ b. assert (not b) >> some (h.prev (tail list))

unfoldable pub list_pop_front : Links → ℕ → Option (ℕ × Links)
list_pop_front h list =
    list_front h list >>= λ front. list_remove h front >>= λ r. some (front, r.1)

unfoldable pub list_pop_back : Links → ℕ → Option (ℕ × Links)
list_pop_back h list = list_back h list >>= λ back. list_remove h back >>= λ r. some (back, r.1)

-- The loop of `list_size` from `e` on; `stop` is the end of the list.
unfoldable pub size_from : ℕ → Links → ℕ → ℕ → ℕ → Option ℕ
size_from zero h stop e cnt = none
size_from (suc fuel) h stop e cnt =
    if e == stop then some cnt else (list_next h e >>= λ e'. size_from fuel h stop e' (cnt + 1))

unfoldable pub list_size : ℕ → Links → ℕ → Option ℕ
list_size fuel h list =
    list_begin h list >>= λ b. list_end list >>= λ stop. size_from fuel h stop b 0

-- `swap (&e->prev, &e->next)`
abbrev pub swap_links : Links → ℕ → Links
swap_links h e = record h { prev = update h.prev e (h.next e); next = update h.next e (h.prev e) }

unfoldable pub reverse_from : ℕ → Links → ℕ → ℕ → Option Links
reverse_from zero h stop e = none
reverse_from (suc fuel) h stop e =
    let rest = reverse_from fuel (swap_links h e) stop ((swap_links h e).prev e) in
    if e == stop then some h else rest

-- The two swaps behind the loop of `list_reverse`
abbrev pub swap_ends : Links → ℕ → Links
swap_ends h list =
    let h1 =
      set_prev (set_next h (head list) (h.prev (tail list))) (tail list) (h.next (head list)) in
    let first = h1.next (head list) in
    let last = h1.prev (tail list) in
    set_next (set_prev h1 first (h1.next last)) last (h1.prev first)

unfoldable pub list_reverse : ℕ → Links → ℕ → Option Links
list_reverse fuel h list = list_empty h list >>= λ b.
    if b
    then some h
    else (list_begin h list >>= λ e.
        list_end list >>= λ stop. reverse_from fuel h stop e >>= λ h'. some (swap_ends h' list))

module _ (less : ℕ → ℕ → Bool) where
  -- The loop of `list_insert_ordered`: where it stops
  unfoldable pub place_from : ℕ → Links → ℕ → ℕ → ℕ → Option ℕ
  place_from zero h stop elem e = none
  place_from (suc fuel) h stop elem e =
      if (e == stop) || less elem e
      then some e
      else (list_next h e >>= λ e'. place_from fuel h stop elem e')

  unfoldable pub list_insert_ordered : ℕ → Links → ℕ → ℕ → Option Links
  list_insert_ordered fuel h list elem =
      assert (not (elem == 0))
      >> (list_begin h list >>= λ b.
          list_end list >>= λ stop. place_from fuel h stop elem b >>= λ e. list_insert h e elem)

  -- The loop of `list_unique`; `duplicates` is null or a list.
  unfoldable pub unique_from : ℕ → Links → ℕ → ℕ → ℕ → Option Links
  unique_from zero h list duplicates elem = none
  unique_from (suc fuel) h list duplicates elem = list_next h elem >>= λ next.
      list_end list >>= λ stop.
      if next == stop
      then some h
      else if not (less elem next) && not (less next elem)
      then (list_remove h next >>= λ r.
          (if duplicates == 0 then some (r.1) else list_push_back (r.1) duplicates next) >>= λ h'.
          unique_from fuel h' list duplicates elem)
      else unique_from fuel h list duplicates next

  unfoldable pub list_unique : ℕ → Links → ℕ → ℕ → Option Links
  list_unique fuel h list duplicates =
      assert (not (list == 0))
      >> (list_empty h list >>= λ b.
          if b
          then some h
          else (list_begin h list >>= λ elem. unique_from fuel h list duplicates elem))

  -- The loop of `list_max`, and that of `list_min` with `less` the other way round
  unfoldable pub max_from : ℕ → Links → ℕ → ℕ → ℕ → Option ℕ
  max_from zero h stop max e = none
  max_from (suc fuel) h stop max e =
      if e == stop
      then some max
      else (list_next h e >>= λ e'. max_from fuel h stop (if less max e then e else max) e')

  unfoldable pub list_max : ℕ → Links → ℕ → Option ℕ
  list_max fuel h list = list_begin h list >>= λ max. list_end list >>= λ stop.
      if max == stop then some max else (list_next h max >>= λ e. max_from fuel h stop max e)

  unfoldable pub min_from : ℕ → Links → ℕ → ℕ → ℕ → Option ℕ
  min_from zero h stop min e = none
  min_from (suc fuel) h stop min e =
      if e == stop
      then some min
      else (list_next h e >>= λ e'. min_from fuel h stop (if less e min then e else min) e')

  unfoldable pub list_min : ℕ → Links → ℕ → Option ℕ
  list_min fuel h list = list_begin h list >>= λ min. list_end list >>= λ stop.
      if min == stop then some min else (list_next h min >>= λ e. min_from fuel h stop min e)

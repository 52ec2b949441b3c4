-- ===== src/Gateway/SharedList.antt =====
-- final-assignment/shared/os_list.c: the doubly linked list that the three threads of the gateway
-- share. The `os_list` structure lives outside the heap, so a function that changes it returns the
-- new value. `fresh` is what `calloc` answers.
pub mod Chain
pub mod Invariant
pub mod Push
pub mod Fifo
pub mod Remove
pub mod Read
pub mod Clean
use linux_programing.Common.{
  ℕ, zero, suc, ◌+◌, ◌-◌, Bool, true, false, ◌||◌, Option, none, some, List, [], ◌∷◌, ◌==◌,
  if◌then◌else◌,
}
use linux_programing.Gateway.Heap.{
  Ptr, null, Action, fault, blocked, out_of_fuel, pure, ◌>>=◌, ◌>>◌, load, set_next, set_prev,
  set_payload, calloc, free,
}

-- LIST_SUCCESS, LIST_FAIL, LIST_NODATA and LIST_FULL of headers/os_list.h.
pub data Status : Type 0 where
  list_success list_fail list_nodata list_full : Status

-- `os_list`. A mutex is the flag that says whether it is held; `broadcasts` counts the wake-ups
-- of `data_available`.
pub record OsList : Type 0 where
  pub first_node : Ptr
  pub last_node : Ptr
  pub cur_size : ℕ
  pub max_size : ℕ
  pub mutex : Bool
  pub cnt_mutex : Bool
  pub broadcasts : ℕ

-- A mutex of the default kind: locking it while it is held sleeps.
abbrev pub mutex_lock : OsList → Action OsList
mutex_lock l = if l.mutex then (λ _. blocked) else pure (record l { mutex = true })

abbrev pub mutex_unlock : OsList → Action OsList
mutex_unlock l = pure (record l { mutex = false })

abbrev pub cond_broadcast : OsList → Action OsList
cond_broadcast l = pure (record l { broadcasts = l.broadcasts + 1 })

pub is_list_full : OsList → Bool
is_list_full l = l.cur_size == l.max_size

pub is_list_empty : OsList → Bool
is_list_empty l = l.cur_size == 0 || l.first_node == null

-- `none` is the NULL that is returned when the allocation of the structure fails.
pub list_create : (fresh : Ptr) → ℕ → Option OsList
list_create fresh size =
    if fresh == null
    then none
    else some (record {
      first_node = null;
      last_node = null;
      cur_size = 0;
      max_size = size;
      mutex = false;
      cnt_mutex = false;
      broadcasts = 0;
    })

-- `_list_push`: the new node is linked behind the last one.
link_node : (newnode : Ptr) → OsList → Action (Status × OsList)
link_node newnode l =
    if is_list_empty l
    then pure (
      list_success,
      record l { first_node = newnode; last_node = newnode; cur_size = l.cur_size + 1 },
    )
    else (do
      set_next l.last_node newnode
      set_prev newnode l.last_node
      pure (list_success, record l { last_node = newnode; cur_size = l.cur_size + 1 }))

pub push_node : (fresh : Ptr) → OsList → Ptr → Action (Status × OsList)
unfolding link_node
push_node fresh l d = if is_list_full l then pure (list_full, l) else (do
  newnode ← calloc fresh
  if newnode == null then pure (list_fail, l) else (do set_payload newnode d; link_node newnode l))

-- `if(!retval) cond_broadcast(...)`
wake : Status → OsList → Action OsList
wake list_success l = cond_broadcast l
wake _ l = pure l

pub list_push : (fresh : Ptr) → OsList → Ptr → Action (Status × OsList)
unfolding wake
list_push fresh l d = do
  locked ← mutex_lock l
  (retval, pushed) ← push_node fresh locked d
  woken ← wake retval pushed
  released ← mutex_unlock woken
  pure (retval, released)

-- `while(first = list->first_node, !first) cond_wait(...)`: with no node the thread sleeps on
-- `data_available` until another thread pushes.
pub list_get_data_first_node : OsList → Action (Ptr × OsList)
list_get_data_first_node l = do
  locked ← mutex_lock l
  if locked.first_node == null then (λ _. blocked) else (do
    released ← mutex_unlock locked
    n ← load locked.first_node
    pure (n.payload, released))

pub list_get_data_last_node : OsList → Action (Ptr × OsList)
list_get_data_last_node l = do
  locked ← mutex_lock l
  released ← mutex_unlock locked
  if locked.last_node == null
      then pure (null, released)
      else (do n ← load locked.last_node; pure (n.payload, released))

-- The two ways in which the second node, or its absence, is noted.
detach_first : Ptr → OsList → Action OsList
detach_first temp l =
    if temp == null then pure (record l { last_node = temp }) else (do set_prev temp null; pure l)

pub list_remove_first_node : OsList → Action (Status × OsList)
unfolding detach_first
list_remove_first_node l = do
  locked ← mutex_lock l
  if is_list_empty locked
      then (do released ← mutex_unlock locked; pure (list_nodata, released))
      else (do
        n ← load locked.first_node
        detached ← detach_first n.next locked
        free detached.first_node
        released ←
            mutex_unlock (record detached { first_node = n.next; cur_size = detached.cur_size - 1 })
        pure (list_success, released))

-- `while(list->first_node != NULL)`, on fuel.
free_nodes : ℕ → Ptr → Action (Unit {0})
free_nodes zero p = λ _. out_of_fuel
free_nodes (suc k) p =
    if p == null then pure tt else (do temp ← load p; free p; free_nodes k temp.next)

-- The mutex is taken through the pointer before the test for NULL, so a NULL list faults.
pub list_clean_nodes : Option OsList → Action (Status × Option OsList)
unfolding free_nodes
list_clean_nodes none = λ _. fault
list_clean_nodes (some l) = do
  locked ← mutex_lock l
  if is_list_empty locked
      then (do released ← mutex_unlock locked; pure (list_nodata, some released))
      else (do
        free_nodes (locked.cur_size + 1) locked.first_node
        released ←
            mutex_unlock (record locked { cur_size = 0; first_node = null; last_node = null })
        pure (list_success, some released))

-- The structure is gone afterwards; a NULL argument is refused.
pub list_destroy : Option OsList → Action Status
list_destroy none = pure list_fail
list_destroy (some l) = do (status, cleaned) ← list_clean_nodes (some l); pure list_success

-- The addresses whose text `print_list` prints, in order; the walk is on fuel.
print_nodes : ℕ → Ptr → Action (List Ptr)
print_nodes zero p = λ _. out_of_fuel
print_nodes (suc k) p =
    if p == null
    then pure []
    else (do temp ← load p; rest ← print_nodes k temp.next; pure (temp.payload ∷ rest))

pub print_list : OsList → Action (List Ptr × OsList)
unfolding print_nodes
print_list l = do
  locked ← mutex_lock l
  if is_list_empty locked then (do released ← mutex_unlock locked; pure ([], released)) else (do
    printed ← print_nodes (locked.cur_size + 1) locked.first_node
    released ← mutex_unlock locked
    pure (printed, released))

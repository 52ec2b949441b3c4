-- ===== src/Tests/SharedList.antt =====
-- The list of final-assignment/shared/os_list.c at a list of one node.
use linux_programing.Common.{◌≡◌, refl, false, true, none, some, [], ◌∷◌, arith}
use linux_programing.Gateway.Heap.{null, node, Heap, write}
use linux_programing.Gateway.Heap.Returns.{Returns}
use linux_programing.Gateway.SharedList.{
  OsList, list_push, list_remove_first_node, list_clean_nodes,
}
use linux_programing.Gateway.SharedList.Chain.{nil, cons, Cells}
use linux_programing.Gateway.SharedList.Invariant.{IsList}
use linux_programing.Gateway.SharedList.Fifo.{
  Refines, queue_push, queue_remove, list_push-Refines, list_remove-Refines,
}
use linux_programing.Gateway.SharedList.Clean.{Cleaned, list_clean_nodes-Without}

abbrev one_heap : Heap
one_heap = write (λ p. none) 1 (some (node null null 7))

abbrev one_list : OsList
one_list = record {
  first_node = 1;
  last_node = 1;
  cur_size = 1;
  max_size = 100;
  mutex = false;
  cnt_mutex = false;
  broadcasts = 0;
}

abbrev one_cell : Cells
one_cell = (1, 7) ∷ []

one_list-IsList : IsList one_heap one_list one_cell
unfolding write
one_list-IsList = record {
  chain = cons (record { ne_null = λ e. omega arith; holds = refl }) (ground arith) (nil refl refl);
  count = refl;
  bounded = omega arith;
  released = refl;
}

one_heap_free : one_heap 2 ≡ none
unfolding write
one_heap_free = refl

list_push-Refines_example :
    Returns (Refines one_list (queue_push true 100 (7 ∷ []) 8)) (list_push 2 one_list 8 one_heap)
list_push-Refines_example = list_push-Refines 2 8 one_list-IsList (λ ne. one_heap_free)

list_remove-Refines_example :
    Returns (Refines one_list (queue_remove (7 ∷ []))) (list_remove_first_node one_list one_heap)
list_remove-Refines_example = list_remove-Refines one_list-IsList

list_clean_nodes-Without_example :
    Returns (Cleaned one_heap one_list one_cell) (list_clean_nodes (some one_list) one_heap)
list_clean_nodes-Without_example = list_clean_nodes-Without one_list-IsList

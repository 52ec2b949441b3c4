-- ===== src/Gateway/SharedList/Read.antt =====
-- os_list.c: the operations that only read.
use linux_programing.Common.{ℕ, zero, suc, ◌+◌, ◌<◌, ◌≡◌, true, false, [], ◌∷◌, arith, ◌==◌, length}
use linux_programing.Gateway.Heap.{Ptr, null, Heap, ok, blocked}
use linux_programing.Gateway.Heap.Points.{load-ok, not_null}
use linux_programing.Gateway.SharedList.{
  OsList, is_list_empty, list_get_data_first_node, list_get_data_last_node, print_nodes, print_list,
}
use linux_programing.Gateway.SharedList.Chain
use linux_programing.Gateway.SharedList.Chain.{Cells, Chain, nil, cons, payloads, last_payload}
use linux_programing.Gateway.SharedList.Invariant.{IsList}

print_nodes-payloads :
    {h : Heap} {last back p : Ptr} {xs : Cells} (k : ℕ)
    → Chain h last back p xs
    → length xs < k
    → print_nodes k p h ≡ ok (payloads xs) h
unfolding print_nodes
print_nodes-payloads zero s fuel = absurd (omega arith)
print_nodes-payloads (suc k) (nil e e') fuel = rw e
print_nodes-payloads (suc k) (cons e out s) fuel =
    rw (not_null e, load-ok e, print_nodes-payloads k s (omega arith))

module _ {h : Heap} {l : OsList} where
  -- On an empty list the reader sleeps.
  pub list_get_data_first_node-nil : IsList h l [] → list_get_data_first_node l h ≡ blocked
  unfolding list_get_data_first_node
  list_get_data_first_node-nil is =
      let end : (l.first_node == null) ≡ true = ground (arith, Chain.first-eq-null is.chain) in
      rw (is.released, end)

  -- Otherwise it gets the oldest payload, and nothing changes.
  pub list_get_data_first_node-cons :
      {p d : Ptr} {xs : Cells}
      → IsList h l ((p, d) ∷ xs)
      → list_get_data_first_node l h ≡ ok (d, l) h
  unfolding list_get_data_first_node
  list_get_data_first_node-cons is =
      let (q, first, here, out, rest) = Chain.first-Points is.chain in
      rw (is.released, not_null first, load-ok first) (ground arith)

  -- The newest payload, or NULL.
  pub list_get_data_last_node_lem :
      {xs : Cells} → IsList h l xs → list_get_data_last_node l h ≡ ok (last_payload xs, l) h
  unfolding list_get_data_last_node
  list_get_data_last_node_lem {xs = []} is =
      let end : (l.last_node == null) ≡ true = ground (arith, Chain.last-eq-back is.chain) in
      rw (is.released, end) (ground arith)
  list_get_data_last_node_lem {xs = c ∷ xs} is =
      let (n, last, end, shown) = Chain.last-Points is.chain in
      rw (is.released, not_null last, load-ok last) (ground arith)

  -- `print_list` shows the payloads in order, and changes nothing.
  pub print_list_lem : {xs : Cells} → IsList h l xs → print_list l h ≡ ok (payloads xs, l) h
  unfolding print_list is_list_empty
  print_list_lem {xs = []} is =
      let no_nodes : (l.cur_size == 0) ≡ true = ground arith in
      rw (is.released, no_nodes) (ground arith)
  print_list_lem {xs = c ∷ xs} is =
      let some_nodes : (l.cur_size == 0) ≡ false = ground arith in
      let first : (l.first_node == null) ≡ false = ground (arith, Chain.first-ne-null is.chain) in
      let walk = print_nodes-payloads (l.cur_size + 1) is.chain (omega arith) in
      rw (is.released, some_nodes, first, walk) (ground arith)

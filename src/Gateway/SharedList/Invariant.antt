-- ===== src/Gateway/SharedList/Invariant.antt =====
-- os_list.c: what an `os_list` and its nodes stand for between two calls.
use linux_programing.Common.{◌≤◌, ◌≡◌, false, length}
use linux_programing.Gateway.Heap.{Heap, null}
use linux_programing.Gateway.SharedList.{OsList}
use linux_programing.Gateway.SharedList.Chain.{Cells, Chain}

-- The nodes form the doubly linked chain `xs`, `cur_size` counts them, the capacity is kept, and
-- nobody holds the mutex.
pub record IsList (h : Heap) (l : OsList) (xs : Cells) : Type 0 where
  pub chain : Chain h l.last_node null l.first_node xs
  pub count : l.cur_size ≡ length xs
  pub bounded : l.cur_size ≤ l.max_size
  pub released : l.mutex ≡ false

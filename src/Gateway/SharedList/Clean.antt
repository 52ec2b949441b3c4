-- ===== src/Gateway/SharedList/Clean.antt =====
-- os_list.c: `list_clean_nodes` and `list_destroy`.
use linux_programing.Common.{
  ℕ, zero, suc, ◌+◌, ◌<◌, ◌≡◌, refl, true, false, Option, none, some, [], ◌∷◌, arith, ◌==◌, length,
  if◌then◌else◌,
}
use linux_programing.Gateway.Heap.{Ptr, null, Heap, write}
use linux_programing.Gateway.Heap.Points.{load-ok, free-ok, not_null}
use linux_programing.Gateway.Heap.Returns
use linux_programing.Gateway.Heap.Returns.{Returns, returns}
use linux_programing.Gateway.SharedList.{
  OsList, Status, list_success, list_nodata, is_list_empty, free_nodes, list_clean_nodes,
  list_destroy,
}
use linux_programing.Gateway.SharedList.Chain
use linux_programing.Gateway.SharedList.Chain.{Cells, has, Chain, nil, cons}
use linux_programing.Gateway.SharedList.Invariant.{IsList}

-- `g` is `h` less the nodes of `xs`.
abbrev pub Without : Cells → Heap → Heap → Type 0
Without xs h g = (a : Ptr) → g a ≡ (if has a xs then none else h a)

free_nodes-Without :
    (k : ℕ) {h : Heap} {last back p : Ptr} {xs : Cells}
    → Chain h last back p xs
    → length xs < k
    → Returns (λ _. Without xs h) (free_nodes k p h)
unfolding free_nodes write
free_nodes-Without zero s fuel = absurd (omega arith)
free_nodes-Without (suc k) (nil e e') fuel = rw e (returns λ a. refl)
free_nodes-Without (suc k) {h} (cons {p} e out s) fuel =
    let later = Chain.frame {g = write h p none} s (λ a i. ground arith) in
    rw (not_null e, load-ok e, free-ok e)
      (Returns.mono (free_nodes-Without k later (omega arith)) λ _ g gone a. ground (arith, gone a))

abbrev pub clean_status : Cells → Status
clean_status [] = list_nodata
clean_status (_ ∷ _) = list_success

-- The list after a cleaning: it is empty, and exactly its own nodes are freed.
abbrev pub Cleaned : Heap → OsList → Cells → Status × Option OsList → Heap → Type 0
Cleaned h l xs (status, cleaned) g =
    (status ≡ clean_status xs)
    × ((l' : OsList) × (cleaned ≡ some l') × IsList g l' [] × (l'.max_size ≡ l.max_size))
    × Without xs h g

module _ {h : Heap} {l : OsList} where
  -- On a well-formed list, `list_clean_nodes` returns without a fault, leaves a well-formed empty
  -- list of the same capacity, and frees exactly the nodes of the list; its status says whether
  -- there were any.
  pub list_clean_nodes-Without :
      {xs : Cells} → IsList h l xs → Returns (Cleaned h l xs) (list_clean_nodes (some l) h)
  unfolding list_clean_nodes is_list_empty
  list_clean_nodes-Without {xs = []} is =
      let no_nodes : (l.cur_size == 0) ≡ true = ground arith in
      rw (is.released, no_nodes)
        (returns (
          refl,
          (
            record l { mutex = false },
            refl,
            record { chain = is.chain; count = is.count; bounded = is.bounded; released = refl },
            refl,
          ),
          λ a. refl,
        ))
  list_clean_nodes-Without {xs = c ∷ xs} is =
      let some_nodes : (l.cur_size == 0) ≡ false = ground arith in
      let first : (l.first_node == null) ≡ false = ground (arith, Chain.first-ne-null is.chain) in
      rw (is.released, some_nodes, first)
        (Returns.bind (free_nodes-Without (l.cur_size + 1) is.chain (omega arith)) λ _ g gone.
          returns (
            refl,
            (
              record l { cur_size = 0; first_node = null; last_node = null; mutex = false },
              refl,
              record {
                chain = nil refl refl;
                count = refl;
                bounded = omega arith;
                released = refl;
              },
              refl,
            ),
            gone,
          ))

  -- On a well-formed list, `list_destroy` returns LIST_SUCCESS without a fault, and frees exactly
  -- the nodes of the list.
  pub list_destroy-Without :
      {xs : Cells}
      → IsList h l xs
      → Returns (λ status g. (status ≡ list_success) × Without xs h g) (list_destroy (some l) h)
  unfolding list_destroy
  list_destroy-Without is =
      Returns.bind (list_clean_nodes-Without is) λ _ g done. returns (refl, done.2)

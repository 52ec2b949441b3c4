-- ===== src/Gateway/SharedList/Push.antt =====
-- os_list.c: `list_push`, on each of its branches.
use linux_programing.Common.{
  ◌+◌, ◌<◌, ◌≡◌, refl, ◌≢◌, true, false, none, some, [], ◌∷◌, ◌++◌, arith, ◌==◌, length,
  length-append,
}
use linux_programing.Gateway.Heap.{Ptr, null, node, Heap, write, ok}
use linux_programing.Gateway.Heap.Points.{
  Points, calloc-ok, calloc-null, Points-write, Points-write_ne, set_next-ok, set_prev-ok,
  set_payload-ok,
}
use linux_programing.Gateway.Heap.Returns.{Returns, returns}
use linux_programing.Gateway.SharedList.{
  OsList, Status, list_success, list_fail, list_full, is_list_full, is_list_empty, link_node,
  push_node, wake, list_push,
}
use linux_programing.Gateway.SharedList.Chain
use linux_programing.Gateway.SharedList.Chain.{Cells, ◌∉◌, ◌∈◌, Chain, nil, cons}
use linux_programing.Gateway.SharedList.Invariant.{IsList}

-- The list after a push: one more cell at the end, one wake-up, and no other node touched.
abbrev pub Pushed : Heap → OsList → Cells → Ptr → Ptr → Status × OsList → Heap → Type 0
Pushed h l xs fresh d (status, l') g =
    (status ≡ list_success)
    × IsList g l' (xs ++ (fresh, d) ∷ [])
    × (l'.broadcasts ≡ l.broadcasts + 1)
    × (l'.max_size ≡ l.max_size)
    × ((a : Ptr) → a ∉ ((fresh, d) ∷ xs) → g a ≡ h a)

-- A full list is left as it was, and no thread is woken.
pub list_push-full :
    {h : Heap} {l : OsList} {xs : Cells} (fresh d : Ptr)
    → IsList h l xs
    → length xs ≡ l.max_size
    → list_push fresh l d h ≡ ok (list_full, l) h
unfolding list_push push_node is_list_full
list_push-full {l} fresh d is e = rw is.released (ground arith)

-- Without memory the list is left as it was, and no thread is woken.
pub list_push-fail :
    {h : Heap} {l : OsList} {xs : Cells} (d : Ptr)
    → IsList h l xs
    → length xs < l.max_size
    → list_push null l d h ≡ ok (list_fail, l) h
unfolding list_push push_node is_list_full
list_push-fail {h} {l} d is e =
    let room : (l.cur_size == l.max_size) ≡ false = ground arith in
    rw (is.released, room, calloc-null h) (ground arith)

module _ {h : Heap} {l : OsList} (fresh d : Ptr) (ne : fresh ≢ null) (unused : h fresh ≡ none) where
  list_push-nil :
      IsList h l [] → 0 < l.max_size → Returns (Pushed h l [] fresh d) (list_push fresh l d h)
  unfolding list_push push_node is_list_full is_list_empty write wake link_node
  list_push-nil is room =
      let open_slot : (l.cur_size == l.max_size) ≡ false = ground arith in
      let no_nodes : (l.cur_size == 0) ≡ true = ground arith in
      let not_null : (fresh == null) ≡ false = ground arith in
      let at_new = Points-write h fresh (node null null null) ne in
      rw (is.released, open_slot, calloc-ok fresh h ne, not_null, set_payload-ok at_new d, no_nodes)
        (returns (
          refl,
          record {
            chain =
                cons
                  (Points-write (write h fresh (some (node null null null))) fresh
                    (node null null d) ne)
                  refl (nil refl refl);
            count = omega arith;
            bounded = omega arith;
            released = refl;
          },
          refl,
          refl,
          λ a out. ground arith,
        ))

  list_push-cons :
      {c : Ptr × Ptr} {xs : Cells}
      → IsList h l (c ∷ xs)
      → length (c ∷ xs) < l.max_size
      → Returns (Pushed h l (c ∷ xs) fresh d) (list_push fresh l d h)
  unfolding list_push push_node is_list_full is_list_empty write wake link_node
  list_push-cons {c} {xs} is room =
      let open_slot : (l.cur_size == l.max_size) ≡ false = ground arith in
      let some_nodes : (l.cur_size == 0) ≡ false = ground arith in
      let first : (l.first_node == null) ≡ false = ground (arith, Chain.first-ne-null is.chain) in
      let not_null : (fresh == null) ≡ false = ground arith in
      let at_new = Points-write h fresh (node null null null) ne in
      let (n, at_last, no_next, shown) = Chain.last-Points is.chain in
      let h1 : Heap = write h fresh (some (node null null null)) in
      let h2 : Heap = write h1 fresh (some (node null null d)) in
      let apart : l.last_node ≢ fresh = ground (arith, at_last.holds) in
      let last2 : Points h2 l.last_node n =
        Points-write_ne fresh (node null null d)
          (Points-write_ne fresh (node null null null) at_last apart) apart in
      let h3 : Heap = write h2 l.last_node (some (record n { next = fresh })) in
      let new3 : Points h3 fresh (node null null d) =
        Points-write_ne l.last_node (record n { next = fresh })
          (Points-write h1 fresh (node null null d) ne) (ground arith) in
      rw
        (
          is.released,
          open_slot,
          calloc-ok fresh h ne,
          not_null,
          set_payload-ok at_new d,
          some_nodes,
          first,
          set_next-ok last2 fresh,
          set_prev-ok new3 l.last_node,
        )
        (returns (
          refl,
          record {
            chain =
                Chain.extend fresh d is.chain (Chain.not-mem_of_none fresh is.chain unused)
                  (Points-write h3 fresh (node null l.last_node d) ne)
                  (λ a i not_last. ground (
                    arith,
                    Chain.ne_of_mem a fresh (c ∷ xs) i
                        (Chain.not-mem_of_none fresh is.chain unused),
                  ))
                  (λ m e. ground (arith, at_last.holds));
            count = omega (arith, length-append (c ∷ xs) ((fresh, d) ∷ []), is.count);
            bounded = omega arith;
            released = refl;
          },
          refl,
          refl,
          λ a out.
              ground (arith, Chain.ne_of_mem l.last_node a (c ∷ xs) (Chain.last-mem_cons is.chain)),
        ))

  -- With room and memory the cell is linked at the end.
  pub list_push-link :
      {xs : Cells}
      → IsList h l xs
      → length xs < l.max_size
      → Returns (Pushed h l xs fresh d) (list_push fresh l d h)
  list_push-link {xs = []} is room = list_push-nil is room
  list_push-link {xs = c ∷ xs} is room = list_push-cons is room

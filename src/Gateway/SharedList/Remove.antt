-- ===== src/Gateway/SharedList/Remove.antt =====
-- os_list.c: `list_remove_first_node`, on each of its branches.
use linux_programing.Common.{◌≡◌, refl, ◌≢◌, true, false, none, [], ◌∷◌, arith, ◌==◌}
use linux_programing.Gateway.Heap.{Ptr, null, Node, node, Heap, write, ok}
use linux_programing.Gateway.Heap.Points.{Points-write_ne, load-ok, set_prev-ok, free-ok, not_null}
use linux_programing.Gateway.Heap.Returns.{Returns, returns}
use linux_programing.Gateway.SharedList.{
  OsList, Status, list_success, list_nodata, is_list_empty, list_remove_first_node,
}
use linux_programing.Gateway.SharedList.Chain
use linux_programing.Gateway.SharedList.Chain.{Cells, ◌∉◌, nil}
use linux_programing.Gateway.SharedList.Invariant.{IsList}

-- The list after the removal of a cell: its node is freed, and no node outside the list touched.
abbrev pub Removed : Heap → OsList → Ptr × Ptr → Cells → Status × OsList → Heap → Type 0
Removed h l (p, d) xs (status, l') g =
    (status ≡ list_success)
    × IsList g l' xs
    × (g p ≡ none)
    × (l'.max_size ≡ l.max_size)
    × ((a : Ptr) → a ∉ ((p, d) ∷ xs) → g a ≡ h a)

-- An empty list is left as it was.
pub list_remove-nodata :
    {h : Heap} {l : OsList} → IsList h l [] → list_remove_first_node l h ≡ ok (list_nodata, l) h
unfolding list_remove_first_node is_list_empty
list_remove-nodata {l} is =
    let no_nodes : (l.cur_size == 0) ≡ true = ground arith in
    rw (is.released, no_nodes) (ground arith)

module _ {h : Heap} {l : OsList} {p d : Ptr} where
  list_remove-single :
      IsList h l ((p, d) ∷ []) → Returns (Removed h l (p, d) []) (list_remove_first_node l h)
  unfolding list_remove_first_node is_list_empty write
  list_remove-single is =
      let some_nodes : (l.cur_size == 0) ≡ false = ground arith in
      let (q, first, here, out, rest) = Chain.first-Points is.chain in
      let end : (q == null) ≡ true = ground (arith, Chain.first-eq-null rest) in
      rw (is.released, some_nodes, not_null first, load-ok first, end, free-ok first)
        (returns (
          refl,
          record {
            chain = nil (Chain.first-eq-null rest) (Chain.first-eq-null rest);
            count = omega (arith, is.count);
            bounded = omega arith;
            released = refl;
          },
          ground arith,
          refl,
          λ a apart. ground arith,
        ))

  list_remove-more :
      {c : Ptr × Ptr} {xs : Cells}
      → IsList h l ((p, d) ∷ c ∷ xs)
      → Returns (Removed h l (p, d) (c ∷ xs)) (list_remove_first_node l h)
  unfolding list_remove_first_node is_list_empty write
  list_remove-more {c} {xs} is =
      let some_nodes : (l.cur_size == 0) ≡ false = ground arith in
      let (q, first, here, out, rest) = Chain.first-Points is.chain in
      let (r, second, there, out', rest') = Chain.first-Points rest in
      let apart : l.first_node ≢ q = ground arith in
      let n2 : Node = node r l.first_node c.1 in
      rw
        (
          is.released,
          some_nodes,
          not_null first,
          load-ok first,
          not_null second,
          set_prev-ok second null,
          free-ok (Points-write_ne q (record n2 { prev = null }) first apart),
        )
        (returns (
          refl,
          record {
            chain = Chain.rehead null rest (λ n e. ground arith) (λ a i. ground arith);
            count = omega (arith, is.count);
            bounded = omega arith;
            released = refl;
          },
          ground arith,
          refl,
          λ a away. ground arith,
        ))

  -- The first cell leaves the list, and its node is freed.
  pub list_remove-first :
      {xs : Cells}
      → IsList h l ((p, d) ∷ xs)
      → Returns (Removed h l (p, d) xs) (list_remove_first_node l h)
  list_remove-first {xs = []} is = list_remove-single is
  list_remove-first {xs = c ∷ xs} is = list_remove-more is

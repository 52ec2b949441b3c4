-- ===== src/Gateway/SharedList/Fifo.antt =====
-- os_list.c: the list against a bounded first-in first-out queue of payloads.
use linux_programing.Common.{
  ℕ, ◌≡◌, refl, ◌≢◌, inl, inr, Bool, true, false, none, List, [], ◌∷◌, ◌++◌, arith, ◌==◌, length,
  if◌then◌else◌, Bool-cases,
}
use linux_programing.Gateway.Heap.{Ptr, null, Heap, ok}
use linux_programing.Gateway.Heap.Returns
use linux_programing.Gateway.Heap.Returns.{Returns, returns}
use linux_programing.Gateway.SharedList.{
  OsList, Status, list_success, list_fail, list_nodata, list_full, list_push,
  list_remove_first_node, list_get_data_last_node,
}
use linux_programing.Gateway.SharedList.Chain.{Cells, payloads, payloads-append, last_payload}
use linux_programing.Gateway.SharedList.Invariant.{IsList}
use linux_programing.Gateway.SharedList.Push.{list_push-full, list_push-fail, list_push-link}
use linux_programing.Gateway.SharedList.Remove.{list_remove-nodata, list_remove-first}
use linux_programing.Gateway.SharedList.Read.{list_get_data_last_node_lem}

-- The specification: a queue of at most `cap` payloads, oldest first. `memory` says whether there
-- is memory for one more.
abbrev pub queue_push : (memory : Bool) (cap : ℕ) → List Ptr → Ptr → Status × List Ptr
queue_push memory cap q d =
    if length q == cap
    then (list_full, q)
    else if memory
    then (list_success, q ++ d ∷ [])
    else (list_fail, q)

abbrev pub queue_remove : List Ptr → Status × List Ptr
queue_remove [] = (list_nodata, [])
queue_remove (d ∷ q) = (list_success, q)

abbrev pub newest : List Ptr → Ptr
newest [] = null
newest (d ∷ []) = d
newest (_ ∷ (d ∷ q)) = newest (d ∷ q)

length-payloads : (xs : Cells) → length (payloads xs) ≡ length xs
length-payloads [] = refl
length-payloads (x ∷ xs) = omega (arith, length-payloads xs)

newest-payloads : (xs : Cells) → newest (payloads xs) ≡ last_payload xs
newest-payloads [] = refl
newest-payloads (x ∷ []) = refl
newest-payloads (x ∷ (y ∷ xs)) = newest-payloads (y ∷ xs)

-- After the call the list holds a queue that, with the status, is the one specified.
abbrev pub Refines : OsList → Status × List Ptr → Status × OsList → Heap → Type 0
Refines l spec (st, l') g =
    (xs : Cells) × IsList g l' xs × ((st, payloads xs) ≡ spec) × (l'.max_size ≡ l.max_size)

module _ {h : Heap} {l : OsList} where
  -- On a well-formed list that holds the payloads `q`, and with a fresh address from `calloc` or
  -- NULL, `list_push` returns without a fault, and its status and the well-formed list behind it
  -- are those of a bounded queue: full, it refuses; without memory, it fails; else the payload is
  -- the last.
  pub list_push-Refines :
      {xs : Cells} (fresh d : Ptr)
      → IsList h l xs
      → (fresh ≢ null → h fresh ≡ none)
      → Returns
          (Refines l
            (queue_push (if fresh == null then false else true) l.max_size (payloads xs) d))
          (list_push fresh l d h)
  list_push-Refines {xs} fresh d is unused =
      elim (Bool-cases (length (payloads xs) == l.max_size)) [
        | inl full ↦
            rw (list_push-full fresh d is (ground (arith, length-payloads xs)), full)
              (returns (xs, is, refl, refl))
        | inr room ↦ rw room (elim (Bool-cases (fresh == null)) [
          | inl no_memory ↦
              let e : fresh ≡ null = ground arith in
              rw
                (
                  no_memory,
                  e,
                  list_push-fail d is (ground (arith, length-payloads xs, is.count, is.bounded)),
                )
                (returns (xs, is, refl, refl))
          | inr memory ↦ rw memory (
              Returns.mono
                (list_push-link fresh d (ground arith) (unused (ground arith)) is
                  (ground (arith, length-payloads xs, is.count, is.bounded)))
                λ (st, l') g (done, is', woken, cap, same). (
                  xs ++ (fresh, d) ∷ [],
                  is',
                  rw (done, payloads-append xs ((fresh, d) ∷ [])),
                  cap,
                ))
        ])
      ]

  -- On a well-formed list, `list_remove_first_node` returns without a fault, and its status and
  -- the well-formed list behind it are those of a queue that gives up its oldest payload, or has
  -- none.
  pub list_remove-Refines :
      {xs : Cells}
      → IsList h l xs
      → Returns (Refines l (queue_remove (payloads xs))) (list_remove_first_node l h)
  list_remove-Refines {xs = []} is = rw (list_remove-nodata is) (returns ([], is, refl, refl))
  list_remove-Refines {xs = (p, d) ∷ xs} is =
      Returns.mono (list_remove-first is)
        λ (st, l') g (done, is', gone, cap, same). (xs, is', rw done, cap)

  -- On a well-formed list, `list_get_data_last_node` returns the payload pushed last, or NULL when
  -- there is none, and changes nothing.
  pub list_get_data_last_node-newest :
      {xs : Cells} → IsList h l xs → list_get_data_last_node l h ≡ ok (newest (payloads xs), l) h
  list_get_data_last_node-newest {xs} is = rw (newest-payloads xs) (list_get_data_last_node_lem is)

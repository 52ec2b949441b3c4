-- ===== src/Gateway/Heap/Points.antt =====
-- What each command of the heap does at an address that holds a node.
use linux_programing.Common.{◌≡◌, ◌≢◌, refl, false, none, some, arith, ◌==◌}
use linux_programing.Gateway.Heap.{
  Ptr, null, Node, node, Heap, write, ok, load, set_next, set_prev, set_payload, calloc, free,
}

-- `p` holds the node `n`.
pub record Points (h : Heap) (p : Ptr) (n : Node) : Type 0 where
  pub ne_null : p ≢ null
  pub holds : h p ≡ some n

pub calloc-ok :
    (fresh : Ptr) (h : Heap)
    → fresh ≢ null
    → calloc fresh h ≡ ok fresh (write h fresh (some (node null null null)))
unfolding calloc
calloc-ok fresh h ne = let e : (fresh == null) ≡ false = ground arith in rw e

pub calloc-null : (h : Heap) → calloc null h ≡ ok null h
unfolding calloc
calloc-null h = refl

pub Points-write : (h : Heap) (p : Ptr) (n : Node) → p ≢ null → Points (write h p (some n)) p n
unfolding write
Points-write h p n ne = ground arith

pub Points-write_ne :
    {h : Heap} {p : Ptr} {n : Node} (a : Ptr) (m : Node)
    → Points h p n
    → p ≢ a
    → Points (write h a (some m)) p n
unfolding write
Points-write_ne a m e ne = ground arith

module _ {h : Heap} {p : Ptr} {n : Node} (e : Points h p n) where
  pub not_null : (p == null) ≡ false
  not_null = ground arith

  pub load-ok : load p h ≡ ok n h
  unfolding load
  load-ok = rw (not_null, e.holds)

  pub set_next-ok : (q : Ptr) → set_next p q h ≡ ok tt (write h p (some (record n { next = q })))
  unfolding set_next
  set_next-ok q = rw load-ok

  pub set_prev-ok : (q : Ptr) → set_prev p q h ≡ ok tt (write h p (some (record n { prev = q })))
  unfolding set_prev
  set_prev-ok q = rw load-ok

  pub set_payload-ok :
      (d : Ptr) → set_payload p d h ≡ ok tt (write h p (some (record n { payload = d })))
  unfolding set_payload
  set_payload-ok d = rw load-ok

  pub free-ok : free p h ≡ ok tt (write h p none)
  unfolding free
  free-ok = rw load-ok

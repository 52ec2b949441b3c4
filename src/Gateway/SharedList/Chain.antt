-- ===== src/Gateway/SharedList/Chain.antt =====
-- The shape of the nodes of an `os_list`: a doubly linked chain of distinct addresses.
use linux_programing.Common.{
  ap, ◌≡◌, refl, ◌≢◌, ◌⊎◌, inl, Bool, true, false, ◌||◌, none, some, List, [], ◌∷◌, ◌++◌, arith,
  ◌==◌,
}
use mathlib.Core.Bool.{or_assoc}
use linux_programing.Gateway.Heap.{Ptr, null, Node, node, Heap}
use linux_programing.Gateway.Heap.Points.{Points}

-- Address and payload of each node, in order.
abbrev pub Cells : Type 0
Cells = List (Ptr × Ptr)

abbrev pub has : Ptr → Cells → Bool
has a [] = false
has a ((p, d) ∷ xs) = (a == p) || has a xs

infix 40 ◌∉◌ ◌∈◌
abbrev pub ◌∈◌ : Ptr → Cells → Type 0
a ∈ xs = has a xs ≡ true

abbrev pub payloads : Cells → List Ptr
payloads [] = []
payloads ((_, d) ∷ xs) = d ∷ payloads xs

abbrev pub ◌∉◌ : Ptr → Cells → Type 0
b ∉ xs = has b xs ≡ false

pub ne_of_mem : (a b : Ptr) (xs : Cells) → a ∈ xs → b ∉ xs → a ≢ b
ne_of_mem a b xs i o e = cc (ap (λ x. has x xs) e)

-- The payload of the last cell; NULL for an empty chain.
abbrev pub last_payload : Cells → Ptr
last_payload [] = null
last_payload ((_, d) ∷ []) = d
last_payload (_ ∷ (c ∷ xs)) = last_payload (c ∷ xs)

has-append : (a : Ptr) (xs ys : Cells) → has a (xs ++ ys) ≡ (has a xs || has a ys)
has-append a [] ys = refl
has-append a (c ∷ xs) ys = rw (has-append a xs ys, or_assoc)

pub payloads-append : (xs ys : Cells) → payloads (xs ++ ys) ≡ payloads xs ++ payloads ys
payloads-append [] ys = refl
payloads-append ((p, d) ∷ xs) ys = rw (payloads-append xs ys)

-- From `p`, whose `prev` is `back`, the `next` pointers lead through `xs` to NULL, each `prev`
-- points back, and `last` is the node reached last.
pub data Chain (h : Heap) (last : Ptr) : Ptr → Ptr → Cells → Type 0 where
  nil : {back p : Ptr} → p ≡ null → last ≡ back → Chain h last back p []
  cons :
      {back p q d : Ptr} {xs : Cells}
      → Points h p (node q back d)
      → p ∉ xs
      → Chain h last p q xs
      → Chain h last back p ((p, d) ∷ xs)

module _ {h : Heap} {last : Ptr} where
  -- A chain survives any change that spares its own addresses.
  pub frame :
      {g : Heap} {back p : Ptr} {xs : Cells}
      → Chain h last back p xs
      → ((b : Ptr) → b ∈ xs → g b ≡ h b)
      → Chain g last back p xs
  frame (nil e e') spared = nil e e'
  frame (cons {p} e out s) spared =
      cons (ground (arith, spared p)) out (frame s λ b i. spared b (ground arith))

  pub not-mem_of_none :
      {back p : Ptr} {xs : Cells} (a : Ptr) → Chain h last back p xs → h a ≡ none → a ∉ xs
  not-mem_of_none a (nil e e') no_node = refl
  not-mem_of_none a (cons e out s) no_node = ground (arith, not-mem_of_none a s no_node)

  pub null-not-mem : {back p : Ptr} {xs : Cells} → Chain h last back p xs → null ∉ xs
  null-not-mem (nil e e') = refl
  null-not-mem (cons e out s) = ground (arith, null-not-mem s)

  pub first-eq-null : {back p : Ptr} → Chain h last back p [] → p ≡ null
  first-eq-null (nil e e') = e

  pub last-eq-back : {back p : Ptr} → Chain h last back p [] → last ≡ back
  last-eq-back (nil e e') = e'

  pub first-ne-null :
      {back p : Ptr} {c : Ptr × Ptr} {xs : Cells} → Chain h last back p (c ∷ xs) → p ≢ null
  first-ne-null (cons e out s) = e.ne_null

  -- The last node is in the chain, or the chain is empty.
  pub last-mem : {back p : Ptr} {xs : Cells} → Chain h last back p xs → (last ≡ back) ⊎ (last ∈ xs)
  last-mem (nil e e') = inl e'
  last-mem (cons e out s) = ground (arith, last-mem s)

  pub last-mem_cons :
      {back p : Ptr} {c : Ptr × Ptr} {xs : Cells} → Chain h last back p (c ∷ xs) → last ∈ (c ∷ xs)
  last-mem_cons (cons e out s) = ground (arith, last-mem s)

  pub last-ne-null :
      {back p : Ptr} {c : Ptr × Ptr} {xs : Cells} → Chain h last back p (c ∷ xs) → last ≢ null
  last-ne-null s = ground (arith, last-mem_cons s, null-not-mem s)

  -- The node that `last` holds.
  pub last-Points :
      {back p : Ptr} {c : Ptr × Ptr} {xs : Cells}
      → Chain h last back p (c ∷ xs)
      → (n : Node) × Points h last n × (n.next ≡ null) × (n.payload ≡ last_payload (c ∷ xs))
  last-Points (cons {back} {p} {d} e out (nil e1 e2)) =
      (node null back d, rw (e2, ← e1) e, refl, refl)
  last-Points (cons e out (cons e' out' s)) = last-Points (cons e' out' s)

  -- Linking a new node behind the last one extends the chain.
  pub extend :
      {g : Heap} {back p : Ptr} {c : Ptr × Ptr} {xs : Cells} (new d : Ptr)
      → Chain h last back p (c ∷ xs)
      → new ∉ (c ∷ xs)
      → Points g new (node null last d)
      → ((a : Ptr) → a ∈ (c ∷ xs) → a ≢ last → g a ≡ h a)
      → ((n : Node) → h last ≡ some n → g last ≡ some (record n { next = new }))
      → Chain g new back p (c ∷ xs ++ (new, d) ∷ [])
  extend {g} new d (cons {back} {p} {q} {d = d'} e out (nil e1 e2)) fresh at_new same relinked =
      cons (record { ne_null = e.ne_null; holds = ground (arith, relinked (node q back d')) })
        (ground arith) (cons (rw e2 at at_new) refl (nil refl refl))
  extend {g} new d (cons {p} {q} {d = d'} e out (cons {d = d2} {xs} e' out' s)) fresh at_new same
        relinked =
      cons
        (record {
          ne_null = e.ne_null;
          holds = ground (arith, same p, last-mem_cons (cons e' out' s));
        })
        (rw (has-append p ((q, d2) ∷ xs) ((new, d) ∷ [])) (ground arith))
        (extend new d (cons e' out' s) (ground arith) at_new (λ a i ne. same a (ground arith) ne)
          relinked)

  -- What the first cell says.
  pub first-Points :
      {back p p' d : Ptr} {xs : Cells}
      → Chain h last back p ((p', d) ∷ xs)
      → (q : Ptr) × Points h p (node q back d) × (p' ≡ p) × (p ∉ xs) × Chain h last p q xs
  first-Points (cons {q} e out s) = (q, e, refl, out, s)

  -- A new `prev` in the first node.
  pub rehead :
      {g : Heap} {back p : Ptr} {c : Ptr × Ptr} {xs : Cells} (back' : Ptr)
      → Chain h last back p (c ∷ xs)
      → ((n : Node) → h p ≡ some n → g p ≡ some (record n { prev = back' }))
      → ((a : Ptr) → a ∈ xs → g a ≡ h a)
      → Chain g last back' p (c ∷ xs)
  rehead back' (cons {back} {p} {q} {d} e out s) relinked same =
      cons (record { ne_null = e.ne_null; holds = relinked (node q back d) e.holds }) out
        (frame s same)

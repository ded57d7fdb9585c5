-- ===== src/Lists/LinkedList/Add.antt =====
-- `LinkedList::add` of src/lists.rs.
use rust_cc.Prelude.{◌≡◌, refl, Option, none, some, List, [], ◌∷◌, arith}
use rust_cc.Heap.{Ptr, Heap, write}
use rust_cc.Lists.Chain.{Chain, ◌∉◌, Relinked, Relinked-refl, IsLoose, Chain-frame}
use rust_cc.Lists.LinkedList.{LinkedList, add}

abbrev pub Added : Heap → Ptr → List Ptr → Option (LinkedList × Heap) → Type 0
Added h ptr xs r =
    (g : Heap) × (r ≡ some (record { first = some ptr }, g))
    × Chain g none (some ptr) (ptr ∷ xs)
    × Relinked (ptr ∷ xs) h g

-- On a well-linked list, `add` puts a new element without links in front, and changes nothing but
-- links, those of the new element and of the elements of the list.
pub add-Added :
    (h : Heap) (ptr : Ptr) (first : Option Ptr) (xs : List Ptr)
    → Chain h none first xs
    → IsLoose h ptr
    → ptr ∉ xs
    → Added h ptr xs (add ptr (record { first = first }) h)
unfolding add write
add-Added h ptr first [] e (b, at, n, p) out =
    (h, rw e, (refl, refl, b, at, p, n), Relinked-refl h _)
add-Added h ptr first (x ∷ xs) (e, o, bx, atx, px, rest) (b, at, n, p) out = (
  write (write h x (some (record bx { prev = some ptr }))) ptr (some (record b { next = some x })),
  rw e (ground arith),
  (
    refl,
    out,
    record b { next = some x },
    ground arith,
    p,
    (
      refl,
      o,
      record bx { prev = some ptr },
      ground arith,
      refl,
      Chain-frame (some x) bx.next xs (λ q i. ground arith) rest,
    ),
  ),
  record { same = λ q o'. ground arith; payload = λ q. ground arith },
)

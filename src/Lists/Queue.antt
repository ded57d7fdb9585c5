-- ===== src/Lists/Queue.antt =====
-- `LinkedQueue` of src/lists.rs, on the sequences that it stands for.
use rust_cc.Prelude.{
  ◌≡◌, refl, Option, none, some, List, [], ◌∷◌, ◌++◌, ◌==◌, ◌||◌, if◌then◌else◌, arith, Bool-cases,
  inl, inr, ==→eq, ◌∙◌, sym,
}
use mathlib.Core.Option
use rust_cc.CounterMarker.{non_marked_mark, mark}
use rust_cc.Heap.{Ptr, CcBox, Heap, write, ◌>>=◌}
use rust_cc.Lists.Chain.{◌∈◌, ◌∉◌, has, IsLoose, Relinked}
use rust_cc.Lists.LinkedList.First.{taken}
use rust_cc.Lists.LinkedQueue.{LinkedQueue, add, poll, last_after, take_front}

-- From `first` the `next` links lead through the distinct addresses `xs` and end; the other links
-- are not in use.
abbrev pub Line : Heap → Option Ptr → List Ptr → Type 0
Line h first [] = first ≡ none
Line h first (p ∷ xs) =
    (first ≡ some p) × (p ∉ xs) × (b : CcBox) × (h p ≡ some b) × (b.prev ≡ none) × Line h b.next xs

abbrev pub last_of : List Ptr → Option Ptr
last_of [] = none
last_of (p ∷ xs) = elim (last_of xs) [ none ↦ some p | some q ↦ some q ]

pub record IsQueue (h : Heap) (queue : LinkedQueue) (xs : List Ptr) : Type 0 where
  pub line : Line h queue.first xs
  pub end : queue.last ≡ last_of xs

pub Line-frame :
    {h g : Heap} (first : Option Ptr) (xs : List Ptr)
    → ((q : Ptr) → q ∈ xs → g q ≡ h q)
    → Line h first xs
    → Line g first xs
Line-frame first [] same c = c
Line-frame first (p ∷ xs) same (e, out, b, at, pre, rest) = (
  e,
  out,
  b,
  ground (arith, same p),
  pre,
  Line-frame b.next xs (λ q i. same q (ground arith)) rest,
)

pub has-append : (p : Ptr) (xs ys : List Ptr) → has p (xs ++ ys) ≡ (has p xs || has p ys)
has-append p [] ys = refl
has-append p (x ∷ xs) ys = ground (arith, has-append p xs ys)

last_of-some : (x : Ptr) (xs : List Ptr) → (l : Ptr) × (last_of (x ∷ xs) ≡ some l) × (l ∈ (x ∷ xs))
last_of-some x [] = (x, refl, ground arith)
last_of-some x (y ∷ ys) = let (l, e, i) = last_of-some y ys in (l, ground arith, ground arith)

last_of-snoc : (p : Ptr) (xs : List Ptr) → last_of (xs ++ p ∷ []) ≡ some p
last_of-snoc p [] = refl
last_of-snoc p (x ∷ xs) = rw (last_of-snoc p xs)

Line-at :
    (h : Heap) (p : Ptr) (first : Option Ptr) (xs : List Ptr)
    → Line h first xs
    → p ∈ xs
    → (b : CcBox) × (h p ≡ some b)
Line-at h p first [] c i = cc
Line-at h p first (x ∷ xs) (e, o, d, at, pre, rest) i = elim (Bool-cases (p == x)) [
  | inl hit ↦ (d, rw (==→eq p x hit) at)
  | inr miss ↦ Line-at h p d.next xs rest (ground arith)
]

module _ (h : Heap) (p : Ptr) (loose : IsLoose h p) (l : Ptr) (d : CcBox) (atl : h l ≡ some d) where
  appended : Heap
  appended = write h l (some (record d { next = some p }))

  Line-snoc :
      (first : Option Ptr) (x : Ptr) (xs : List Ptr)
      → Line h first (x ∷ xs)
      → p ∉ (x ∷ xs)
      → last_of (x ∷ xs) ≡ some l
      → Line appended first (x ∷ xs ++ p ∷ [])
  unfolding appended write
  Line-snoc first x [] (e, o, b, at, pre, rest) out last =
      let (bp, atp, n, pr) = loose in
      (
        e,
        ground arith,
        record b { next = some p },
        ground arith,
        pre,
        (refl, refl, bp, ground arith, pr, n),
      )
  Line-snoc first x (y ∷ ys) (e, o, b, at, pre, rest) out last =
      let (m, em, im) = last_of-some y ys in
      (
        e,
        ground (arith, has-append x (y ∷ ys) (p ∷ [])),
        b,
        ground arith,
        pre,
        Line-snoc b.next y ys rest (ground arith) (ground arith),
      )

  appended-Relinked : (xs : List Ptr) → l ∈ xs → Relinked xs h appended
  unfolding appended write
  appended-Relinked xs i = record { same = λ q o. ground arith; payload = λ q. ground arith }

abbrev pub Enqueued : Heap → Ptr → List Ptr → Option (LinkedQueue × Heap) → Type 0
Enqueued h p xs r =
    (queue : LinkedQueue) × (g : Heap) × (r ≡ some (queue, g))
    × IsQueue g queue (xs ++ p ∷ [])
    × Relinked xs h g

add-Enqueued :
    (h : Heap) (p : Ptr) (queue : LinkedQueue) (xs : List Ptr)
    → Line h queue.first xs
    → queue.last ≡ last_of xs
    → IsLoose h p
    → p ∉ xs
    → Enqueued h p xs (add p queue h)
unfolding add
add-Enqueued h p queue [] line end (b, at, n, pr) o = (
  record { first = some p; last = some p },
  h,
  rw end,
  record { line = (refl, refl, b, at, pr, n); end = refl },
  record { same = λ q _. refl; payload = λ q. refl },
)
add-Enqueued h p queue (x ∷ xs) line end loose o =
    let (l, e, i) = last_of-some x xs in
    let (d, atl) = Line-at h l queue.first (x ∷ xs) line i in
    let last_is : queue.last ≡ some l = end ∙ e in
    (
      record { first = queue.first; last = some p },
      appended h p loose l d atl,
      unfold appended in rw (last_is, atl, ◌>>=◌),
      record {
        line = Line-snoc h p loose l d atl queue.first x xs line o e;
        end = sym (last_of-snoc p (x ∷ xs));
      },
      appended-Relinked h p loose l d atl (x ∷ xs) i,
    )

-- Adding a box without links puts it behind all others, and changes nothing but links of the
-- elements of the queue.
pub add-IsQueue :
    (h : Heap) (p : Ptr) (queue : LinkedQueue) (xs : List Ptr)
    → IsQueue h queue xs
    → IsLoose h p
    → p ∉ xs
    → Enqueued h p xs (add p queue h)
add-IsQueue h p queue xs is = add-Enqueued h p queue xs is.line is.end

last_after-last_of :
    (h : Heap) (p : Ptr) (first last : Option Ptr) (xs : List Ptr)
    → Line h first xs
    → last ≡ last_of (p ∷ xs)
    → last_after first last ≡ last_of xs
last_after-last_of h p first last [] e end = rw e
last_after-last_of h p first last (x ∷ xs) (e, _, _, _, _, _) end =
    let (l, el, i) = last_of-some x xs in ground arith

poll_run :
    (h : Heap) (p : Ptr) (queue : LinkedQueue) (b : CcBox)
    → h p ≡ some b
    → take_front p queue h
      ≡ some (
        (some p, record { first = b.next; last = last_after b.next queue.last }),
        write (write h p (some (record b { next = none }))) p (
            some
              (record b { next = none; counter_marker = mark non_marked_mark b.counter_marker })),
      )
unfolding take_front write
poll_run h p queue b at = ground arith

-- The oldest element leaves first, without links and not marked; the others stay in their order
-- and nothing else changes.
pub poll-IsQueue :
    (h : Heap) (p : Ptr) (queue : LinkedQueue) (xs : List Ptr)
    → IsQueue h queue (p ∷ xs)
    → (queue' : LinkedQueue) × (g : Heap) × (poll queue h ≡ some ((some p, queue'), g))
      × IsQueue g queue' xs
      × ((q : Ptr) → g q ≡ (if q == p then Option.map taken (h p) else h q))
unfolding poll write take_front
poll-IsQueue h p queue xs is =
    let (e, o, b, at, pre, rest) = is.line in
    let b1 : CcBox = record b { next = none } in
    let g : Heap =
      write (write h p (some b1)) p
        (some (record b1 { counter_marker = mark non_marked_mark b.counter_marker })) in
    (
      record { first = b.next; last = last_after b.next queue.last },
      g,
      rw e (poll_run h p queue b at),
      record {
        line = Line-frame b.next xs (λ q i. ground arith) rest;
        end = last_after-last_of h p b.next queue.last xs rest is.end;
      },
      λ q. ground arith,
    )

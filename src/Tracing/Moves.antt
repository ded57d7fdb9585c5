-- ===== src/Tracing/Moves.antt =====
-- The operations of the four lists, in src/lists.rs, as the collector of src/lib.rs calls them.
use mathlib.Core.Option
use rust_cc.Prelude.{
  ◌≡◌, ◌≢◌, refl, false, Option, none, some, List, ◌==◌, if◌then◌else◌, arith, Bool-cases, inl, inr,
  ==→eq, ==→ne, ne→==, ◌∙◌, ap, sym,
}
use rust_cc.Heap.{Ptr, CcBox, Heap, OnHeap}
use rust_cc.Lists.Chain.{
  has, ◌∈◌, ◌∉◌, Chain, Chain-frame, erase, unlinked, not-mem-erase_self, mem-erase_ne,
}
use rust_cc.Lists.LinkedList.{LinkedList}
use rust_cc.Lists.LinkedList
use rust_cc.Lists.LinkedList.Remove.{remove-Removed}
use rust_cc.Lists.LinkedQueue.{LinkedQueue}
use rust_cc.Lists.Queue.{IsQueue, Line-frame}
use rust_cc.Lists.Buffer.{IsBuffer}
use rust_cc.World.{World, ok, on_root_list, on_non_root_list, on_queue}
use rust_cc.Buffered.Change.{payload-there, metadata-there}
use rust_cc.Tracing.{Snapshot, Looks, IsSnapshot, Leads, copies}

pub on_root_list_run :
    (f : LinkedList → OnHeap LinkedList) (w : World) (l : LinkedList) (g : Heap)
    → f w.locals.root_list w.heap ≡ some (l, g)
    → on_root_list f w ≡ ok tt (record w { heap = g; locals = record (w.locals) { root_list = l } })
on_root_list_run f w l g e = rw e refl

pub on_non_root_list_run :
    (f : LinkedList → OnHeap LinkedList) (w : World) (l : LinkedList) (g : Heap)
    → f w.locals.non_root_list w.heap ≡ some (l, g)
    → on_non_root_list f w
      ≡ ok tt (record w { heap = g; locals = record (w.locals) { non_root_list = l } })
on_non_root_list_run f w l g e = rw e refl

pub on_queue_run :
    (f : LinkedQueue → OnHeap LinkedQueue) (w : World) (l : LinkedQueue) (g : Heap)
    → f w.locals.queue w.heap ≡ some (l, g)
    → on_queue f w ≡ ok tt (record w { heap = g; locals = record (w.locals) { queue = l } })
on_queue_run f w l g e = rw e refl

-- A list that shares no element with those that changed.
pub Buffer-frame :
    {h g : Heap} (w : World) (xs : List Ptr)
    → ((q : Ptr) → q ∈ xs → g q ≡ h q)
    → IsBuffer h w.possible_cycles xs
    → IsBuffer g w.possible_cycles xs
Buffer-frame w xs same b = record {
  chain = Chain-frame none w.possible_cycles.first xs same b.chain;
  counted = b.counted;
}

pub Queue-frame :
    {h g : Heap} (queue : LinkedQueue) (xs : List Ptr)
    → ((q : Ptr) → q ∈ xs → g q ≡ h q)
    → IsQueue h queue xs
    → IsQueue g queue xs
Queue-frame queue xs same q = record { line = Line-frame queue.first xs same q.line; end = q.end }

pub gone_payload :
    (h g : Heap) (q : Ptr)
    → Option.map unlinked (g q) ≡ Option.map unlinked (h q)
    → h q ≡ none
    → g q ≡ none
gone_payload h g q same e = go (g q) (same ∙ ap (λ (o : Option CcBox). Option.map unlinked o) e)
  where
    go : (o : Option CcBox) → Option.map unlinked o ≡ none → o ≡ none
    go none f = refl
    go (some b) f = absurd (ground (arith, f))

pub Looks-payload :
    (s t : Snapshot) (h g : Heap) (p : Ptr) (before b : CcBox)
    → t.mark p ≡ s.mark p
    → t.tracing p ≡ s.tracing p
    → h p ≡ some b
    → Looks s p before b
    → Option.map unlinked (g p) ≡ Option.map unlinked (h p)
    → (d : CcBox) × (g p ≡ some d) × Looks t p before d
Looks-payload s t h g p before b sm st at looks same =
    let (d, atd, cm) = payload-there h g p b at same in
    let (me, el) = metadata-there h g p b d at atd same in
    (
      d,
      atd,
      record {
        words = rw cm looks.words;
        shown = rw (cm, sm, st) looks.shown;
        elem = el ∙ looks.elem;
        metadata = me ∙ looks.metadata;
      },
    )

pub has-erase :
    (h : Heap) (before first : Option Ptr) (xs : List Ptr) (p q : Ptr)
    → Chain h before first xs
    → has q (erase p xs) ≡ (if q == p then false else has q xs)
has-erase h before first xs p q c = elim (Bool-cases (q == p)) [
  | inl hit ↦ rw (hit, ==→eq q p hit) (not-mem-erase_self h p before first xs c)
  | inr miss ↦ rw miss (mem-erase_ne q p xs (==→ne q p miss))
]

-- The box that was taken out of its list has no links, and the others are as before.
pub loose-out :
    (s t : Snapshot) (h g : Heap) (p : Ptr) (d : CcBox)
    → ((q : Ptr) (b : CcBox) → h q ≡ some b → copies s q ≡ 0 → (b.next ≡ none) × (b.prev ≡ none))
    → g p ≡ some d
    → d.next ≡ none
    → d.prev ≡ none
    → ((q : Ptr) → q ≢ p → copies t q ≡ 0 → (g q ≡ h q) × (copies s q ≡ 0))
    → (q : Ptr) (b : CcBox) → g q ≡ some b
    → copies t q ≡ 0
    → (b.next ≡ none) × (b.prev ≡ none)
loose-out s t h g p d old atd dn dp same q b e o = elim (Bool-cases (q == p)) [
  | inl hit ↦ ground (arith, ap g (==→eq q p hit))
  | inr miss ↦ let (eq, z) = same q (==→ne q p miss) o in old q b (sym eq ∙ e) z
]

module _ (env w : World) (s : Snapshot) (is : IsSnapshot env w s) where
  pub moved_boxes :
      (t : Snapshot) (g : Heap)
      → ((q : Ptr) → t.mark q ≡ s.mark q)
      → ((q : Ptr) → t.tracing q ≡ s.tracing q)
      → ((q : Ptr) → Option.map unlinked (g q) ≡ Option.map unlinked (w.heap q))
      → (q : Ptr) (before : CcBox) → env.heap q ≡ some before
      → (b : CcBox) × (g q ≡ some b) × Looks t q before b
  moved_boxes t g sm st pay q before e =
      let (b, at, looks) = is.boxes q before e in
      Looks-payload s t w.heap g q before b (sm q) (st q) at looks (pay q)

module _ (env w : World) (s : Snapshot) (is : IsSnapshot env w s) (p : Ptr) where
  pub root_remove-Leads :
      p ∈ s.roots
      → Leads env tt (record s { roots = erase p s.roots }) (on_root_list (LinkedList.remove p) w)
  root_remove-Leads i =
      let t : Snapshot = record s { roots = erase p s.roots } in
      let (first, g, ran, chain, (d, atd, dn, dp), r) =
        remove-Removed w.heap p w.locals.root_list.first s.roots is.root_chain i in
      let erased =
        λ (q : Ptr). has-erase w.heap none w.locals.root_list.first s.roots p q is.root_chain in
      (
        record w { heap = g; locals = record (w.locals) { root_list = record { first = first } } },
        on_root_list_run (LinkedList.remove p) w (record { first = first }) g ran,
        record {
          framed = is.framed;
          buffer =
              Buffer-frame w s.buffered (λ q j. r.same q (ground (arith, is.apart q))) is.buffer;
          root_chain = chain;
          non_root_chain =
              Chain-frame none w.locals.non_root_list.first s.non_roots
                (λ q j. r.same q (ground (arith, is.apart q))) is.non_root_chain;
          queue =
              Queue-frame w.locals.queue s.queued (λ q j. r.same q (ground (arith, is.apart q)))
                is.queue;
          apart = λ q. ground (arith, is.apart q, erased q);
          boxes = moved_boxes env w s is t g (λ q. refl) (λ q. refl) r.payload;
          gone = λ q e. gone_payload w.heap g q (r.payload q) (is.gone q e);
          loose = loose-out s t w.heap g p d is.loose atd dn dp (λ q ne o.
              let out : q ∉ s.roots = ground (arith, erased q, ne→== q p ne) in
              (r.same q out, ground (arith, out)));
        },
      )

  pub non_root_remove-Leads :
      p ∈ s.non_roots
      → Leads env tt
          (record s { non_roots = erase p s.non_roots })
          (on_non_root_list (LinkedList.remove p) w)
  non_root_remove-Leads i =
      let t : Snapshot = record s { non_roots = erase p s.non_roots } in
      let (first, g, ran, chain, (d, atd, dn, dp), r) =
        remove-Removed w.heap p w.locals.non_root_list.first s.non_roots is.non_root_chain i in
      let erased = λ (q : Ptr).
        has-erase w.heap none w.locals.non_root_list.first s.non_roots p q is.non_root_chain in
      (
        record w {
          heap = g;
          locals = record (w.locals) { non_root_list = record { first = first } };
        },
        on_non_root_list_run (LinkedList.remove p) w (record { first = first }) g ran,
        record {
          framed = is.framed;
          buffer =
              Buffer-frame w s.buffered (λ q j. r.same q (ground (arith, is.apart q))) is.buffer;
          root_chain =
              Chain-frame none w.locals.root_list.first s.roots
                (λ q j. r.same q (ground (arith, is.apart q))) is.root_chain;
          non_root_chain = chain;
          queue =
              Queue-frame w.locals.queue s.queued (λ q j. r.same q (ground (arith, is.apart q)))
                is.queue;
          apart = λ q. ground (arith, is.apart q, erased q);
          boxes = moved_boxes env w s is t g (λ q. refl) (λ q. refl) r.payload;
          gone = λ q e. gone_payload w.heap g q (r.payload q) (is.gone q e);
          loose = loose-out s t w.heap g p d is.loose atd dn dp (λ q ne o.
              let out : q ∉ s.non_roots = ground (arith, erased q, ne→== q p ne) in
              (r.same q out, ground (arith, out)));
        },
      )

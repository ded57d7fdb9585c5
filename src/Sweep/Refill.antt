-- ===== src/Sweep/Refill.antt =====
-- A pass of `__collect` in src/lib.rs that finalizes something: the garbage is back in the buffer.
use rust_cc.Prelude.{
  ℕ, ◌<◌, ◌^◌, ◌≡◌, refl, true, false, not, Option, none, some, List, [], arith, Bool-cases, inl,
  inr, ◌∙◌, ap, sym, subst, length,
}
use rust_cc.CounterMarker.{needs_finalization, possible_cycles_mark}
use rust_cc.CounterMarker.View.{View}
use rust_cc.CounterMarker.Laws.{needs_finalization-view}
use rust_cc.Heap.{Ptr, CcBox, Heap}
use rust_cc.Lists.Chain.{◌∈◌, Chain, Chain-SameLinks}
use rust_cc.Lists.PossibleCycles
use rust_cc.Lists.PossibleCycles.{PossibleCycles}
use rust_cc.Lists.Buffer.{IsBuffer}
use rust_cc.Lists.Queue.{IsQueue}
use rust_cc.Lists.Remark.{mark_self_and_append-Marked}
use rust_cc.State
use rust_cc.State.{State}
use rust_cc.World.{World, Client, Locals, no_locals, ok, replace_finalizing}
use rust_cc.Collector.{put_back, finalize_and_deallocate}
use rust_cc.Tracing.{Snapshot, IsSnapshot}
use rust_cc.Tracing.Graph.{IsTraceable, HasLayout}
use rust_cc.Tracing.Layout.{HasLayout-Looks, LayoutOf-kept}
use rust_cc.Tracing.Garbage.{IsTraced}
use rust_cc.Sweep.{Nexts}
use rust_cc.Sweep.Dealloc.{Distinct-Chain}
use rust_cc.Sweep.Finalize.{IsInert, Finalized, finalize_loop-Folds, Finalized-SameLinks}
use rust_cc.Sweep.PutBack.{Returns, Resettled-both, back-Returns}

HasLayout-state :
    (u : World) (state : State) (b : CcBox)
    → HasLayout u b
    → HasLayout (record u { state = state }) b
HasLayout-state u state b l =
    LayoutOf-kept u (record u { state = state }) b b _ (λ q m held at. (m, at)) refl l

abbrev lists : (root non_root first last : Option Ptr) → Locals
lists root non_root first last = record {
  root_list = record { first = root };
  non_root_list = record { first = non_root };
  queue = record { first = first; last = last };
}

locals_none :
    (l : Locals) (f : Option Ptr)
    → l.root_list.first ≡ none
    → f ≡ none
    → l.queue.first ≡ none
    → l.queue.last ≡ none
    → record l { non_root_list = record { first = f } } ≡ no_locals
locals_none l f e1 e2 e3 e4 =
    ap (λ o. lists o f l.queue.first l.queue.last) e1
    ∙ ap (λ o. lists none o l.queue.first l.queue.last) e2
    ∙ ap (λ o. lists none none o l.queue.last) e3
    ∙ ap (λ o. lists none none none o) e4

module _ (env u : World) (start done : List Ptr) (s : Snapshot) (is : IsSnapshot env u s)
    (traced : IsTraced env start done s) (good : IsTraceable env) (fuel : ℕ) (client : Client)
    (short : length s.non_roots < fuel) (fits : length s.non_roots < 2 ^ 64) where
  put_back-Returns :
      (g : Heap) (n : ℕ)
      → Finalized s.non_roots u.heap g
      → n ≡ length s.non_roots
      → (v : World) × (put_back fuel client n (record u { heap = g }) ≡ ok tt v)
        × Returns env s.non_roots v
  unfolding put_back PossibleCycles.swap_list
  put_back-Returns g n fin counted =
      let buffer : IsBuffer u.heap u.possible_cycles [] =
        subst (λ (xs : List Ptr). IsBuffer u.heap u.possible_cycles xs) traced.no_buffered
          is.buffer in
      let swapped : PossibleCycles = record { first = u.locals.non_root_list.first; size = n } in
      let chain =
        Chain-SameLinks u.heap g none u.locals.non_root_list.first s.non_roots
          (Finalized-SameLinks s.non_roots u.heap g fin) is.non_root_chain in
      let (pc, k, ran, back, all) =
        mark_self_and_append-Marked fuel possible_cycles_mark g swapped s.non_roots
          (record { first = u.possible_cycles.first }) u.possible_cycles.size
          (record { chain = chain; counted = counted }) buffer.chain buffer.counted short fits in
      let queue : IsQueue u.heap u.locals.queue [] =
        subst (λ (xs : List Ptr). IsQueue u.heap u.locals.queue xs) traced.no_queued is.queue in
      let roots : Chain u.heap none u.locals.root_list.first [] =
        subst (λ (xs : List Ptr). Chain u.heap none u.locals.root_list.first xs) traced.no_roots
          is.root_chain in
      let v : World = record u {
        heap = k;
        possible_cycles = pc;
        locals = record (u.locals) { non_root_list = record { first = u.possible_cycles.first } };
      } in
      (
        v,
        rw ran refl,
        back-Returns env u start done s is traced k (Resettled-both s.non_roots u.heap g k fin all)
            pc v refl refl
            (locals_none u.locals u.possible_cycles.first roots buffer.chain queue.line queue.end)
            is.framed back,
      )

  module _ (inert : IsInert client) (line : Nexts u.heap u.locals.non_root_list.first s.non_roots)
      (alive : (p : Ptr) → p ∈ s.non_roots → (b : CcBox) × (env.heap p ≡ some b)) where
    -- If a box of the garbage has to be finalized.
    pub finalize_and_deallocate-Returns :
        (p : Ptr) (before : CcBox)
        → p ∈ s.non_roots
        → env.heap p ≡ some before
        → needs_finalization before.counter_marker ≡ true
        → (v : World) × (finalize_and_deallocate fuel client u ≡ ok tt v)
          × Returns env s.non_roots v
    unfolding finalize_and_deallocate replace_finalizing
    finalize_and_deallocate-Returns p before i e needs =
        let state = State.set_finalizing true u.state in
        let u1 : World = record u { state = state } in
        let (any, n, g, ran, fin, counted, calm) =
          finalize_loop-Folds client inert fuel fuel s.non_roots u.locals.non_root_list.first u1
            false 0 short line
            (Distinct-Chain u.heap none u.locals.non_root_list.first s.non_roots is.non_root_chain)
            (λ q d j at.
              let (old, eo) = alive q j in
              let (b, atb, looks) = is.boxes q old eo in
              let same : b ≡ d = ground (arith, at, atb) in
              subst (λ (x : CcBox). HasLayout u1 x) same
                (HasLayout-state u state b (HasLayout-Looks env u s is good q old b eo looks))) in
        let (b, atb, looks) = is.boxes p before e in
        let still : needs_finalization b.counter_marker ≡ true =
          needs_finalization-view looks.words
          ∙ ap (λ (v : View). not v.finalized) looks.shown
          ∙ sym (needs_finalization-view (good.words p before e))
          ∙ needs in
        let found : any ≡ true = elim (Bool-cases any) [
          | inl yes_any ↦ yes_any
          | inr none_any ↦ absurd (ground (arith, (calm none_any).1 p b i atb, still))
        ] in
        let (v, ran2, back) =
          put_back-Returns g n fin (ground (arith, counted (ground (arith, fits)))) in
        (v, rw ran (rw found ran2), back)

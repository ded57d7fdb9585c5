-- ===== src/Tracing/Layout.antt =====
-- Calls through the vtable of a box, in the collection of src/lib.rs.
use rust_cc.Prelude.{◌≡◌, refl, Bool, true, false, some, ◌∙◌, ap, sym, subst}
use rust_cc.CounterMarker.{has_allocated_for_metadata}
use rust_cc.Heap.{Ptr, CcBox, VTable, BoxedMetadata, boxed_member}
use rust_cc.World.{World, Cmd, ok, ◌>>=◌}
use rust_cc.CcBox.{vtable_of}
use rust_cc.Tracing.{Snapshot, Looks, IsSnapshot, Leads}
use rust_cc.Tracing.Graph.{IsTraceable, HasLayout, LayoutOf}
use rust_cc.Tracing.Reads.{has_allocated-Looks}

pub vtable_of_at : (u : World) (b : CcBox) → HasLayout u b → (v : VTable) × (vtable_of b u ≡ ok v u)
unfolding vtable_of
vtable_of_at u b = go (has_allocated_for_metadata b.counter_marker) refl
  where
    go :
        (t : Bool)
        → has_allocated_for_metadata b.counter_marker ≡ t
        → LayoutOf u b t
        → (v : VTable) × (vtable_of b u ≡ ok v u)
    go true f (q, m, held, atm) = (m.vtable, rw f (rw held (rw atm refl)))
    go false f (v, held) = (v, rw f (rw held refl))

-- The metadata of another state that has that of the first.
pub LayoutOf-kept :
    (u v : World) (b d : CcBox) (t : Bool)
    → ((q : Ptr) (m : BoxedMetadata)
        → b.metadata ≡ boxed_member q
        → u.metadata q ≡ some m
        → (n : BoxedMetadata) × (v.metadata q ≡ some n))
    → d.metadata ≡ b.metadata
    → LayoutOf u b t
    → LayoutOf v d t
LayoutOf-kept u v b d true kept same (q, m, held, atm) =
    let (n, atn) = kept q m held atm in (q, n, same ∙ held, atn)
LayoutOf-kept u v b d false kept same (x, held) = (x, same ∙ held)

module _ (env w : World) (s : Snapshot) (is : IsSnapshot env w s) (ok_env : IsTraceable env) where
  pub HasLayout-Looks :
      (p : Ptr) (before b : CcBox) → env.heap p ≡ some before → Looks s p before b → HasLayout w b
  HasLayout-Looks p before b e looks =
      subst (LayoutOf w b) (sym (has_allocated-Looks s p before b looks (ok_env.words p before e)))
        (LayoutOf-kept env w before b (has_allocated_for_metadata before.counter_marker)
          (λ q m held atm. (m, ap (λ (u : World). u.metadata q) is.framed ∙ atm)) looks.metadata
          (ok_env.layouts p before e))

  pub vtable_of_run :
      (p : Ptr) (before b : CcBox)
      → env.heap p ≡ some before
      → Looks s p before b
      → (v : VTable) × (vtable_of b w ≡ ok v w)
  vtable_of_run p before b e looks = vtable_of_at w b (HasLayout-Looks p before b e looks)

-- Two commands in a row.
pub Leads-then :
    {A B : Type 0} (env : World) (c : Cmd A) (k : A → Cmd B) (w v : World) (a : A) (b : B)
    (t : Snapshot)
    → c w ≡ ok a v
    → Leads env b t (k a v)
    → Leads env b t ((c >>= k) w)
Leads-then env c k w v a b t ran (u, rest, is) = (u, rw ran rest, is)

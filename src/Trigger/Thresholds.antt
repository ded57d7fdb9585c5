-- ===== src/Trigger/Thresholds.antt =====
-- When `trigger_collection` of src/lib.rs collects, by `should_collect` of src/config.rs.
use rust_cc.Prelude.{
  ℕ, ◌≡◌, ◌≤◌, ◌<◌, ◌⊎◌, refl, Bool, true, false, Option, none, some, Bool-cases, Option-cases, ltb,
  inl, inr, arith,
}
use rust_cc.World.{World, Client, ok, and_then}
use rust_cc.Config.{Percentages, Config, should_collect, exceeds_buffered}
use rust_cc.Collector.{collect}
use rust_cc.Trigger.{
  ConfigCell, holding, wants_collection, adjust_trigger_point, collect_and_adjust,
  trigger_collection,
}

module _ (f : Percentages) where
  -- No collection is wanted: automatic collections are off, or neither the bytes nor the buffer
  -- exceed their thresholds.
  abbrev pub Patient : (allocated size : ℕ) → Config f → Type 0
  Patient allocated size c =
      (c.auto_collect ≡ false)
      ⊎ ((allocated ≤ c.bytes_threshold) × ((n : ℕ) → c.buffered_threshold ≡ some n → size ≤ n))

  -- A collection is wanted: automatic collections are on, and the bytes or the buffer exceed their
  -- thresholds.
  abbrev pub Exceeds : (allocated size : ℕ) → Config f → Type 0
  Exceeds allocated size c =
      (c.auto_collect ≡ true)
      × ((c.bytes_threshold < allocated) ⊎ ((n : ℕ) × (c.buffered_threshold ≡ some n) × (n < size)))

  patient_lem :
      (allocated size : ℕ) (c : Config f)
      → Patient allocated size c
      → should_collect f allocated size c ≡ false
  unfolding should_collect exceeds_buffered
  patient_lem allocated size c (inl off) = rw off refl
  patient_lem allocated size c (inr (few, small)) = go c.auto_collect c.buffered_threshold small
    where
      go :
          (on : Bool) (threshold : Option ℕ)
          → ((n : ℕ) → threshold ≡ some n → size ≤ n)
          → should_collect f allocated size
              (record c { auto_collect = on; buffered_threshold = threshold })
            ≡ false
      go false threshold fits = refl
      go true none fits = ground (arith, few)
      go true (some n) fits = ground (arith, few, fits n refl)

  exceeds_lem :
      (allocated size : ℕ) (c : Config f)
      → Exceeds allocated size c
      → should_collect f allocated size c ≡ true
  unfolding should_collect exceeds_buffered
  exceeds_lem allocated size c (on, inl many) = rw on (ground (arith, many))
  exceeds_lem allocated size c (on, inr (n, set, large)) = rw (on, set) (ground (arith, large))

  Patient-or_Exceeds :
      (allocated size : ℕ) (c : Config f) → Patient allocated size c ⊎ Exceeds allocated size c
  Patient-or_Exceeds allocated size c = elim (Bool-cases c.auto_collect) [
    | inl on ↦ elim (Bool-cases (ltb c.bytes_threshold allocated)) [
      | inl many ↦ inr (on, inl (ground (arith, many)))
      | inr few ↦ elim (Option-cases c.buffered_threshold) [
        | inl unset ↦ inl (inr (ground (arith, few), λ n e. absurd (ground (arith, unset, e))))
        | inr (n, set) ↦ elim (Bool-cases (ltb n size)) [
          | inl large ↦ inr (on, inr (n, set, ground (arith, large)))
          | inr small ↦ inl (inr (ground (arith, few), λ m e. ground (arith, set, e, small)))
        ]
      ]
    ]
    | inr off ↦ inl (inl off)
  ]

  -- A collection is running, or the buffer cannot be reached, or none is wanted.
  abbrev pub Waits : World → Config f → Type 0
  Waits w c =
      (w.state.collecting ≡ true)
      ⊎ ((w.cycles_accessible ≡ false) ⊎ Patient w.state.allocated_bytes w.possible_cycles.size c)

  -- No collection is running, the buffer can be reached, and one is wanted.
  abbrev pub Starts : World → Config f → Type 0
  Starts w c =
      (w.state.collecting ≡ false)
      × (w.cycles_accessible ≡ true)
      × Exceeds w.state.allocated_bytes w.possible_cycles.size c

module _ (f : Percentages) (fuel : ℕ) (client : Client) (meanwhile : ConfigCell f → ConfigCell f)
    (c : Config f) (w : World) where
  pub Waits-run :
      Waits f w c → trigger_collection f fuel client meanwhile (holding c) w ≡ ok (holding c) w
  unfolding trigger_collection wants_collection
  Waits-run (inl running) = rw running refl
  Waits-run (inr (inl gone)) = elim (Bool-cases w.state.collecting) [
    | inl running ↦ rw running refl
    | inr idle ↦ rw (idle, gone) refl
  ]
  Waits-run (inr (inr patient)) = elim (Bool-cases w.state.collecting) [
    | inl running ↦ rw running refl
    | inr idle ↦
        let calm = patient_lem f w.state.allocated_bytes w.possible_cycles.size c patient in
        elim (Bool-cases w.cycles_accessible) [
          | inl reach ↦ rw (idle, reach) (rw calm refl)
          | inr gone ↦ rw (idle, gone) refl
        ]
  ]

  Starts-run :
      Starts f w c
      → trigger_collection f fuel client meanwhile (holding c) w
        ≡ and_then
            (collect fuel client w)
            (λ _. adjust_trigger_point f fuel (meanwhile (holding c)))
  unfolding trigger_collection wants_collection collect_and_adjust
  Starts-run (idle, reach, over) =
      rw (idle, reach)
        (rw (exceeds_lem f w.state.allocated_bytes w.possible_cycles.size c over) refl)

  -- While the configuration can be reached, one of two cases holds. While a collection is running,
  -- while the buffer cannot be reached, and while automatic collections are off or neither the
  -- allocated bytes nor the size of the buffer exceed their thresholds, `trigger_collection` does
  -- nothing. Otherwise it collects and then adjusts the threshold.
  pub trigger_collection-thresholds :
      (Waits f w c × (trigger_collection f fuel client meanwhile (holding c) w ≡ ok (holding c) w))
      ⊎ (Starts f w c
          × (trigger_collection f fuel client meanwhile (holding c) w
              ≡ and_then
                  (collect fuel client w)
                  (λ _. adjust_trigger_point f fuel (meanwhile (holding c)))))
  trigger_collection-thresholds = elim (Bool-cases w.state.collecting) [
    | inl running ↦ inl (inl running, Waits-run (inl running))
    | inr idle ↦ elim (Bool-cases w.cycles_accessible) [
      | inr gone ↦ inl (inr (inl gone), Waits-run (inr (inl gone)))
      | inl reach ↦ elim (Patient-or_Exceeds f w.state.allocated_bytes w.possible_cycles.size c) [
        | inl patient ↦ inl (inr (inr patient), Waits-run (inr (inr patient)))
        | inr over ↦ inr ((idle, reach, over), Starts-run (idle, reach, over))
      ]
    ]
  ]

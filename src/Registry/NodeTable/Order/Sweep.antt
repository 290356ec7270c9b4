-- ===== src/Registry/NodeTable/Order/Sweep.antt =====
-- The loop of remove_stale_nodes under another order of iteration.
use mathlib.Core.List.{Permᴰ}
use mathlib.Core.List.Permᴰ
use d_ro_cm.Base.{ℕ, String, refl, Bool-cases, inl, inr, ◌∷◌, leb}
use d_ro_cm.Base.Maps.{UnorderedMap, IsUnique}
use d_ro_cm.Base.Maps.Order.{respects}
use d_ro_cm.Registry.NodeTable.{NodeEntry, sweep}

sweep-swap :
    (max : ℕ) (a b : String × NodeEntry) (m : UnorderedMap NodeEntry)
    → Permᴰ (sweep max (a ∷ b ∷ m)).0 (sweep max (b ∷ a ∷ m)).0
      × Permᴰ (sweep max (a ∷ b ∷ m)).1 (sweep max (b ∷ a ∷ m)).1
unfolding sweep
sweep-swap max a b m = elim (Bool-cases (leb max a.1.missed_heartbeats)) [
  | inl e ↦ elim (Bool-cases (leb max b.1.missed_heartbeats)) [
    | inl e' ↦ rw (e, e') (Permᴰ.refl _, Permᴰ.swap refl refl)
    | inr e' ↦ rw (e, e') (Permᴰ.refl _, Permᴰ.refl _)
  ]
  | inr e ↦ elim (Bool-cases (leb max b.1.missed_heartbeats)) [
    | inl e' ↦ rw (e, e') (Permᴰ.refl _, Permᴰ.refl _)
    | inr e' ↦ rw (e, e') (Permᴰ.swap refl refl, Permᴰ.refl _)
  ]
]

pub sweep_kept-Permᴰ :
    (max : ℕ) {m m' : UnorderedMap NodeEntry}
    → Permᴰ m m'
    → IsUnique m
    → Permᴰ (sweep max m).0 (sweep max m').0
unfolding sweep
sweep_kept-Permᴰ max =
    respects (λ m. (sweep max m).0)
      (λ a m m' u p h. elim (Bool-cases (leb max a.1.missed_heartbeats)) [
        | inl e ↦ rw e h
        | inr e ↦ rw e (Permᴰ.cons refl h)
      ])
      (λ a b m u. (sweep-swap max a b m).0)

pub sweep_removed-Permᴰ :
    (max : ℕ) {m m' : UnorderedMap NodeEntry}
    → Permᴰ m m'
    → IsUnique m
    → Permᴰ (sweep max m).1 (sweep max m').1
unfolding sweep
sweep_removed-Permᴰ max =
    respects (λ m. (sweep max m).1)
      (λ a m m' u p h. elim (Bool-cases (leb max a.1.missed_heartbeats)) [
        | inl e ↦ rw e (Permᴰ.cons refl h)
        | inr e ↦ rw e h
      ])
      (λ a b m u. (sweep-swap max a b m).1)

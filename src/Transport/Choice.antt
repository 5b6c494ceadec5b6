-- ===== src/Transport/Choice.antt =====
-- How the manager of transport/mod.rs chooses.
use mathlib.Core.List.{head?}
use merabriar.Prelude.{
  ◌≡◌, ◌∙◌, inl, inr, refl, true, false, Bool-cases, some, List, [], ◌∷◌, ◌++◌, filter_by, All,
  arith,
}
use merabriar.Transport.{
  Transport, is_available, TransportManager, first_available, get_best_transport,
  get_available_transports,
}

first_available-split :
    (ts : List Transport) (t : Transport)
    → first_available ts ≡ some t
    → (before after : List Transport) × (ts ≡ before ++ t ∷ after)
      × All (λ u. is_available u ≡ false) before
      × (is_available t ≡ true)
unfolding first_available
first_available-split [] t h = cc
first_available-split (u ∷ ts) t h = elim (Bool-cases (is_available u)) [
  | inl on ↦ let same : u ≡ t = ground arith in ([], ts, cc same, tt, cc (on, same))
  | inr off ↦
      let (before, after, e, skipped, found) = first_available-split ts t (ground arith) in
      (u ∷ before, after, cc e, (off, skipped), found)
]

head-filter_by : (ts : List Transport) → head? (filter_by is_available ts) ≡ first_available ts
unfolding first_available
head-filter_by [] = refl
head-filter_by (u ∷ ts) = ground (arith, head-filter_by ts)

-- The chosen transport is available, every transport before it in the order of priority is not, and it is
-- the first of the available ones.
get_best_transport-first :
    (m : TransportManager) (t : Transport)
    → get_best_transport m ≡ some t
    → (before after : List Transport) × (m.transports ≡ before ++ t ∷ after)
      × All (λ u. is_available u ≡ false) before
      × (is_available t ≡ true)
      × (head? (get_available_transports m) ≡ some t)
unfolding get_best_transport get_available_transports
get_best_transport-first m t h =
    let (before, after, e, skipped, on) = first_available-split m.transports t h in
    (before, after, e, skipped, on, head-filter_by m.transports ∙ h)

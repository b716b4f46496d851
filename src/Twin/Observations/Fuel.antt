-- ===== src/Twin/Observations/Fuel.antt =====
-- The fuel of the visit is enough (digitalTwinAdapters.js, `orderObservations`): each call of
-- `visit` but the first follows an observation that was not seen before.
use wind_solar_ess_agent.Base.{
  ℕ, zero, suc, ◌+◌, ◌≤◌, ◌<◌, ◌≡◌, refl, sym, ◌∙◌, ap, true, false, Option, none, some, List, [],
  ◌∷◌, ◌++◌, arith, inl, inr, Bool-cases, length,
}
use wind_solar_ess_agent.Js.Text.{Text, text_eq, text_eq→eq, text_eq_refl, text_eq-false_sym}
use wind_solar_ess_agent.Twin.Observations.{
  Observation, Visit, children_of, has, add, visit_each, visit_from, unvisited, order_with,
  order_observations,
}
use wind_solar_ess_agent.Twin.Observations.Visits.{
  count, Within, Within-of_counts, Within-children_of, visit_from_inv,
}

-- How many observations are not seen.
abbrev unseen : List Observation → Visit → ℕ
unseen all v = length (unvisited v.seen all)

unvisited-le :
    (id : Text) (seen : List Text) (os : List Observation)
    → length (unvisited (id ∷ seen) os) ≤ length (unvisited seen os)
unfolding unvisited
unvisited-le id seen [] = omega arith
unvisited-le id seen (o ∷ os) = ground (arith, unvisited-le id seen os)

unvisited-lt :
    (id : Text) (seen : List Text) (os : List Observation)
    → 1 ≤ count id os
    → has id seen ≡ false
    → length (unvisited (id ∷ seen) os) < length (unvisited seen os)
unfolding unvisited
unvisited-lt id seen [] h new = absurd (omega arith)
unvisited-lt id seen (o ∷ os) h new =
    let le = unvisited-le id seen os in
    elim (Bool-cases (text_eq o.observation_id id)) [
      | inl same ↦
          let e : o.observation_id ≡ id = text_eq→eq o.observation_id id same in
          let new_here : has o.observation_id seen ≡ false =
            ap (λ (t : Text). has t seen) e ∙ new in
          let same_sym : text_eq id o.observation_id ≡ true =
            ap (λ (t : Text). text_eq t o.observation_id) (sym e) ∙ text_eq_refl o.observation_id in
          rw same_sym (rw new_here (omega (arith, le)))
      | inr other ↦
          let later = unvisited-lt id seen os (ground (arith, h, other)) new in
          ground (arith, later, text_eq-false_sym o.observation_id id other)
    ]

visit_from-le :
    (all : List Observation) (n fuel : ℕ) (parent : Option Text) (depth : ℕ) (v : Visit)
    → unseen all v ≤ n
    → unseen all (visit_from fuel all parent depth v) ≤ n
visit_from-le all n fuel parent depth v h =
    visit_from_inv all (λ w. unseen all w ≤ n)
      (λ o d w _ _ k. omega (arith, k, unvisited-le o.observation_id w.seen all)) fuel parent depth
      v h

-- Two ways to visit that agree where fewer than `n` observations are unseen, and leave no more
-- unseen, agree over a list where no more than `n` are.
visit_each-eq :
    (all : List Observation) (n : ℕ) (f g : Option Text → ℕ → Visit → Visit) (os : List Observation)
    (depth : ℕ) (v : Visit)
    → ((parent : Option Text) (d : ℕ) (w : Visit) → unseen all w < n → f parent d w ≡ g parent d w)
    → ((parent : Option Text) (d : ℕ) (w : Visit)
        → unseen all w ≤ n
        → unseen all (f parent d w) ≤ n)
    → Within all os
    → unseen all v ≤ n
    → visit_each f os depth v ≡ visit_each g os depth v
unfolding visit_each
visit_each-eq all n f g [] depth v same le within h = refl
visit_each-eq all n f g (o ∷ os) depth v same le (here, within) h =
    elim (Bool-cases (has o.observation_id v.seen)) [
      | inl old ↦ rw old (visit_each-eq all n f g os depth v same le within h)
      | inr new ↦
          let less : unseen all (add o depth v) < n =
            omega (arith, h, unvisited-lt o.observation_id v.seen all here new) in
          rw new (
            visit_each-eq all n f g os depth _ same le within
              (le (some o.observation_id) (suc depth) (add o depth v) (omega (arith, less)))
            ∙ ap (visit_each g os depth)
                (same (some o.observation_id) (suc depth) (add o depth v) less))
    ]

-- More fuel than there are unseen observations changes nothing.
visit_from-suc :
    (all : List Observation) (fuel : ℕ) (parent : Option Text) (depth : ℕ) (v : Visit)
    → unseen all v < fuel
    → visit_from fuel all parent depth v ≡ visit_from (suc fuel) all parent depth v
unfolding visit_from
visit_from-suc all zero parent depth v h = absurd (omega arith)
visit_from-suc all (suc fuel) parent depth v h =
    visit_each-eq all fuel (visit_from fuel all) (visit_from (suc fuel) all)
      (children_of parent all) depth v (λ p d w k. visit_from-suc all fuel p d w k)
      (λ p d w k. visit_from-le all fuel fuel p d w k)
      (Within-children_of all all parent (Within-of_counts all all (λ id. omega arith)))
      (omega arith)

length-unvisited :
    (seen : List Text) (os : List Observation) → length (unvisited seen os) ≤ length os
unfolding unvisited
length-unvisited seen [] = omega arith
length-unvisited seen (o ∷ os) = ground (arith, length-unvisited seen os)

-- The visits end by themselves: with any more fuel than one for each observation and one, the
-- ordered list is the same.
pub order_observations-fuel :
    (os : List Observation) (more : ℕ)
    → order_with (suc (length os) + more) os ≡ order_observations os
unfolding order_observations
order_observations-fuel os zero = ap (λ (n : ℕ). order_with n os) (omega arith)
order_observations-fuel os (suc more) =
    let start : Visit = record { seen = []; ordered = [] } in
    let fuel = suc (length os) + more in
    ap (λ (n : ℕ). order_with n os) (omega arith)
    ∙ ap (λ (v : Visit). v.ordered ++ unvisited v.seen os)
        (sym (visit_from-suc os fuel none 0 start (omega (arith, length-unvisited [] os))))
    ∙ order_observations-fuel os more

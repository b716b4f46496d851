-- ===== src/Twin/RunEvents/Sets.antt =====
-- The set of sequence numbers that `applyRunEventBatch` of digitalTwinAdapters.js builds anew.
use wind_solar_ess_agent.Base.{
  ℕ, ◌+◌, ◌≤◌, ◌≡◌, refl, sym, ◌∙◌, false, List, [], ◌∷◌, ◌++◌, arith, ◌==◌, inl, inr, Bool-cases,
  length, length-append, any-append, any-sort_by, sort_by, leb, insert_by, any-insert_by,
  append_assoc, append-nil, subst,
}
use wind_solar_ess_agent.Twin.RunEvents.{has_sequence, number_set}

-- No number occurs twice.
abbrev pub Distinct : List ℕ → Type 0
Distinct [] = Unit
Distinct (n ∷ ns) = (has_sequence n ns ≡ false) × Distinct ns

pub Distinct-snoc :
    (n : ℕ) (ns : List ℕ) → has_sequence n ns ≡ false → Distinct ns → Distinct (ns ++ n ∷ [])
Distinct-snoc n [] new h = (refl, tt)
Distinct-snoc n (m ∷ ns) new (k, h) =
    (any-append (λ j. j == m) ns (n ∷ []) ∙ ground arith, Distinct-snoc n ns (ground arith) h)

pub number_set-Distinct : (seen ns : List ℕ) → Distinct seen → Distinct (number_set seen ns)
number_set-Distinct seen [] h = h
number_set-Distinct seen (n ∷ ns) h = elim (Bool-cases (has_sequence n seen)) [
  | inl old ↦ rw old (number_set-Distinct seen ns h)
  | inr new ↦ rw new (number_set-Distinct (seen ++ n ∷ []) ns (Distinct-snoc n seen new h))
]

pub length-number_set : (seen ns : List ℕ) → length (number_set seen ns) ≤ length seen + length ns
length-number_set seen [] = omega arith
length-number_set seen (n ∷ ns) = elim (Bool-cases (has_sequence n seen)) [
  | inl old ↦ rw old (omega (arith, length-number_set seen ns))
  | inr new ↦
      rw new (omega (arith, length-number_set (seen ++ n ∷ []) ns, length-append seen (n ∷ [])))
]

-- The first number of what is to be added is not there yet.
has_sequence-Distinct :
    (n : ℕ) (seen ns : List ℕ) → Distinct (seen ++ n ∷ ns) → has_sequence n seen ≡ false
has_sequence-Distinct n [] ns h = refl
has_sequence-Distinct n (m ∷ seen) ns (k, h) =
    let rest = has_sequence-Distinct n seen ns h in
    let apart = any-append (λ j. j == m) seen (n ∷ ns) in ground arith

-- Distinct numbers are all kept, in their order.
pub number_set-append : (seen ns : List ℕ) → Distinct (seen ++ ns) → number_set seen ns ≡ seen ++ ns
number_set-append seen [] h = sym (append-nil seen)
number_set-append seen (n ∷ ns) h =
    let regroup = append_assoc seen (n ∷ []) ns in
    rw (has_sequence-Distinct n seen ns h)
      (number_set-append (seen ++ n ∷ []) ns (subst Distinct (sym regroup) h) ∙ regroup)

insert_by-Distinct :
    (n : ℕ) (ns : List ℕ)
    → has_sequence n ns ≡ false
    → Distinct ns
    → Distinct (insert_by (λ m. m) n ns)
unfolding insert_by
insert_by-Distinct n [] new h = (refl, tt)
insert_by-Distinct n (m ∷ ns) new (k, h) =
    let rest = insert_by-Distinct n ns (ground arith) h in
    let apart = any-insert_by (λ j. j) (λ j. j == m) n ns in
    elim (Bool-cases (leb n m)) [
      | inl first ↦ rw first (new, (k, h))
      | inr later ↦ rw later (ground arith, rest)
    ]

pub sort_by-Distinct : (ns : List ℕ) → Distinct ns → Distinct (sort_by (λ n. n) ns)
unfolding sort_by
sort_by-Distinct [] h = tt
sort_by-Distinct (n ∷ ns) (k, h) =
    insert_by-Distinct n (sort_by (λ m. m) ns) (any-sort_by (λ m. m) (λ m. m == n) ns ∙ k)
      (sort_by-Distinct ns h)

-- ===== src/Twin/RunEvents/Seen.antt =====
-- Which sequences are seen, and which of them are kept (digitalTwinAdapters.js, the set `seen` of `applyRunEventBatch`).
use wind_solar_ess_agent.Base.{
  ℕ, suc, ◌+◌, ◌≤◌, ◌≡◌, refl, sym, ap, subst, ◌∙◌, ◌-◌, drop, Option-cases, true, List, [], ◌∷◌,
  arith, ◌==◌, inl, inr, Bool-cases, length, length-append, any-append, All, All-map, sort_by,
  any-sort_by, length-sort_by, sort_by_idempotent,
}
use wind_solar_ess_agent.Js.Text.{Text, text_eq}
use wind_solar_ess_agent.Twin.RunEvents.Sets.{Distinct, Distinct-snoc}
use wind_solar_ess_agent.Twin.Events.{RunEvent, update_state}
use wind_solar_ess_agent.Twin.RunEvents.{
  Batch, has_sequence, apply_event, apply_events, of_run, select, newest,
}

-- Every event of the list is seen.
abbrev pub AllSeen : List ℕ → List (ℕ × RunEvent) → Type 0
AllSeen seen events = All (λ (e : ℕ × RunEvent). has_sequence e.0 seen ≡ true) events

seen-apply_event :
    (n : ℕ) (e : ℕ × RunEvent) (b : Batch)
    → has_sequence n b.seen ≡ true
    → has_sequence n (apply_event e b).seen ≡ true
unfolding apply_event
seen-apply_event n e b h = elim (Bool-cases (has_sequence e.0 b.seen)) [
  | inl old ↦ rw old h
  | inr new ↦ rw new (any-append (λ m. m == n) b.seen (e.0 ∷ []) ∙ ground arith)
]

seen-apply_event_self :
    (e : ℕ × RunEvent) (b : Batch) → has_sequence e.0 (apply_event e b).seen ≡ true
unfolding apply_event
seen-apply_event_self e b = elim (Bool-cases (has_sequence e.0 b.seen)) [
  | inl old ↦ rw old old
  | inr new ↦ rw new (any-append (λ m. m == e.0) b.seen (e.0 ∷ []) ∙ ground arith)
]

seen-apply_events :
    (n : ℕ) (es : List (ℕ × RunEvent)) (b : Batch)
    → has_sequence n b.seen ≡ true
    → has_sequence n (apply_events es b).seen ≡ true
unfolding apply_events
seen-apply_events n [] b h = h
seen-apply_events n (e ∷ es) b h =
    seen-apply_events n es (apply_event e b) (seen-apply_event n e b h)

pub AllSeen-apply_events :
    (es : List (ℕ × RunEvent)) (b : Batch) → AllSeen (apply_events es b).seen es
unfolding apply_events
AllSeen-apply_events [] b = tt
AllSeen-apply_events (e ∷ es) b = (
  seen-apply_events e.0 es (apply_event e b) (seen-apply_event_self e b),
  AllSeen-apply_events es (apply_event e b),
)

pub apply_events-AllSeen :
    (es : List (ℕ × RunEvent)) (b : Batch) → AllSeen b.seen es → apply_events es b ≡ b
unfolding apply_events apply_event
apply_events-AllSeen [] b h = refl
apply_events-AllSeen (e ∷ es) b (k, h) = rw k (apply_events-AllSeen es b h)

pub run_id-apply_events :
    (es : List (ℕ × RunEvent)) (b : Batch) → (apply_events es b).state.run_id ≡ b.state.run_id
unfolding apply_events apply_event update_state
run_id-apply_events [] b = refl
run_id-apply_events (e ∷ es) b =
    run_id-apply_events es (apply_event e b) ∙ (elim (Bool-cases (has_sequence e.0 b.seen)) [
      | inl old ↦ rw old refl
      | inr new ↦ rw new refl
    ])

length-apply_event :
    (e : ℕ × RunEvent) (b : Batch) → length (apply_event e b).seen ≤ suc (length b.seen)
unfolding apply_event
length-apply_event e b = elim (Bool-cases (has_sequence e.0 b.seen)) [
  | inl old ↦ rw old (omega arith)
  | inr new ↦ rw new (omega (arith, length-append b.seen (e.0 ∷ [])))
]

pub length-apply_events :
    (es : List (ℕ × RunEvent)) (b : Batch)
    → length (apply_events es b).seen ≤ length b.seen + length es
unfolding apply_events
length-apply_events [] b = omega arith
length-apply_events (e ∷ es) b =
    let rest = length-apply_events es (apply_event e b) in
    omega (arith, rest, length-apply_event e b)

length-of_run :
    (run_id : Text) (event : RunEvent) (rest : List (ℕ × RunEvent))
    → length (of_run run_id event rest) ≤ suc (length rest)
length-of_run run_id event rest = elim (Option-cases event.run_id) [
  | inl missing ↦ rw missing (omega arith)
  | inr (id, there) ↦ rw there (elim (Option-cases event.event_sequence) [
    | inl none_given ↦ rw none_given (omega arith)
    | inr (n, given) ↦ rw given (elim (Bool-cases (text_eq id run_id)) [
      | inl same ↦ rw same (omega arith)
      | inr other ↦ rw other (omega arith)
    ])
  ])
]

pub length-select : (run_id : Text) (es : List RunEvent) → length (select run_id es) ≤ length es
length-select run_id [] = omega arith
length-select run_id (e ∷ es) =
    omega (arith, length-of_run run_id e (select run_id es), length-select run_id es)

-- Up to 500 sequences are all kept.
pub newest_small : (seen : List ℕ) → length seen ≤ 500 → newest seen ≡ sort_by (λ n. n) seen
newest_small seen h =
    let sorted = sort_by (λ n. n) seen in
    let none_over : length sorted - 500 ≡ 0 = omega (arith, length-sort_by (λ n. n) seen) in
    ap (λ (k : ℕ). drop k sorted) none_over

pub newest_again : (seen : List ℕ) → length seen ≤ 500 → newest (newest seen) ≡ newest seen
newest_again seen h =
    let sorted = sort_by (λ n. n) seen in
    ap newest (newest_small seen h)
    ∙ newest_small sorted (omega (arith, length-sort_by (λ n. n) seen))
    ∙ sort_by_idempotent (λ n. n) seen
    ∙ sym (newest_small seen h)

pub AllSeen-newest :
    (seen : List ℕ) (es : List (ℕ × RunEvent))
    → length seen ≤ 500
    → AllSeen seen es
    → AllSeen (newest seen) es
AllSeen-newest seen es few h =
    subst (λ (kept : List ℕ). AllSeen kept es) (sym (newest_small seen few))
      (All-map (λ (e : ℕ × RunEvent). has_sequence e.0 seen ≡ true)
        (λ e. has_sequence e.0 (sort_by (λ n. n) seen) ≡ true) es
        (λ e k. any-sort_by (λ n. n) (λ m. m == e.0) seen ∙ k) h)

apply_event-Distinct :
    (e : ℕ × RunEvent) (b : Batch) → Distinct b.seen → Distinct (apply_event e b).seen
unfolding apply_event
apply_event-Distinct e b h = elim (Bool-cases (has_sequence e.0 b.seen)) [
  | inl old ↦ rw old h
  | inr new ↦ rw new (Distinct-snoc e.0 b.seen new h)
]

pub apply_events-Distinct :
    (es : List (ℕ × RunEvent)) (b : Batch) → Distinct b.seen → Distinct (apply_events es b).seen
unfolding apply_events
apply_events-Distinct [] b h = h
apply_events-Distinct (e ∷ es) b h =
    apply_events-Distinct es (apply_event e b) (apply_event-Distinct e b h)

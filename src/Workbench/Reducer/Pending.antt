-- ===== src/Workbench/Reducer/Pending.antt =====
-- Laws of the table `pendingEvents` of stream-reducer.ts: look up, delete, enqueue.
use wind_solar_ess_agent.Base.{
  ℕ, ◌≤◌, ◌<◌, ◌≡◌, inl, inr, none, some, List, [], ◌∷◌, arith, ◌==◌, Bool-cases, subst,
  if◌then◌else◌, length, All,
}
use wind_solar_ess_agent.Workbench.Contracts.{AgentStreamEvent}
use wind_solar_ess_agent.Workbench.Reducer.{pending_event, delete_pending}

abbrev pub Table : Type 0
Table = List (ℕ × AgentStreamEvent)

pub pending_event-delete_pending :
    (n m : ℕ) (table : Table)
    → pending_event m (delete_pending n table) ≡ (if n == m then none else pending_event m table)
unfolding pending_event delete_pending
pending_event-delete_pending n m [] = ground arith
pending_event-delete_pending n m ((k, e) ∷ rest) =
    ground (arith, pending_event-delete_pending n m rest)

length-delete_pending-le : (n : ℕ) (table : Table) → length (delete_pending n table) ≤ length table
unfolding delete_pending
length-delete_pending-le n [] = omega arith
length-delete_pending-le n ((k, e) ∷ rest) = ground (arith, length-delete_pending-le n rest)

-- To delete an entry that is there makes the table shorter.
pub length-delete_pending :
    (n : ℕ) (table : Table) (e : AgentStreamEvent)
    → pending_event n table ≡ some e
    → length (delete_pending n table) < length table
unfolding pending_event delete_pending
length-delete_pending n [] e h = cc
length-delete_pending n ((k, e') ∷ rest) e h =
    ground (arith, length-delete_pending-le n rest, length-delete_pending n rest e)

-- What holds of every entry holds of those that are kept, and of one that is found.
pub All-delete_pending {ℓ} :
    (P : ℕ × AgentStreamEvent → Type ℓ) (n : ℕ) (table : Table)
    → All P table
    → All P (delete_pending n table)
unfolding delete_pending
All-delete_pending P n [] h = tt
All-delete_pending P n ((k, e) ∷ rest) (p, h) = elim (Bool-cases (k == n)) [
  | inl same ↦ rw same (All-delete_pending P n rest h)
  | inr other ↦ rw other (p, All-delete_pending P n rest h)
]

pub All-pending_event {ℓ} :
    (P : ℕ × AgentStreamEvent → Type ℓ) (n : ℕ) (table : Table) (e : AgentStreamEvent)
    → All P table
    → pending_event n table ≡ some e
    → P (n, e)
unfolding pending_event
All-pending_event P n [] e h q = cc
All-pending_event P n ((k, e') ∷ rest) e (p, h) q = elim (Bool-cases (k == n)) [
  | inl same ↦ let here : (k, e') ≡ (n, e) = ground arith in subst P here p
  | inr other ↦ All-pending_event P n rest e h (ground arith)
]

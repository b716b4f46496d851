-- ===== src/Workbench/Store/Updates.antt =====
-- Updates of messages (agent-workbench-store.ts), in one order or another.
use wind_solar_ess_agent.Base.{
  ◌≡◌, refl, ◌∙◌, sym, ap, false, List, [], ◌∷◌, map, Bool-cases, inl, inr,
}
use wind_solar_ess_agent.Js.Text.{Text, text_eq, text_eq→eq}
use wind_solar_ess_agent.Workbench.Store.{
  AgentWorkbenchMessage, AgentWorkbenchStore, update_one, update_message,
}

-- An update that leaves the id of the message as it is.
abbrev pub KeepsId : (AgentWorkbenchMessage → AgentWorkbenchMessage) → Type 0
KeepsId update = (message : AgentWorkbenchMessage) → (update message).id ≡ message.id

pub id-update_one :
    (a : Text) (f : AgentWorkbenchMessage → AgentWorkbenchMessage) (m : AgentWorkbenchMessage)
    → KeepsId f
    → (update_one a f m).id ≡ m.id
unfolding update_one
id-update_one a f m keeps = elim (Bool-cases (text_eq m.id a)) [
  | inl same ↦ rw same (keeps m)
  | inr other ↦ rw other
]

update_one_other :
    (a : Text) (f : AgentWorkbenchMessage → AgentWorkbenchMessage) (m : AgentWorkbenchMessage)
    → text_eq m.id a ≡ false
    → update_one a f m ≡ m
unfolding update_one
update_one_other a f m h = rw h

update_one_commute :
    (a b : Text) (f g : AgentWorkbenchMessage → AgentWorkbenchMessage) (m : AgentWorkbenchMessage)
    → text_eq a b ≡ false
    → KeepsId f
    → KeepsId g
    → update_one a f (update_one b g m) ≡ update_one b g (update_one a f m)
update_one_commute a b f g m h keeps_f keeps_g = elim (Bool-cases (text_eq m.id a)) [
  | inl same ↦
      let not_b : text_eq m.id b ≡ false =
        ap (λ (t : Text). text_eq t b) (text_eq→eq m.id a same) ∙ h in
      ap (update_one a f) (update_one_other b g m not_b)
      ∙ sym (
          update_one_other b g (update_one a f m)
            (ap (λ (t : Text). text_eq t b) (id-update_one a f m keeps_f) ∙ not_b))
  | inr not_a ↦
      update_one_other a f (update_one b g m)
        (ap (λ (t : Text). text_eq t a) (id-update_one b g m keeps_g) ∙ not_a)
      ∙ ap (update_one b g) (sym (update_one_other a f m not_a))
]

-- Updates of two messages with different ids, both of which keep the ids, may change places, as
-- when the stream of a run and the reveal of its text write to the store in turn.
update_message_commute :
    (a b : Text) (f g : AgentWorkbenchMessage → AgentWorkbenchMessage) (s : AgentWorkbenchStore)
    → text_eq a b ≡ false
    → KeepsId f
    → KeepsId g
    → update_message a f (update_message b g s) ≡ update_message b g (update_message a f s)
unfolding update_message
update_message_commute a b f g s h keeps_f keeps_g =
    ap (λ (ms : List AgentWorkbenchMessage). record s { messages = ms }) (go s.messages)
  where
    go :
        (ms : List AgentWorkbenchMessage)
        → map (update_one a f) (map (update_one b g) ms)
          ≡ map (update_one b g) (map (update_one a f) ms)
    go [] = refl
    go (m ∷ ms) = λ i. update_one_commute a b f g m h keeps_f keeps_g i ∷ go ms i

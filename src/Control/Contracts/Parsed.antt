-- ===== src/Control/Contracts/Parsed.antt =====
-- What an input is that its schema accepts (contracts/control.ts).
use wind_solar_ess_agent.Base.{
  ◌≡◌, refl, sym, subst, Bool, true, false, none, some, if◌then◌else◌, arith,
}
use wind_solar_ess_agent.Js.Text.{Text, trim}
use wind_solar_ess_agent.Control.Contracts.{
  TurnInput, RuntimeTurnRequest, is_identifier, is_turn_input, parse_turn_input,
  to_runtime_turn_request,
}

if-some :
    {A : Type 0} (b : Bool) (x y : A) → (if b then some x else none) ≡ some y → (b ≡ true) × (x ≡ y)
if-some true x y h = (refl, cc)
if-some false x y h = cc

pub parse_turn_input-some :
    (i j : TurnInput)
    → parse_turn_input i ≡ some j
    → (j ≡ record i { text = trim i.text }) × (is_turn_input j ≡ true)
unfolding parse_turn_input
parse_turn_input-some i j h =
    let (valid, same) = if-some (is_turn_input (record i { text = trim i.text })) _ _ h in
    (sym same, subst (λ (t : TurnInput). is_turn_input t ≡ true) same valid)

pub to_runtime_turn_request-some :
    (session_id : Text) (i : TurnInput) (r : RuntimeTurnRequest)
    → to_runtime_turn_request session_id i ≡ some r
    → (r.session_id ≡ session_id) × (r.text ≡ i.text) × (is_identifier session_id ≡ true)
unfolding to_runtime_turn_request
to_runtime_turn_request-some session_id i r h = ground arith

-- ===== src/Workbench/Buffer/Drain.antt =====
-- What a tick of the text buffer shows, and that a finite number of ticks shows all of the text.
use wind_solar_ess_agent.Base.{
  ℕ, zero, suc, ◌+◌, ◌-◌, ◌*◌, ◌≤◌, ◌≡◌, refl, ap, inl, inr, true, false, [], ◌∷◌, arith,
  Bool-cases, length, take, length-take, min,
}
use wind_solar_ess_agent.Js.Text.{Text, starts_with}
use wind_solar_ess_agent.Workbench.Contracts.{AgentRunState}
use wind_solar_ess_agent.Workbench.Reducer.{is_terminal_status}
use wind_solar_ess_agent.Workbench.Reducer.Terminal.{IsSettled}
use wind_solar_ess_agent.Workbench.Buffer.{
  calculate_drain_size, should_release_active_message, drain_streaming_text,
}

starts_with-take : (n : ℕ) (s : Text) → starts_with (take n s) s ≡ true
unfolding starts_with
starts_with-take zero s = refl
starts_with-take (suc n) [] = refl
starts_with-take (suc n) (c ∷ s) = ground (arith, starts_with-take n s)

starts_with_refl : (s : Text) → starts_with s s ≡ true
unfolding starts_with
starts_with_refl [] = refl
starts_with_refl (c ∷ s) = ground (arith, starts_with_refl s)

length_of_starts_with : (p s : Text) → starts_with p s ≡ true → length p ≤ length s
unfolding starts_with
length_of_starts_with [] s h = omega arith
length_of_starts_with (c ∷ p) [] h = cc
length_of_starts_with (c ∷ p) (d ∷ s) h = ground (arith, length_of_starts_with p s)

take_all : (n : ℕ) (s : Text) → length s ≤ n → take n s ≡ s
take_all zero [] h = refl
take_all zero (c ∷ s) h = absurd (omega arith)
take_all (suc n) [] h = refl
take_all (suc n) (c ∷ s) h = ap (c ∷◌) (take_all n s (omega arith))

-- A drain step reveals between 8 and 64 code units.
calculate_drain_size_bounds : (n : ℕ) → (8 ≤ calculate_drain_size n) × (calculate_drain_size n ≤ 64)
unfolding calculate_drain_size
calculate_drain_size_bounds n = ground arith

-- A tick, on the prefix branch and on the other.
drain-prefix :
    (received displayed : Text)
    → starts_with displayed received ≡ true
    → drain_streaming_text received displayed ≡ record {
      displayed_text =
          take
            (min
              (length received)
              (length displayed + calculate_drain_size (length received - length displayed)))
            received;
      pending_length =
          length received
          - min
              (length received)
              (length displayed + calculate_drain_size (length received - length displayed));
    }
unfolding drain_streaming_text
drain-prefix received displayed h = rw h

drain-reset :
    (received displayed : Text)
    → starts_with displayed received ≡ false
    → drain_streaming_text received displayed
      ≡ record { displayed_text = received; pending_length = 0 }
unfolding drain_streaming_text
drain-reset received displayed h = rw h

-- Whatever was shown before, after a tick a prefix of the received text is shown, and the number
-- that is returned is the length of the rest.
drain-starts_with :
    (received displayed : Text)
    → (starts_with (drain_streaming_text received displayed).displayed_text received ≡ true)
      × (length (drain_streaming_text received displayed).displayed_text
            + (drain_streaming_text received displayed).pending_length
          ≡ length received)
drain-starts_with received displayed = elim (Bool-cases (starts_with displayed received)) [
  | inl old ↦
      rw (drain-prefix received displayed old)
        (starts_with-take _ received, omega (arith, length-take _ received))
  | inr other ↦ rw (drain-reset received displayed other) (starts_with_refl received, omega arith)
]

-- While the shown text is a prefix of the received one, a tick shows at least 8 and at most 64 more
-- code units, or all of the text.
drain_progress :
    (received displayed : Text)
    → starts_with displayed received ≡ true
    → (min (length received) (length displayed + 8)
        ≤ length (drain_streaming_text received displayed).displayed_text)
      × (length (drain_streaming_text received displayed).displayed_text ≤ length displayed + 64)
drain_progress received displayed h =
    let bounds = calculate_drain_size_bounds (length received - length displayed) in
    rw (drain-prefix received displayed h)
      (omega (arith, length-take _ received), omega (arith, length-take _ received))

-- `n` ticks of the timer while no more text arrives.
pub ticks : ℕ → Text → Text → Text
ticks zero received displayed = displayed
ticks (suc n) received displayed =
    (drain_streaming_text received (ticks n received displayed)).displayed_text

ticks-starts_with :
    (n : ℕ) (received displayed : Text)
    → starts_with (ticks (suc n) received displayed) received ≡ true
unfolding ticks
ticks-starts_with n received displayed = (drain-starts_with received (ticks n received displayed)).0

-- The first tick shows 8 code units or all, also where it starts anew.
first_tick :
    (received displayed : Text)
    → min (length received) 8 ≤ length (drain_streaming_text received displayed).displayed_text
first_tick received displayed = elim (Bool-cases (starts_with displayed received)) [
  | inl old ↦ omega (arith, (drain_progress received displayed old).0)
  | inr other ↦ rw (drain-reset received displayed other) (omega arith)
]

ticks-length :
    (n : ℕ) (received displayed : Text)
    → min (length received) (8 * suc n) ≤ length (ticks (suc n) received displayed)
unfolding ticks
ticks-length zero received displayed = omega (arith, first_tick received displayed)
ticks-length (suc n) received displayed =
    let shown = ticks (suc n) received displayed in
    omega (
      arith,
      ticks-length n received displayed,
      (drain_progress received shown (ticks-starts_with n received displayed)).0,
    )

eq_of_starts_with : (p s : Text) → starts_with p s ≡ true → length s ≤ length p → p ≡ s
unfolding starts_with
eq_of_starts_with [] [] h l = refl
eq_of_starts_with [] (d ∷ s) h l = absurd (omega arith)
eq_of_starts_with (c ∷ p) [] h l = cc
eq_of_starts_with (c ∷ p) (d ∷ s) h l = ground (arith, eq_of_starts_with p s)

-- One tick for each 8 code units of the text shows all of it, whatever was shown before.
ticks_complete :
    (n : ℕ) (received displayed : Text)
    → length received ≤ 8 * suc n
    → ticks (suc n) received displayed ≡ received
ticks_complete n received displayed h =
    eq_of_starts_with (ticks (suc n) received displayed) received
      (ticks-starts_with n received displayed) (omega (arith, ticks-length n received displayed))

-- If the run has a terminal status, its response is complete, as it is for every settled run, and
-- the received text has at most `8 * (n + 1)` characters, then the tick after the first `n`
-- releases the active message, whatever was displayed before.
pub release_of_ended :
    (s : AgentRunState) (displayed : Text) (n : ℕ)
    → is_terminal_status s.status ≡ true
    → IsSettled s
    → length s.received_text ≤ 8 * suc n
    → should_release_active_message s.status s.response_completed
        (drain_streaming_text s.received_text (ticks n s.received_text displayed)).pending_length
      ≡ true
unfolding should_release_active_message ticks
release_of_ended s displayed n ended settled h =
    let shown = ticks n s.received_text displayed in
    let all : length (ticks (suc n) s.received_text displayed) ≡ length s.received_text =
      ap length (ticks_complete n s.received_text displayed h) in
    let none_left : (drain_streaming_text s.received_text shown).pending_length ≡ 0 =
      omega (arith, (drain-starts_with s.received_text shown).1) in
    rw (ended, settled ended, none_left)

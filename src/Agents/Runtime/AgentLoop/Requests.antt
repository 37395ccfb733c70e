-- ===== src/Agents/Runtime/AgentLoop/Requests.antt =====
-- The requests that a run sends, one after another.
use analysis_engine_service.Prelude.{
  ℕ, zero, suc, ◌+◌, ◌≤◌, ◌<◌, ◌≡◌, refl, String, Bool, true, false, Option, some, List, [], ◌∷◌,
  if◌then◌else◌, ltb, length, All, Bool-cases, ltb→lt, arith, inl, inr,
}
use analysis_engine_service.Prelude.Floats.{Floats}
use analysis_engine_service.Agents.Runtime.Provider.{ToolCall, CompletionRequest, Reply, ModelPrice}
use analysis_engine_service.Agents.Runtime.AgentLoop.{
  AgentBudget, AgentRun, LoopState, Round, stop, next, request_of, is_over, is_forced, take_reply,
  play, loop, start, run_agent,
}
use analysis_engine_service.Agents.Runtime.AgentLoop.Rounds.{
  measure, After, IsBounded, EndsBounded, play-After,
}

module _ (F : Floats) {T : Type 0} (budget : AgentBudget F) (price : Option (ModelPrice F))
    (final_tool : String) (read : String → Option T × String) (execute : ToolCall → String)
    (slow : ℕ → Bool) (reply : ℕ → CompletionRequest → Reply) where
  abbrev count_round : LoopState F T → LoopState F T
  count_round s = record s { round_number = s.round_number + 1 }

  abbrev play_round : LoopState F T → Round F T
  play_round s = play F budget price final_tool read execute slow reply (count_round s)

  abbrev over : LoopState F T → Bool
  over s = is_over F budget price final_tool read execute slow reply s.run

  -- The request of the round after the state, with the round's number.
  abbrev sent : LoopState F T → ℕ × CompletionRequest
  sent s =
      let s' = count_round s in
      (
        s'.round_number,
        request_of F budget price final_tool read execute slow reply s'
            (is_forced F budget price final_tool read execute slow reply s'),
      )

  -- The round is what the loop makes of the reply to that request.
  abbrev IsTurn : LoopState F T → Type 0
  IsTurn s =
      play_round s
      ≡ take_reply F budget price final_tool read execute slow reply (count_round s)
          (is_forced F budget price final_tool read execute slow reply (count_round s))
          (reply (sent s).0 (sent s).1)

  -- The requests that the provider is sent from a state on, answered or not, until the run ends; a
  -- round over the cost cap sends none.
  pub data Sends : LoopState F T → List (ℕ × CompletionRequest) → AgentRun F T → Type 0 where
    out : {s : LoopState F T} → ltb s.round_number s.last_round ≡ false → Sends s [] s.run
    capped :
        {s : LoopState F T} {run : AgentRun F T}
        → ltb s.round_number s.last_round ≡ true
        → over s ≡ true
        → play_round s ≡ stop run
        → Sends s [] run
    last :
        {s : LoopState F T} {run : AgentRun F T}
        → ltb s.round_number s.last_round ≡ true
        → over s ≡ false
        → IsTurn s
        → play_round s ≡ stop run
        → Sends s (sent s ∷ []) run
    more :
        {s s' : LoopState F T} {rs : List (ℕ × CompletionRequest)} {run : AgentRun F T}
        → ltb s.round_number s.last_round ≡ true
        → over s ≡ false
        → IsTurn s
        → play_round s ≡ next s'
        → Sends s' rs run
        → Sends s (sent s ∷ rs) run

  -- A request of the last rounds makes the model call the final tool.
  abbrev pub IsForcedLate : ℕ × CompletionRequest → Type 0
  IsForcedLate (n, q) = budget.max_rounds ≤ n → q.forced_tool ≡ some final_tool

  sent-IsForcedLate : (s : LoopState F T) → IsForcedLate (sent s)
  sent-IsForcedLate s h = ground arith

  abbrev Bounded : LoopState F T → Type 0
  Bounded = IsBounded F budget price final_tool read execute slow reply

  abbrev Ends : AgentRun F T → Type 0
  Ends = EndsBounded F budget price final_tool read execute slow reply

  abbrev run_loop : ℕ → LoopState F T → Option (AgentRun F T)
  run_loop = loop F budget price final_tool read execute slow reply

  -- How a run ends: with the requests sent from the state on, which are few and forced at last.
  abbrev IsSent : LoopState F T → Option (AgentRun F T) → Type 0
  IsSent s o =
      (run : AgentRun F T) × (rs : List (ℕ × CompletionRequest)) × (o ≡ some run)
      × Sends s rs run
      × (length rs ≤ measure s)
      × All IsForcedLate rs

  over-stop : (s s' : LoopState F T) → over s ≡ true → play_round s ≡ next s' → ⊥
  unfolding play
  over-stop s s' h e = ground (arith, h, e)

  under-IsTurn : (s : LoopState F T) → over s ≡ false → IsTurn s
  unfolding play
  under-IsTurn s h = rw h refl

  loop-IsSent :
      (fuel : ℕ) (s : LoopState F T) → measure s < fuel → Bounded s → IsSent s (run_loop fuel s)
  unfolding loop
  loop-IsSent zero s h b = absurd (omega arith)
  loop-IsSent (suc fuel) s h b = elim (Bool-cases (ltb s.round_number s.last_round)) [
    | inr finished ↦ (s.run, [], rw finished, out finished, omega arith, tt)
    | inl going ↦
        at (play_round s) refl
          (play-After F budget price final_tool read execute slow reply s b (ltb→lt _ _ going))
          going (λ s'. loop-IsSent fuel s')
  ]
    where
      at :
          (r : Round F T)
          → play_round s ≡ r
          → After Bounded Ends (measure s) r
          → ltb s.round_number s.last_round ≡ true
          → ((s' : LoopState F T) → measure s' < fuel → Bounded s' → IsSent s' (run_loop fuel s'))
          → IsSent s (
              if ltb s.round_number s.last_round
              then elim r [ stop run' ↦ some run' | next s' ↦ run_loop fuel s' ]
              else some s.run)
      at (stop run) e a going ih = elim (Bool-cases (over s)) [
        | inl o ↦ (run, [], rw going, capped going o e, omega arith, tt)
        | inr o ↦ (
          run,
          sent s ∷ [],
          rw going,
          last going o (under-IsTurn s o) e,
          omega (arith, ltb→lt _ _ going),
          (sent-IsForcedLate s, tt),
        )
      ]
      at (next s') e (b', less) going ih = elim (Bool-cases (over s)) [
        | inl o ↦ absurd (over-stop s s' o e)
        | inr o ↦
            let (run, rs, q, sends, few, forced) = ih s' (omega arith) b' in
            (
              run,
              sent s ∷ rs,
              rw going q,
              more going o (under-IsTurn s o) e sends,
              omega arith,
              (sent-IsForcedLate s, forced),
            )
      ]

  -- The run ends, whatever the provider and the tools do: `max_rounds + 2` rounds of fuel are enough.
  -- It sends at most one request more than `max_rounds`, those that fail or are not answered in time
  -- among them, and every request of a round from `max_rounds` on makes the model call the final tool.
  pub run_agent-Sends :
      (content : String)
      → (run : AgentRun F T) × (rs : List (ℕ × CompletionRequest)) × (run_agent F budget price
            final_tool read execute slow reply content
          ≡ some run)
        × Sends (start F budget price final_tool read execute slow reply content) rs run
        × (length rs ≤ budget.max_rounds + 1)
        × All IsForcedLate rs
  unfolding run_agent
  run_agent-Sends content =
      let (run, rs, q, sends, few, forced) =
        loop-IsSent (budget.max_rounds + 2)
          (start F budget price final_tool read execute slow reply content) (omega arith)
          (record {
            traced = omega arith;
            last = omega arith;
            within = omega arith;
            forced = tt;
          }) in
      (run, rs, q, sends, omega (arith, few), forced)

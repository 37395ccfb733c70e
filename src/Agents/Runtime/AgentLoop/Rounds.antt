-- ===== src/Agents/Runtime/AgentLoop/Rounds.antt =====
-- The loop ends, within its rounds, and the last round is forced.
use analysis_engine_service.Prelude.{
  ℕ, zero, suc, ◌+◌, ◌-◌, ◌≤◌, ◌<◌, ◌≡◌, String, Bool, true, Option, none, some, List, [], ◌∷◌,
  if◌then◌else◌, ltb, filter, length, length-append, All, All-append, Bool-cases, ltb→lt, arith,
  inl, inr,
}
use analysis_engine_service.Prelude.Floats.{Floats}
use analysis_engine_service.Agents.Runtime.Provider.{
  ToolCall, CompletionRequest, Completion, Reply, completed, failed, timed_out, ModelPrice,
}
use analysis_engine_service.Agents.Runtime.AgentLoop.{
  AgentBudget, CallTrace, AgentRun, LoopState, Round, stop, next, trace_of, request_of, record_call,
  is_final, is_over, is_forced, reject, explore, take_answer, take_calls, take_refusal, take_reply,
  answered, play, loop, refusal_of,
}

-- How many rounds may still come: those left, and one if a repair is still possible.
abbrev pub measure : {F : Floats} {T : Type 0} → LoopState F T → ℕ
measure s = (s.last_round - s.round_number) + (if s.repair_used then 0 else 1)

-- A round ends in a run that satisfies `Q`, or in a state that satisfies `P` and is below `m`.
abbrev pub After :
    {F : Floats} {T : Type 0}
    → (LoopState F T → Type 0)
    → (AgentRun F T → Type 0)
    → ℕ
    → Round F T
    → Type 0
After P Q m (stop run) = Q run
After P Q m (next s) = P s × (measure s < m)

module _ (F : Floats) {T : Type 0} (budget : AgentBudget F) (price : Option (ModelPrice F))
    (final_tool : String) (read : String → Option T × String) (execute : ToolCall → String)
    (slow : ℕ → Bool) (reply : ℕ → CompletionRequest → Reply) where
  abbrev play' : LoopState F T → Round F T
  play' = play F budget price final_tool read execute slow reply

  abbrev pub run_loop : ℕ → LoopState F T → Option (AgentRun F T)
  run_loop = loop F budget price final_tool read execute slow reply

  -- The induction on the loop: with enough fuel it ends, and what each round keeps holds.
  pub loop_ind :
      (P : LoopState F T → Type 0) (Q : AgentRun F T → Type 0)
      → ((s : LoopState F T) → P s → Q s.run)
      → ((s : LoopState F T)
          → P s
          → s.round_number < s.last_round
          → After P Q (measure s) (play' (record s { round_number = s.round_number + 1 })))
      → (fuel : ℕ) (s : LoopState F T) → measure s < fuel
      → P s
      → (run : AgentRun F T) × (run_loop fuel s ≡ some run) × Q run
  unfolding loop
  loop_ind P Q out step zero s h p = absurd (omega arith)
  loop_ind P Q out step (suc fuel) s h p = elim (Bool-cases (ltb s.round_number s.last_round)) [
    | inr over ↦ (s.run, rw over, out s p)
    | inl more ↦
        at (play' (record s { round_number = s.round_number + 1 })) (step s p (ltb→lt _ _ more))
          more (λ s'. loop_ind P Q out step fuel s')
  ]
    where
      at :
          (r : Round F T)
          → After P Q (measure s) r
          → ltb s.round_number s.last_round ≡ true
          → ((s' : LoopState F T)
              → measure s' < fuel
              → P s'
              → (run : AgentRun F T) × (run_loop fuel s' ≡ some run) × Q run)
          → (run : AgentRun F T) × ((if ltb s.round_number s.last_round
                then elim r [ stop run' ↦ some run' | next s' ↦ run_loop fuel s' ]
                else some s.run)
              ≡ some run)
            × Q run
      at (stop run) a more ih = (run, rw more, a)
      at (next s') (p', less) more ih =
          let (run, e, q) = ih s' (omega arith) p' in (run, rw more e, q)

  -- What a round keeps: at most one traced call for each round, the calls of the last rounds
  -- forced, and one round more than `max_rounds` only for a repair.
  pub record IsBounded (s : LoopState F T) : Type 0 where
    pub traced : length s.run.calls ≤ s.round_number
    pub last : s.last_round ≤ budget.max_rounds + (if s.repair_used then 1 else 0)
    pub within : s.round_number ≤ s.last_round
    pub forced : All (λ t. budget.max_rounds ≤ t.round → t.forced_final ≡ true) s.run.calls

  -- What holds of the run when the loop ends.
  abbrev pub EndsBounded : AgentRun F T → Type 0
  EndsBounded run =
      (length run.calls ≤ budget.max_rounds + 1)
      × All (λ t. budget.max_rounds ≤ t.round → t.forced_final ≡ true) run.calls

  -- The state after a completion was recorded, in a round that was counted.
  abbrev AfterCall : LoopState F T → Type 0
  AfterCall s =
      (length s.run.calls ≤ s.round_number)
      × (s.round_number ≤ s.last_round)
      × (s.last_round ≤ budget.max_rounds + (if s.repair_used then 1 else 0))
      × All (λ t. budget.max_rounds ≤ t.round → t.forced_final ≡ true) s.run.calls

  reject-After :
      (s : LoopState F T) (c : Completion) (message : String) (m : ℕ)
      → AfterCall s
      → measure s + 1 ≤ m
      → After IsBounded EndsBounded m
          (reject F budget price final_tool read execute slow reply s c message)
  unfolding reject
  reject-After s c message m (traced, within, last, forced) h = elim (Bool-cases s.repair_used) [
    | inl used ↦ rw used (ground arith, forced)
    | inr fresh ↦ rw fresh (
      record { traced = traced; last = ground arith; within = omega arith; forced = forced },
      ground arith,
    )
  ]

  explore-After :
      (s : LoopState F T) (calls : List ToolCall) (m : ℕ)
      → AfterCall s
      → measure s + 1 ≤ m
      → After IsBounded EndsBounded m
          (explore F budget price final_tool read execute slow reply s calls)
  unfolding explore
  explore-After s [] m (traced, within, last, forced) h =
      (record { traced = traced; last = last; within = within; forced = forced }, omega arith)
  explore-After s (c ∷ cs) m (traced, within, last, forced) h =
      elim (Bool-cases (slow s.round_number)) [
        | inl late ↦ rw late (ground arith, forced)
        | inr soon ↦
            rw soon (
              record { traced = traced; last = last; within = within; forced = forced },
              omega arith,
            )
      ]

  take_calls-After :
      (s : LoopState F T) (c : Completion) (finals : List ToolCall) (m : ℕ)
      → AfterCall s
      → measure s + 1 ≤ m
      → After IsBounded EndsBounded m
          (take_calls F budget price final_tool read execute slow reply s c finals)
  unfolding take_calls
  take_calls-After s c [] m a h = explore-After s c.tool_calls m a h
  take_calls-After s c (answer ∷ _) m a h = at (read answer.arguments)
    where
      at :
          (r : Option T × String)
          → After IsBounded EndsBounded m
              (take_answer F budget price final_tool read execute slow reply s c r)
      at (some value, _) = unfold take_answer in (ground arith, a.3)
      at (none, message) = unfold take_answer in reject-After s c message m a h

  take_refusal-After :
      (s : LoopState F T) (c : Completion) (o : Option String) (m : ℕ)
      → AfterCall s
      → measure s + 1 ≤ m
      → After IsBounded EndsBounded m
          (take_refusal F budget price final_tool read execute slow reply s c o)
  unfolding take_refusal
  take_refusal-After s c none m a h =
      take_calls-After s c
        (filter (is_final F budget price final_tool read execute slow reply) c.tool_calls) m a h
  take_refusal-After s c (some words) m a h = (ground arith, a.3)

  pub play-After :
      (s : LoopState F T)
      → IsBounded s
      → s.round_number < s.last_round
      → After IsBounded EndsBounded
          (measure s)
          (play' (record s { round_number = s.round_number + 1 }))
  unfolding play
  play-After s b more =
      elim (Bool-cases (is_over F budget price final_tool read execute slow reply s.run)) [
        | inl over ↦ rw over ends
        | inr fine ↦ rw fine (
            at (
              reply (s.round_number + 1)
                (request_of F budget price final_tool read execute slow reply s' forced)))
      ]
    where
      s' : LoopState F T
      s' = record s { round_number = s.round_number + 1 }

      forced : Bool
      forced = is_forced F budget price final_tool read execute slow reply s'

      ends : EndsBounded s.run
      ends = (ground (arith, b.traced, b.within, b.last), b.forced)

      trace : Completion → CallTrace F
      trace c =
          trace_of F budget price final_tool read execute slow reply (s.round_number + 1) c forced

      late : budget.max_rounds ≤ s.round_number + 1 → forced ≡ true
      late h = ground arith

      at :
          (r : Reply)
          → After IsBounded EndsBounded
              (measure s)
              (take_reply F budget price final_tool read execute slow reply s' forced r)
      at timed_out = unfold take_reply in ends
      at (failed words) = unfold take_reply in ends
      at (completed c) =
          unfold take_reply answered record_call in
          take_refusal-After
            (answered F budget price final_tool read execute slow reply s' forced c) c
            (refusal_of c.refusal) (measure s)
            (
              omega (arith, length-append s.run.calls (trace c ∷ []), b.traced),
              omega arith,
              b.last,
              All-append (λ t. budget.max_rounds ≤ t.round → t.forced_final ≡ true) s.run.calls
                  (trace c ∷ []) b.forced (late, tt),
            )
            (omega arith)

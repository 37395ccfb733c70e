-- ===== src/Agents/Runtime/AgentLoop/Accounts.antt =====
-- What a run reports of itself: its usage and cost, and whether it has an answer.
use analysis_engine_service.Prelude.{
  ℕ, ◌+◌, sum_of, map, ◌≡◌, refl, sym, ap, ◌∙◌, String, Bool, true, false, Bool-cases, inl, inr,
  Option, none, some, is_some, List, [], ◌∷◌, ◌++◌, filter, arith,
}
use analysis_engine_service.Prelude.Floats.{Floats}
use analysis_engine_service.Agents.Runtime.Provider.{
  ToolCall, Usage, add_usage, CompletionRequest, Completion, Reply, completed, failed, timed_out,
  ModelPrice,
}
use analysis_engine_service.Agents.Runtime.AgentLoop.Rounds.{
  IsBounded, EndsBounded, measure, After, loop_ind, play-After,
}
use analysis_engine_service.Agents.Runtime.AgentLoop.{
  StopReason, submitted, budget_exhausted, AgentBudget, CallTrace, AgentRun, LoopState, Round, stop,
  next, add_cost, trace_of, record_call, is_final, is_over, is_forced, request_of, reject, explore,
  take_answer, take_calls, take_refusal, take_reply, answered, play, start, run_agent, refusal_of,
}

abbrev pub is_submitted : StopReason → Bool
is_submitted r = elim r [ submitted ↦ true | _ ↦ false ]

-- The number of tokens of one kind in all the calls.
abbrev pub tokens : {F : Floats} → (Usage → ℕ) → List (CallTrace F) → ℕ
tokens kind ts = sum_of (λ t. kind t.usage) ts

-- Each number of a usage is the sum of that number over the calls.
pub record IsTotal {F : Floats} (u : Usage) (ts : List (CallTrace F)) : Type 0 where
  pub input : u.input_tokens ≡ tokens (λ v. v.input_tokens) ts
  pub cached : u.cached_tokens ≡ tokens (λ v. v.cached_tokens) ts
  pub cache_write : u.cache_write_tokens ≡ tokens (λ v. v.cache_write_tokens) ts
  pub output : u.output_tokens ≡ tokens (λ v. v.output_tokens) ts
  pub reasoning : u.reasoning_tokens ≡ tokens (λ v. v.reasoning_tokens) ts

sum_of-append :
    {A : Type 0} (f : A → ℕ) (xs : List A) (x : A) → sum_of f (xs ++ x ∷ []) ≡ sum_of f xs + f x
sum_of-append f [] x = omega arith
sum_of-append f (y ∷ xs) x = omega (arith, sum_of-append f xs x)

IsTotal-append :
    {F : Floats} (u : Usage) (ts : List (CallTrace F)) (t : CallTrace F)
    → IsTotal u ts
    → IsTotal (add_usage u t.usage) (ts ++ t ∷ [])
unfolding add_usage
IsTotal-append u ts t h = record {
  input = omega (arith, h.input, sum_of-append (λ t. t.usage.input_tokens) ts t);
  cached = omega (arith, h.cached, sum_of-append (λ t. t.usage.cached_tokens) ts t);
  cache_write = omega (arith, h.cache_write, sum_of-append (λ t. t.usage.cache_write_tokens) ts t);
  output = omega (arith, h.output, sum_of-append (λ t. t.usage.output_tokens) ts t);
  reasoning = omega (arith, h.reasoning, sum_of-append (λ t. t.usage.reasoning_tokens) ts t);
}

module _ (F : Floats) where
  -- The costs of some calls added up from `sum` on, in their order; one that is not known makes the
  -- sum unknown.
  abbrev pub total_cost : F.Float → List (Option (F.Float)) → Option (F.Float)
  total_cost sum [] = some sum
  total_cost sum (none ∷ cs) = none
  total_cost sum (some c ∷ cs) = total_cost (F.add sum c) cs

  total_cost-append :
      (sum : F.Float) (cs : List (Option (F.Float))) (c : Option (F.Float))
      → total_cost sum (cs ++ c ∷ []) ≡ add_cost F (total_cost sum cs) c
  unfolding add_cost
  total_cost-append sum [] none = refl
  total_cost-append sum [] (some c) = refl
  total_cost-append sum (none ∷ cs) none = refl
  total_cost-append sum (none ∷ cs) (some c) = refl
  total_cost-append sum (some x ∷ cs) c = total_cost-append (F.add sum x) cs c

  map-append :
      (ts : List (CallTrace F)) (t : CallTrace F)
      → map (λ (t : CallTrace F). t.cost_usd) (ts ++ t ∷ [])
        ≡ map (λ (t : CallTrace F). t.cost_usd) ts ++ t.cost_usd ∷ []
  map-append [] t = refl
  map-append (x ∷ ts) t = ap (λ cs. x.cost_usd ∷ cs) (map-append ts t)

  abbrev pub IsSummed : {T : Type 0} → AgentRun F T → Type 0
  IsSummed run =
      IsTotal run.usage run.calls
      × (run.cost_usd ≡ total_cost (F.of_ℕ 0) (map (λ (t : CallTrace F). t.cost_usd) run.calls))

  -- What holds of a run that ended: its sums are right, and it has an answer exactly if it says so.
  abbrev pub IsAccounted : {T : Type 0} → AgentRun F T → Type 0
  IsAccounted run = IsSummed run × (is_submitted run.stop_reason ≡ is_some run.output)

  -- What holds while it goes on.
  abbrev IsOpen : {T : Type 0} → AgentRun F T → Type 0
  IsOpen run = IsSummed run × (run.output ≡ none) × (run.stop_reason ≡ budget_exhausted)

module _ (F : Floats) {T : Type 0} (budget : AgentBudget F) (price : Option (ModelPrice F))
    (final_tool : String) (read : String → Option T × String) (execute : ToolCall → String)
    (slow : ℕ → Bool) (reply : ℕ → CompletionRequest → Reply) where
  -- A round ends with accounts in order, or goes on with them.
  abbrev Kept : Round F T → Type 0
  Kept (stop run) = IsAccounted F run
  Kept (next s) = IsOpen F s.run

  take_calls-Kept :
      (s : LoopState F T) (c : Completion) (finals : List ToolCall)
      → IsOpen F s.run
      → Kept (take_calls F budget price final_tool read execute slow reply s c finals)
  unfolding take_calls
  take_calls-Kept s c [] h = explored c.tool_calls
    where
      explored :
          (calls : List ToolCall)
          → Kept (explore F budget price final_tool read execute slow reply s calls)
      explored [] = unfold explore in h
      explored (x ∷ xs) =
          unfold explore in
          elim (Bool-cases (slow s.round_number)) [
            | inl late ↦ rw late ((h.0.0, h.0.1), ground arith)
            | inr soon ↦ rw soon h
          ]
  take_calls-Kept s c (answer ∷ _) h = at (read answer.arguments)
    where
      at :
          (r : Option T × String)
          → Kept (take_answer F budget price final_tool read execute slow reply s c r)
      at (some value, _) = unfold take_answer in (h.0, refl)
      at (none, message) =
          unfold take_answer reject in
          elim (Bool-cases s.repair_used) [
            | inl used ↦ rw used (h.0, ground arith)
            | inr fresh ↦ rw fresh h
          ]

  play-Kept :
      (s : LoopState F T)
      → IsOpen F s.run
      → Kept (play F budget price final_tool read execute slow reply s)
  unfolding play
  play-Kept s h =
      elim (Bool-cases (is_over F budget price final_tool read execute slow reply s.run)) [
        | inl over ↦ rw over (h.0, ground arith)
        | inr fine ↦ rw fine (
            replied (
              reply s.round_number
                (request_of F budget price final_tool read execute slow reply s forced)))
      ]
    where
      forced : Bool
      forced = is_forced F budget price final_tool read execute slow reply s

      after : Completion → LoopState F T
      after c = answered F budget price final_tool read execute slow reply s forced c

      recorded : (c : Completion) → IsOpen F (after c).run
      recorded c =
          let t =
            trace_of F budget price final_tool read execute slow reply s.round_number c forced in
          unfold answered record_call in
          (
            (
              IsTotal-append s.run.usage s.run.calls t h.0.0,
              ap (λ u. add_cost F u t.cost_usd) h.0.1
                  ∙ sym (
                      total_cost-append F (F.of_ℕ 0)
                        (map (λ (t : CallTrace F). t.cost_usd) s.run.calls) t.cost_usd)
                  ∙ sym (ap (total_cost F (F.of_ℕ 0)) (map-append F s.run.calls t)),
            ),
            h.1,
            h.2,
          )

      unless_refused :
          (c : Completion) (o : Option String)
          → Kept (take_refusal F budget price final_tool read execute slow reply (after c) c o)
      unless_refused c (some words) =
          unfold take_refusal in ((recorded c).0, ground (arith, (recorded c).1))
      unless_refused c none =
          unfold take_refusal in
          take_calls-Kept (after c) c
            (filter (is_final F budget price final_tool read execute slow reply) c.tool_calls)
            (recorded c)

      replied :
          (r : Reply)
          → Kept (take_reply F budget price final_tool read execute slow reply s forced r)
      replied timed_out = unfold take_reply in (h.0, ground arith)
      replied (failed words) = unfold take_reply in (h.0, ground arith)
      replied (completed c) = unfold take_reply in unless_refused c (refusal_of c.refusal)

  abbrev Bounded : LoopState F T → Type 0
  Bounded = IsBounded F budget price final_tool read execute slow reply

  abbrev Ends : AgentRun F T → Type 0
  Ends = EndsBounded F budget price final_tool read execute slow reply

  both :
      (m : ℕ) (r : Round F T)
      → After Bounded Ends m r
      → Kept r
      → After (λ s. Bounded s × IsOpen F s.run) (IsAccounted F) m r
  both m (stop run) a k = k
  both m (next s) a k = ((a.0, k), a.1)

  -- However a run ends, each number of its usage is the sum over the calls that it traced, and its
  -- cost is that of these calls added up in their order, unknown if that of some call is; and it has
  -- an answer exactly if it says that one was submitted.
  pub run_agent-IsAccounted :
      (content : String)
      → (run : AgentRun F T) × (run_agent F budget price final_tool read execute slow reply content
          ≡ some run)
        × IsAccounted F run
  unfolding run_agent
  run_agent-IsAccounted content =
      loop_ind F budget price final_tool read execute slow reply (λ s. Bounded s × IsOpen F s.run)
        (IsAccounted F) (λ s h. (h.1.0, ground (arith, h.1)))
        (λ s h more.
          both (measure s) _
            (play-After F budget price final_tool read execute slow reply s h.0 more)
            (play-Kept (record s { round_number = s.round_number + 1 }) h.1))
        (budget.max_rounds + 2) (start F budget price final_tool read execute slow reply content)
        (omega arith)
        (
          record { traced = omega arith; last = omega arith; within = omega arith; forced = tt },
          (
            (
              record {
                input = refl;
                cached = refl;
                cache_write = refl;
                output = refl;
                reasoning = refl;
              },
              refl,
            ),
            refl,
            refl,
          ),
        )

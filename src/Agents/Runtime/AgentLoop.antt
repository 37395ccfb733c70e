-- ===== src/Agents/Runtime/AgentLoop.antt =====
-- agents/runtime/agent_loop.py: one agent run, under its budgets.
pub mod Rounds
pub mod Requests
pub mod Conversation
pub mod Accounts
use analysis_engine_service.Prelude.{
  ℕ, zero, suc, ◌+◌, ◌-◌, String, Bool, true, false, not, ◌&&◌, ◌||◌, Option, none, some, is_some,
  List, [], ◌∷◌, ◌++◌, map, if◌then◌else◌, ltb, leb, max, filter, length, or_else, ◌==◌,
}
use Prim.Native.String.{◌++◌ as str_append}
use analysis_engine_service.Prelude.Floats.{Floats}
use analysis_engine_service.Prelude.Text.{text_take}
use analysis_engine_service.Agents.Runtime.Provider.{
  ToolCall, Usage, no_usage, add_usage, Item, user_message, tool_result, CompletionRequest,
  Completion, Reply, completed, failed, timed_out, ModelPrice, cost,
}

pub data StopReason : Type 0 where
  submitted invalid_output budget_exhausted timeout refused provider_error : StopReason

abbrev pub final_answer_reserve_tokens : ℕ
final_answer_reserve_tokens = 1500

abbrev text : String → String → String
text = str_append

-- `if completion.refusal:` is false at None and at the empty text.
abbrev pub refusal_of : Option String → Option String
refusal_of none = none
refusal_of (some words) = if words == "" then none else some words

module _ (F : Floats) where
  open F use {Float, of_ℕ, add, mul, div, lt}

  -- `max_seconds` is the bound of the timeout, which is an event here.
  pub record AgentBudget : Type 0 where
    pub max_rounds : ℕ
    pub max_output_tokens : ℕ
    pub max_cost_usd : Float

  pub record CallTrace : Type 0 where
    pub round : ℕ
    pub usage : Usage
    pub cost_usd : Option Float
    pub tool_calls : List String
    pub forced_final : Bool

  pub record AgentRun (T : Type 0) : Type 0 where
    pub output : Option T
    pub stop_reason : StopReason
    pub usage : Usage
    pub cost_usd : Option Float
    pub calls : List CallTrace
    pub error : Option String

  -- The variables of `_loop`.
  pub record LoopState (T : Type 0) : Type 0 where
    pub run : AgentRun T
    pub items : List Item
    pub force_final : Bool
    pub repair_used : Bool
    pub last_round : ℕ
    pub round_number : ℕ

  -- A round ends the run or goes on.
  pub data Round (T : Type 0) : Type 0 where
    stop : AgentRun T → Round T
    next : LoopState T → Round T

  -- `None if cost is None or total is None else total + cost`
  unfoldable pub add_cost : Option Float → Option Float → Option Float
  add_cost (some total) (some c) = some (add total c)
  add_cost _ _ = none

  -- What the run is given: `read` is `model_validate_json`, some answer or the first line of the
  -- error; `execute` runs a tool; `slow n` says that the timeout falls while the tools of round `n`
  -- run; `reply` is the provider's answer to the request of a round.
  module _ {T : Type 0} (budget : AgentBudget) (price : Option (ModelPrice F)) (final_tool : String)
      (read : String → Option T × String) (execute : ToolCall → String) (slow : ℕ → Bool)
      (reply : ℕ → CompletionRequest → Reply) where
    abbrev pub trace_of : ℕ → Completion → Bool → CallTrace
    trace_of n c forced = record {
      round = n;
      usage = c.usage;
      cost_usd = elim price [ none ↦ none | some p ↦ some (cost F p c.usage) ];
      tool_calls = map (λ (t : ToolCall). t.name) c.tool_calls;
      forced_final = forced;
    }

    -- `_record`
    unfoldable pub record_call : AgentRun T → ℕ → Completion → Bool → AgentRun T
    unfolding add_cost add_usage
    record_call run n c forced =
        let call = trace_of n c forced in
        record run {
          usage = add_usage run.usage c.usage;
          cost_usd = add_cost run.cost_usd call.cost_usd;
          calls = run.calls ++ call ∷ [];
        }

    abbrev pub is_final : ToolCall → Bool
    is_final c = c.name == final_tool

    abbrev pub spent : AgentRun T → Float
    spent run = or_else run.cost_usd (of_ℕ 0)

    -- `spent >= budget.max_cost_usd`
    abbrev pub is_over : AgentRun T → Bool
    is_over run = not (lt (spent run) budget.max_cost_usd)

    -- The tests that force the final answer in round `n`.
    abbrev pub must_answer : AgentRun T → ℕ → Bool
    must_answer run n =
        leb budget.max_rounds n
        || (ltb (budget.max_output_tokens - run.usage.output_tokens) final_answer_reserve_tokens
            || not (lt (spent run) (mul budget.max_cost_usd (div (of_ℕ 8) (of_ℕ 10)))))

    abbrev pub request_of : LoopState T → Bool → CompletionRequest
    request_of s forced = record {
      items = s.items;
      max_output_tokens =
          max (budget.max_output_tokens - s.run.usage.output_tokens) final_answer_reserve_tokens;
      forced_tool = if forced then some final_tool else none;
    }

    -- The repair: every call of the turn is answered, the rejected answer (the first final call)
    -- with the error. `call is answer` is identity, so only the first final call is meant.
    unfoldable pub repair_results : String → List ToolCall → List Item
    repair_results message [] = []
    repair_results message (c ∷ cs) =
        let others = map (λ (t : ToolCall). tool_result t.call_id "Not run: answer first.") cs in
        let later = repair_results message cs in
        if is_final c
        then tool_result c.call_id message ∷ others
        else tool_result c.call_id "Not run: answer first." ∷ later

    -- The turn after a final call whose arguments do not validate.
    unfoldable pub reject : LoopState T → Completion → String → Round T
    unfolding repair_results
    reject s c message =
        if s.repair_used
        then stop (record s.run { stop_reason = invalid_output; error = some message })
        else next (record s {
          items =
              s.items
              ++ repair_results
                  (text "Your answer failed validation: "
                    (text message (text ". Call " (text final_tool " again, corrected."))))
                  c.tool_calls;
          force_final = true;
          repair_used = true;
          last_round = max s.last_round (s.round_number + 1);
        })

    -- The turn without a final call: tools are run, or the agent is told to use the final tool.
    unfoldable pub explore : LoopState T → List ToolCall → Round T
    explore s [] = next (record s {
      items =
          s.items
          ++ user_message (text "Deliver your answer by calling " (text final_tool ".")) ∷ [];
      force_final = true;
    })
    explore s (c ∷ cs) =
        if slow s.round_number
        then stop (record s.run { stop_reason = timeout; error = some "Stopped." })
        else next (record s {
          items = s.items ++ map (λ (t : ToolCall). tool_result t.call_id (execute t)) (c ∷ cs);
        })

    -- The first final call's arguments, read.
    unfoldable pub take_answer : LoopState T → Completion → Option T × String → Round T
    unfolding reject
    take_answer s c (some value, _) =
        stop (record s.run { output = some value; stop_reason = submitted })
    take_answer s c (none, message) = reject s c message

    -- The final calls of the turn.
    unfoldable pub take_calls : LoopState T → Completion → List ToolCall → Round T
    unfolding take_answer explore
    take_calls s c [] = explore s c.tool_calls
    take_calls s c (answer ∷ _) = take_answer s c (read answer.arguments)

    unfoldable pub take_refusal : LoopState T → Completion → Option String → Round T
    unfolding take_calls
    take_refusal s c none = take_calls s c (filter is_final c.tool_calls)
    take_refusal s c (some words) =
        stop (record s.run { stop_reason = refused; error = some (text_take 300 words) })

    -- The state in which the answer of a round is looked at.
    unfoldable pub answered : LoopState T → Bool → Completion → LoopState T
    unfolding record_call
    answered s forced c = record s {
      run = record_call s.run s.round_number c forced;
      items = s.items ++ c.output_items;
      force_final = forced;
    }

    -- What the loop does with the reply to the request of a round.
    unfoldable pub take_reply : LoopState T → Bool → Reply → Round T
    unfolding take_refusal answered
    take_reply s forced timed_out =
        stop (record s.run { stop_reason = timeout; error = some "Stopped." })
    take_reply s forced (failed words) =
        stop (record s.run { stop_reason = provider_error; error = some words })
    take_reply s forced (completed c) = take_refusal (answered s forced c) c (refusal_of c.refusal)

    abbrev pub is_forced : LoopState T → Bool
    is_forced s = s.force_final || must_answer s.run s.round_number

    -- One round of `_loop`, its number already counted.
    unfoldable pub play : LoopState T → Round T
    unfolding take_reply
    play s =
        if is_over s.run
        then stop (record s.run { error = some "Cost cap reached." })
        else take_reply s (is_forced s) (reply s.round_number (request_of s (is_forced s)))

    -- `while round_number < last_round`, with fuel; none means that the fuel ran out.
    unfoldable pub loop : ℕ → LoopState T → Option (AgentRun T)
    loop zero s = none
    loop (suc fuel) s =
        if ltb s.round_number s.last_round
        then elim (play (record s { round_number = s.round_number + 1 })) [
          | stop run ↦ some run
          | next s' ↦ loop fuel s'
        ]
        else some s.run

    abbrev pub empty_run : AgentRun T
    empty_run = record {
      output = none;
      stop_reason = budget_exhausted;
      usage = no_usage;
      cost_usd = some (of_ℕ 0);
      calls = [];
      error = none;
    }

    abbrev pub start : String → LoopState T
    start content = record {
      run = empty_run;
      items = user_message content ∷ [];
      force_final = false;
      repair_used = false;
      last_round = budget.max_rounds;
      round_number = 0;
    }

    -- `run_agent`: each round but a repair counts against `max_rounds`.
    unfoldable pub run_agent : String → Option (AgentRun T)
    unfolding loop play
    run_agent content = loop (budget.max_rounds + 2) (start content)

-- ===== src/Tests/Runs.antt =====
-- Runs of an agent: one that answers at once, and one that never answers rightly.
use analysis_engine_service.Prelude.{
  ℕ, ◌≤◌, length, All, ◌≡◌, refl, String, Bool, false, Option, none, some, List, [], ◌∷◌, map,
  arith,
}
use analysis_engine_service.Agents.Runtime.Provider.{
  ToolCall, Item, user_message, tool_result, no_usage, CompletionRequest, Reply, completed,
}
use analysis_engine_service.Agents.Runtime.AgentLoop.{
  AgentBudget, CallTrace, AgentRun, play, start, run_agent,
}
use analysis_engine_service.Agents.Runtime.AgentLoop.Requests.{Sends, IsForcedLate, run_agent-Sends}
use analysis_engine_service.Agents.Runtime.AgentLoop.Conversation.{
  Dialogue, here, round, Reaches-Dialogue,
}
use analysis_engine_service.Agents.Runtime.AgentLoop.Accounts.{IsAccounted, run_agent-IsAccounted}
use analysis_engine_service.Tests.Samples.{whole}

abbrev budget : AgentBudget whole
budget = record { max_rounds = 2; max_output_tokens = 9000; max_cost_usd = 100 }

-- The model submits "no" whenever it is asked.
abbrev answer : ℕ → CompletionRequest → Reply
answer n request = completed (record {
  tool_calls = record { call_id = "1"; name = "submit"; arguments = "no" } ∷ [];
  text = "";
  usage = no_usage;
  output_items = [];
  refusal = none;
})

abbrev read : String → Option ℕ × String
read text = (none, "not a number")

abbrev execute : ToolCall → String
execute call = ""

abbrev never_slow : ℕ → Bool
never_slow n = false

-- The first answer is rejected, the repair is rejected too.
rounds_played :
    (run : AgentRun whole ℕ) × (run_agent whole budget none "submit" read execute never_slow answer
        "go"
      ≡ some run)
    × (map (λ (t : CallTrace whole). t.round) run.calls ≡ 1 ∷ 2 ∷ [])
unfolding run_agent
rounds_played = (_, refl, refl)

run_agent-Sends_example :
    (run : AgentRun whole ℕ) × (rs : List (ℕ × CompletionRequest)) × (run_agent whole budget none
        "submit" read execute never_slow answer "go"
      ≡ some run)
    × Sends whole budget none "submit" read execute never_slow answer
        (start whole budget none "submit" read execute never_slow answer "go")
        rs
        run
    × (length rs ≤ 3)
    × All (IsForcedLate whole budget none "submit" read execute never_slow answer) rs
run_agent-Sends_example =
    run_agent-Sends whole budget none "submit" read execute never_slow answer "go"

run_agent-IsAccounted_example :
    (run : AgentRun whole ℕ) × (run_agent whole budget none "submit" read execute never_slow answer
        "go"
      ≡ some run)
    × IsAccounted whole run
run_agent-IsAccounted_example =
    run_agent-IsAccounted whole budget none "submit" read execute never_slow answer "go"

-- What the second request carries.
abbrev after_one_round : List Item
after_one_round =
    user_message "go"
    ∷ tool_result "1" "Your answer failed validation: not a number. Call submit again, corrected."
    ∷ []

Reaches-Dialogue_example :
    Dialogue whole budget none "submit" read execute never_slow answer "go" after_one_round
unfolding play
Reaches-Dialogue_example =
    Reaches-Dialogue whole budget none "submit" read execute never_slow answer
      (round here (omega arith) refl)

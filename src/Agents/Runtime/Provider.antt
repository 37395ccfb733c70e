-- ===== src/Agents/Runtime/Provider.antt =====
-- agents/runtime/provider.py and pricing.py: what the loop exchanges with a model vendor.
use analysis_engine_service.Prelude.{ℕ, ◌+◌, ◌-◌, String, Option, none, some, List}
use analysis_engine_service.Prelude.Floats.{Floats}

pub record ToolCall : Type 0 where
  pub call_id : String
  pub name : String
  pub arguments : String

pub record Usage : Type 0 where
  pub input_tokens : ℕ
  pub cached_tokens : ℕ
  pub cache_write_tokens : ℕ
  pub output_tokens : ℕ
  pub reasoning_tokens : ℕ

abbrev pub no_usage : Usage
no_usage = record {
  input_tokens = 0;
  cached_tokens = 0;
  cache_write_tokens = 0;
  output_tokens = 0;
  reasoning_tokens = 0;
}

-- `Usage.__add__`
unfoldable pub add_usage : Usage → Usage → Usage
add_usage a b = record {
  input_tokens = a.input_tokens + b.input_tokens;
  cached_tokens = a.cached_tokens + b.cached_tokens;
  cache_write_tokens = a.cache_write_tokens + b.cache_write_tokens;
  output_tokens = a.output_tokens + b.output_tokens;
  reasoning_tokens = a.reasoning_tokens + b.reasoning_tokens;
}

-- An item of the conversation: the loop looks into none, and adds a user's text, the answer to a
-- tool call, or what the provider returned.
pub data Item : Type 0 where
  user_message : String → Item
  tool_result : String → String → Item
  output_item : String → Item

-- What changes from one request of a run to the next.
pub record CompletionRequest : Type 0 where
  pub items : List Item
  pub max_output_tokens : ℕ
  pub forced_tool : Option String

pub record Completion : Type 0 where
  pub tool_calls : List ToolCall
  pub text : String
  pub usage : Usage
  pub output_items : List Item
  pub refusal : Option String

-- What a request ends in: a completion, a `ProviderError`, or the timeout of the whole run.
pub data Reply : Type 0 where
  completed : Completion → Reply
  failed : String → Reply
  timed_out : Reply

module _ (F : Floats) where
  open F use {Float, of_ℕ, add, mul, div}

  -- USD per million tokens.
  pub record ModelPrice : Type 0 where
    pub input : Float
    pub cached_input : Float
    pub output : Float
    pub cache_write : Option Float

  -- `ModelPrice.cost`
  unfoldable pub cost : ModelPrice → Usage → Float
  cost p u =
      let write_rate : Float = elim p.cache_write [ none ↦ p.input | some w ↦ w ] in
      let uncached = u.input_tokens - u.cached_tokens - u.cache_write_tokens in
      div
        (add
          (add (add (mul (of_ℕ uncached) p.input) (mul (of_ℕ u.cached_tokens) p.cached_input))
            (mul (of_ℕ u.cache_write_tokens) write_rate))
          (mul (of_ℕ u.output_tokens) p.output))
        (of_ℕ 1000000)

-- ===== src/Agents/Runtime/AgentLoop/Conversation.antt =====
-- The conversation of a run: before each request, every tool call of the turns before is answered.
use analysis_engine_service.Prelude.{
  ℕ, ◌+◌, ◌<◌, ◌⊎◌, Pointwise, Pointwise-map, ◌≡◌, refl, sym, ap, ◌∙◌, subst, String, Bool,
  Bool-cases, inl, inr, Option, none, some, List, [], ◌∷◌, ◌++◌, filter,
}
use analysis_engine_service.Prelude.Floats.{Floats}
use analysis_engine_service.Agents.Runtime.Provider.{
  ToolCall, Item, user_message, tool_result, CompletionRequest, Completion, Reply, completed,
  failed, timed_out, ModelPrice,
}
use analysis_engine_service.Agents.Runtime.AgentLoop.{
  AgentBudget, LoopState, Round, stop, next, is_final, is_over, is_forced, request_of,
  repair_results, reject, explore, take_answer, take_calls, take_refusal, take_reply, answered,
  play, start, refusal_of,
}

-- The item is the result of the call.
abbrev pub IsResult : ToolCall → Item → Type 0
IsResult call item = (text : String) × (item ≡ tool_result call.call_id text)

-- What is added after a turn: one result for each of its calls, in their order, or, if it has no
-- call, one message.
abbrev pub AreAnswers : List ToolCall → List Item → Type 0
AreAnswers calls more =
    Pointwise IsResult calls more
    ⊎ ((calls ≡ []) × ((text : String) × (more ≡ user_message text ∷ [])))

-- `r` goes on only with the items of `s` and the answers to the calls.
abbrev Answers : {F : Floats} {T : Type 0} → LoopState F T → List ToolCall → Round F T → Type 0
Answers s calls (stop run) = Unit
Answers s calls (next s') =
    (more : List Item) × (s'.items ≡ s.items ++ more) × AreAnswers calls more

module _ (F : Floats) {T : Type 0} (budget : AgentBudget F) (price : Option (ModelPrice F))
    (final_tool : String) (read : String → Option T × String) (execute : ToolCall → String)
    (slow : ℕ → Bool) (reply : ℕ → CompletionRequest → Reply) where
  -- The items of a conversation: the first message, and for each turn what the provider returned on
  -- the request with all the items before, and then the answers to that turn.
  pub data Dialogue (content : String) : List Item → Type 0 where
    begin : Dialogue content (user_message content ∷ [])
    turn :
        {items : List Item} (n : ℕ) (q : CompletionRequest) (c : Completion) (more : List Item)
        → Dialogue content items
        → q.items ≡ items
        → reply n q ≡ completed c
        → AreAnswers c.tool_calls more
        → Dialogue content ((items ++ c.output_items) ++ more)

  repair_results-AreResults :
      (message : String) (cs : List ToolCall)
      → Pointwise IsResult cs
          (repair_results F budget price final_tool read execute slow reply message cs)
  unfolding repair_results
  repair_results-AreResults message [] = tt
  repair_results-AreResults message (c ∷ cs) =
      elim (Bool-cases (is_final F budget price final_tool read execute slow reply c)) [
        | inl final ↦
            rw final ((message, refl), Pointwise-map _ _ cs (λ t. ("Not run: answer first.", refl)))
        | inr other ↦
            rw other (("Not run: answer first.", refl), repair_results-AreResults message cs)
      ]

  take_calls-Answers :
      (s : LoopState F T) (c : Completion) (finals : List ToolCall)
      → Answers s c.tool_calls
          (take_calls F budget price final_tool read execute slow reply s c finals)
  unfolding take_calls
  take_calls-Answers s c [] = explored c.tool_calls
    where
      explored :
          (calls : List ToolCall)
          → Answers s calls (explore F budget price final_tool read execute slow reply s calls)
      explored [] = unfold explore in (_, refl, inr (refl, (_, refl)))
      explored (x ∷ xs) =
          unfold explore in
          elim (Bool-cases (slow s.round_number)) [
            | inl late ↦ rw late tt
            | inr soon ↦
                rw soon (_, refl, inl (Pointwise-map IsResult _ (x ∷ xs) (λ t. (execute t, refl))))
          ]
  take_calls-Answers s c (answer ∷ _) = at (read answer.arguments)
    where
      at :
          (r : Option T × String)
          → Answers s c.tool_calls
              (take_answer F budget price final_tool read execute slow reply s c r)
      at (some value, _) = unfold take_answer in tt
      at (none, message) =
          unfold take_answer reject in
          elim (Bool-cases s.repair_used) [
            | inl used ↦ rw used tt
            | inr fresh ↦ rw fresh (_, refl, inl (repair_results-AreResults _ c.tool_calls))
          ]

  -- The states that a run comes to, whatever is replied.
  pub data Reaches (content : String) : LoopState F T → Type 0 where
    here : Reaches content (start F budget price final_tool read execute slow reply content)
    round :
        {s s' : LoopState F T}
        → Reaches content s
        → s.round_number < s.last_round
        → play F budget price final_tool read execute slow reply
            (record s { round_number = s.round_number + 1 })
          ≡ next s'
        → Reaches content s'

  -- What a round leads to is still such a conversation.
  abbrev GoesOn : String → Round F T → Type 0
  GoesOn content (stop run) = Unit
  GoesOn content (next s) = Dialogue content s.items

  Answers→GoesOn :
      (content : String) (s : LoopState F T) (n : ℕ) (q : CompletionRequest) (c : Completion)
      (r : Round F T)
      → s.items ≡ q.items ++ c.output_items
      → Dialogue content q.items
      → reply n q ≡ completed c
      → Answers s c.tool_calls r
      → GoesOn content r
  Answers→GoesOn content s n q c (stop run) e d k a = tt
  Answers→GoesOn content s n q c (next s') e d k (more, same, answers) =
      subst (Dialogue content) (sym (same ∙ ap (λ l. l ++ more) e))
        (turn n q c more d refl k answers)

  play-GoesOn :
      (content : String) (s : LoopState F T)
      → Dialogue content s.items
      → GoesOn content (play F budget price final_tool read execute slow reply s)
  unfolding play
  play-GoesOn content s d =
      elim (Bool-cases (is_over F budget price final_tool read execute slow reply s.run)) [
        | inl over ↦ rw over tt
        | inr fine ↦ rw fine (replied (reply s.round_number request) refl)
      ]
    where
      forced : Bool
      forced = is_forced F budget price final_tool read execute slow reply s

      request : CompletionRequest
      request = request_of F budget price final_tool read execute slow reply s forced

      unless_refused :
          (c : Completion) (o : Option String)
          → reply s.round_number request ≡ completed c
          → GoesOn content (
              take_refusal F budget price final_tool read execute slow reply
                (answered F budget price final_tool read execute slow reply s forced c)
                c
                o)
      unless_refused c (some words) e = unfold take_refusal in tt
      unless_refused c none e =
          unfold take_refusal in
          Answers→GoesOn content
            (answered F budget price final_tool read execute slow reply s forced c) s.round_number
            request c _ (unfold answered in refl) d e
            (take_calls-Answers
              (answered F budget price final_tool read execute slow reply s forced c) c
              (filter (is_final F budget price final_tool read execute slow reply) c.tool_calls))

      replied :
          (r : Reply)
          → reply s.round_number request ≡ r
          → GoesOn content (take_reply F budget price final_tool read execute slow reply s forced r)
      replied timed_out e = unfold take_reply in tt
      replied (failed words) e = unfold take_reply in tt
      replied (completed c) e = unfold take_reply in unless_refused c (refusal_of c.refusal) e

  -- In every state of a run the items are the first message and its turns: what the provider returned
  -- on a request with all the items before that turn, and directly behind it one result for each of
  -- its tool calls, in their order, or a message if it made no call. So no request is sent with a call
  -- unanswered, and none leaves out an item.
  pub Reaches-Dialogue :
      {content : String} {s : LoopState F T} → Reaches content s → Dialogue content s.items
  Reaches-Dialogue here = begin
  Reaches-Dialogue {content} (round {s} {s'} r more e) =
      subst (GoesOn content) e
        (play-GoesOn content (record s { round_number = s.round_number + 1 }) (Reaches-Dialogue r))

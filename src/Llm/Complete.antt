-- ===== src/Llm/Complete.antt =====
-- What a completion promises.
use slidelens.Prelude.{
  ℕ, ◌+◌, ◌*◌, ◌≡◌, ◌≤◌, ◌<◌, refl, ◌∙◌, ap, Bool, Option, none, some, List, arith, inl, inr, ◌⊎◌,
}
use slidelens.Prelude.Exec.{Result, ok, err, continue}
use slidelens.Double.{Double}
use slidelens.Entities.{FileName}
use slidelens.Llm.{
  Text, Failure, Message, Session, Provider, Client, Usage, ModelPrice, build_messages,
  chat_with_retries, reparsed, revalidated, repaired, parsed_answer, charged, repair_prompt,
  estimate_cost_rub, add_cost, add_usage, complete, complete_read, unless_unreadable,
  first_unreadable,
}
use slidelens.Llm.Retries.{chat_with_retries_lem}

module _ {W : Type 0} ⦃d : Double W⦄ (strip : Text → Text) (provider : Provider) (max_retries : ℕ)
    (price : ModelPrice W) {A : Type 0} (structured : Bool) (parse : Text → Result Text A) where
  abbrev pub chat : List Message → Client W (Text × Usage)
  chat messages = chat_with_retries strip provider max_retries structured messages

  -- The calls made are counted, and nothing is charged yet.
  abbrev pub Calls : ℕ → Session W → Session W → Type 0
  Calls most s t = (s.calls < t.calls) × (t.calls ≤ s.calls + most) × (t.cost_rub ≡ s.cost_rub)

  chat-Calls :
      (messages : List Message) (s : Session W) → Calls (max_retries + 1) s (chat messages s).1
  chat-Calls messages s =
      let (n, le, before, last, same, calls, sleeps, cost) =
        chat_with_retries_lem strip provider structured messages max_retries s in
      (omega (arith, le, calls), omega (arith, le, calls), cost)

  module _ (repair_messages : Text → List Message) (messages : List Message) (s : Session W) where
    -- The value and the usage come from the first answer, or, if that one is not valid, from the
    -- answer to the request for a repair, and then both usages count.
    abbrev pub Answered : A → Usage → Type 0
    Answered a usage =
        ((text : Text) × ((chat messages s).0 ≡ ok (text, usage)) × (parse text ≡ ok a))
        ⊎ ((text : Text) × (usage1 : Usage) × (message : Text) × (text2 : Text) × (usage2 : Usage)
            × ((chat messages s).0 ≡ ok (text, usage1))
            × (parse text ≡ err message)
            × ((chat (repair_messages message) (chat messages s).1).0 ≡ ok (text2, usage2))
            × (parse text2 ≡ ok a)
            × (usage ≡ add_usage usage1 usage2))

    abbrev Checked : Result Failure (A × Usage) × Session W → Type 0
    Checked (err e, t) = Calls (2 * (max_retries + 1)) s t
    Checked (ok (a, usage), t) = Answered a usage × Calls (2 * (max_retries + 1)) s t

    module _ (text : Text) (usage1 : Usage) (message : Text) (t : Session W)
        (called : chat messages s ≡ (ok (text, usage1), t)) (calls : Calls (max_retries + 1) s t)
        (invalid : parse text ≡ err message) where
      calls2 : (t2 : Session W) → Calls (max_retries + 1) t t2 → Calls (2 * (max_retries + 1)) s t2
      calls2 t2 (more, most, cost) =
          let (more1, most1, cost1) = calls in
          (omega (arith, more, more1), omega (arith, most, most1), cost ∙ cost1)

      Checked-revalidated :
          (text2 : Text) (usage2 : Usage) (t2 : Session W) (r : Result Text A)
          → chat (repair_messages message) t ≡ (ok (text2, usage2), t2)
          → Calls (max_retries + 1) t t2
          → parse text2 ≡ r
          → Checked
              (revalidated strip provider max_retries price structured parse usage1 usage2 r t2)
      unfolding revalidated
      Checked-revalidated text2 usage2 t2 (ok a) e calls' valid = (
        inr (
          text,
          usage1,
          message,
          text2,
          usage2,
          ap (λ p. p.0) called,
          invalid,
          ap (λ t. (chat (repair_messages message) t).0) (ap (λ p. p.1) called) ∙ ap (λ p. p.0) e,
          valid,
          refl,
        ),
        calls2 t2 calls',
      )
      Checked-revalidated text2 usage2 t2 (err m) e calls' valid = calls2 t2 calls'

      Checked-reparsed :
          (p : Result Failure (Text × Usage) × Session W)
          → chat (repair_messages message) t ≡ p
          → Calls (max_retries + 1) t p.1
          → Checked
              (continue p.0 (reparsed strip provider max_retries price structured parse usage1) p.1)
      unfolding reparsed
      Checked-reparsed (ok (text2, usage2), t2) e calls' =
          Checked-revalidated text2 usage2 t2 (parse text2) e calls' refl
      Checked-reparsed (err x, t2) e calls' = calls2 t2 calls'

    Checked-repaired :
        (text : Text) (usage : Usage) (t : Session W) (r : Result Text A)
        → chat messages s ≡ (ok (text, usage), t)
        → Calls (max_retries + 1) s t
        → parse text ≡ r
        → Checked
            (repaired strip provider max_retries price structured parse repair_messages usage r t)
    unfolding repaired
    Checked-repaired text usage t (ok a) e (more, most, cost) valid =
        (inl (text, ap (λ p. p.0) e, valid), (more, omega (arith, most), cost))
    Checked-repaired text usage t (err message) e calls invalid =
        Checked-reparsed text usage message t e calls invalid (chat (repair_messages message) t)
          refl (chat-Calls (repair_messages message) t)

    Checked-parsed_answer :
        (p : Result Failure (Text × Usage) × Session W)
        → chat messages s ≡ p
        → Calls (max_retries + 1) s p.1
        → Checked (
            continue p.0
              (parsed_answer strip provider max_retries price structured parse repair_messages)
              p.1)
    unfolding parsed_answer
    Checked-parsed_answer (ok (text, usage), t) e calls =
        Checked-repaired text usage t (parse text) e calls refl
    Checked-parsed_answer (err x, t) e (more, most, cost) = (more, omega (arith, most), cost)

    -- After `charged`.
    abbrev pub Completed : Result Failure A × Session W → Type 0
    Completed (err e, t) = Calls (2 * (max_retries + 1)) s t
    Completed (ok a, t) =
        (usage : Usage) × Answered a usage
        × (s.calls < t.calls)
        × (t.calls ≤ s.calls + 2 * (max_retries + 1))
        × (t.cost_rub
            ≡ (add_cost (estimate_cost_rub price usage.input_tokens usage.output_tokens)
                s).cost_rub)

    completed :
        (p : Result Failure (A × Usage) × Session W)
        → Checked p
        → Completed (continue p.0 (charged strip provider max_retries price structured parse) p.1)
    unfolding charged add_cost
    completed (ok (a, usage), t) (answered, (more, most, cost)) = (
      usage,
      answered,
      more,
      most,
      ap
          (λ c.
            (add_cost (estimate_cost_rub price usage.input_tokens usage.output_tokens)
              (record s { cost_rub = c })).cost_rub)
          cost,
    )
    completed (err e, t) h = h

  complete_read_lem :
      (system prompt : Text) (images : List FileName) (s : Session W)
      → Completed
          (λ message.
            build_messages system
              (repair_prompt strip provider max_retries price structured parse prompt message)
              images)
          (build_messages system prompt images)
          s
          (complete_read strip provider max_retries price structured parse system prompt images s)
  unfolding complete_read
  complete_read_lem system prompt images s =
      let rm = (λ (message : Text).
        build_messages system
          (repair_prompt strip provider max_retries price structured parse prompt message)
          images) in
      let m = build_messages system prompt images in
      completed rm m s _ (Checked-parsed_answer rm m s (chat m s) refl (chat-Calls m s))

  -- By whether a picture cannot be read.
  abbrev pub Ended :
      Option Failure
      → Text
      → Text
      → List FileName
      → Session W
      → Result Failure A × Session W
      → Type 0
  Ended (some e) system prompt images s out = out ≡ (err e, s)
  Ended none system prompt images s out =
      Completed
        (λ message.
          build_messages system
            (repair_prompt strip provider max_retries price structured parse prompt message) images)
        (build_messages system prompt images) s out

  unless_unreadable-Ended :
      (o : Option Failure) (system prompt : Text) (images : List FileName) (s : Session W)
      → Ended o system prompt images s (
          unless_unreadable strip provider max_retries price structured parse o
            (complete_read strip provider max_retries price structured parse system prompt images)
            s)
  unfolding unless_unreadable
  unless_unreadable-Ended (some e) system prompt images s = refl
  unless_unreadable-Ended none system prompt images s = complete_read_lem system prompt images s

  -- If a picture cannot be read, a completion raises the first such exception, before any call and with
  -- nothing changed. Otherwise it calls the provider at least once and at most twice the number of
  -- attempts of a chat call. The value that it returns is the valid reading of the first answer, or else
  -- of the answer to one request for a repair that names the error; and its price, for the tokens of the
  -- answers read, is added to the context's cost. A completion that raises adds nothing to the cost.
  pub complete_lem :
      (unreadable : FileName → Option Failure) (system prompt : Text) (images : List FileName)
      (s : Session W)
      → Ended (first_unreadable unreadable images) system prompt images s (
          complete strip provider max_retries price structured parse unreadable system prompt images
            s)
  unfolding complete
  complete_lem unreadable system prompt images s =
      unless_unreadable-Ended (first_unreadable unreadable images) system prompt images s

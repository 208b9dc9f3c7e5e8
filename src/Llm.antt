-- ===== src/Llm.antt =====
-- The LLM client (backend/core/llm/client.py, config.py and utils.py). The provider is a function of
-- the call's number and its messages, the response schema a function of the text.
mod Tests
pub mod Price
pub mod Retries
pub mod Complete
pub mod Calls
use slidelens.Prelude.{
  ℕ, zero, suc, ◌+◌, ◌*◌, ◌^◌, ◌≡◌, Bool, true, false, not, ◌&&◌, ◌||◌, Option, none, some, List,
  [], ◌∷◌, ◌++◌, map, ltb, ◌==◌, if◌then◌else◌,
}
use slidelens.Prelude.Int.{ℤ, pos}
use slidelens.Prelude.Exec.{Exec, Result, ok, err, pure, raise, lift, modify, ◌>>=◌, ◌>>◌}
use slidelens.Prelude.Text.{codes, lower}
use slidelens.Double.{Double, ◌⊕◌, ◌⊗◌, ◌⊘◌, nought, max_of}
use slidelens.Entities.{FileName}
use slidelens.Ingest.{contains}

abbrev pub Text : Type 0
Text = List ℕ

-- An exception, by its `status_code` and its text.
pub record Failure : Type 0 where
  pub status_code : Option ℕ
  pub message : Text

-- A `ValueError` of the client's own.
abbrev value_error : Text → Failure
value_error message = record { status_code = none; message = message }

is_429_or_529 : Option ℕ → Bool
is_429_or_529 none = false
is_429_or_529 (some status) = status == 429 || status == 529

-- `is_rate_limit_error`
pub is_rate_limit_error : Failure → Bool
unfolding is_429_or_529
is_rate_limit_error e =
    let text = map lower e.message in
    is_429_or_529 e.status_code
    || (contains (codes "429") text
        || contains (codes "529") text
        || contains (codes "rate limit") text)

-- The message of a completion, and its usage. `parsed` is the dumped object that the SDK parsed.
pub record Completion : Type 0 where
  pub refusal : Text
  pub content : Text
  pub parsed : Option Text
  pub prompt_tokens : ℕ
  pub completion_tokens : ℕ

pub record Usage : Type 0 where
  pub input_tokens : ℕ
  pub output_tokens : ℕ

pub data Message : Type 0 where
  system_message : Text → Message
  user_message : List FileName → Text → Message

-- What the client reads and changes: the number of calls so far, the pauses, the context's cost.
pub record Session (W : Type 0) : Type 0 where
  pub calls : ℕ
  pub sleeps : List ℕ
  pub cost_rub : W

abbrev pub Provider : Type 0
Provider = ℕ → List Message → Result Failure Completion

-- The messages of `_build_messages`, the pictures once read.
pub build_messages : Text → Text → List FileName → List Message
build_messages [] prompt images = user_message images prompt ∷ []
build_messages (c ∷ system) prompt images =
    system_message (c ∷ system) ∷ user_message images prompt ∷ []

-- The text of a completion's message; `structured` asks for a parsed object.
answer_text : Bool → Completion → Result Failure Text
answer_text false reply = ok reply.content
answer_text true reply = elim (reply.refusal) [
  | c ∷ s ↦ err (value_error (codes "Model refused: " ++ c ∷ s))
  | [] ↦ elim (reply.content) [
    | c ∷ s ↦ ok (c ∷ s)
    | [] ↦ elim (reply.parsed) [ none ↦ ok [] | some dumped ↦ ok dumped ]
  ]
]

-- `image_url_part` of each picture: the first exception of a `read_bytes`.
abbrev pub first_unreadable : (FileName → Option Failure) → List FileName → Option Failure
first_unreadable unreadable [] = none
first_unreadable unreadable (image ∷ images) = elim (unreadable image) [
  | some e ↦ some e
  | none ↦ first_unreadable unreadable images
]

abbrev pub Client : Type 0 → Type 0 → Type 0
Client W A = Exec (Session W) Failure A

module _ {W : Type 0} where
  sleep : ℕ → Client W (Unit {0})
  sleep seconds s = (ok tt, record s { sleeps = s.sleeps ++ seconds ∷ [] })

  -- The `except` of an attempt that is not the last.
  after_attempt :
      ℕ → Client W (Text × Usage) → Result Failure (Text × Usage) → Client W (Text × Usage)
  unfolding sleep
  after_attempt attempt rest (ok answer) s = (ok answer, s)
  after_attempt attempt rest (err e) s =
      if is_rate_limit_error e then (sleep (2 ^ attempt) >> rest) s else (err e, s)

module _ (strip : Text → Text) where
  non_empty : Completion → Result Failure Text → Result Failure (Text × Usage)
  non_empty reply (err e) = err e
  non_empty reply (ok text) = elim (strip text) [
    | [] ↦ err (value_error (codes "Empty model response"))
    | _ ∷ _ ↦ ok (
      text,
      record { input_tokens = reply.prompt_tokens; output_tokens = reply.completion_tokens },
    )
  ]

  -- What one attempt makes of the provider's answer.
  pub read_reply : Bool → Result Failure Completion → Result Failure (Text × Usage)
  unfolding answer_text non_empty
  read_reply structured (err e) = err e
  read_reply structured (ok reply) = non_empty reply (answer_text structured reply)

  module _ {W : Type 0} (provider : Provider) where
    -- One attempt, whose outcome comes back as a value.
    attempt_call : Bool → List Message → Client W (Result Failure (Text × Usage))
    attempt_call structured messages s =
        (ok (read_reply structured (provider s.calls messages)), record s { calls = s.calls + 1 })

    -- The attempt with this number, after which `left` are left.
    chat_from : ℕ → ℕ → Bool → List Message → Client W (Text × Usage)
    unfolding attempt_call after_attempt
    chat_from zero attempt structured messages = do
      outcome ← attempt_call structured messages
      lift outcome
    chat_from (suc left) attempt structured messages =
        let rest = chat_from left (suc attempt) structured messages in
        do outcome ← attempt_call structured messages; after_attempt attempt rest outcome

    -- `_chat_with_retries`
    pub chat_with_retries : ℕ → Bool → List Message → Client W (Text × Usage)
    unfolding chat_from
    chat_with_retries max_retries structured messages = chat_from max_retries 0 structured messages

abbrev add_usage : Usage → Usage → Usage
add_usage a b = record {
  input_tokens = a.input_tokens + b.input_tokens;
  output_tokens = a.output_tokens + b.output_tokens;
}

pub record ModelPrice (W : Type 0) : Type 0 where
  pub input_rub_per_mtok : W
  pub output_rub_per_mtok : W

module _ {W : Type 0} ⦃d : Double W⦄ where
  -- `estimate_cost_rub`; the counts are never negative.
  pub estimate_cost_rub : ModelPrice W → ℕ → ℕ → W
  estimate_cost_rub price input_tokens output_tokens =
      (d.of_int (pos input_tokens) ⊗ price.input_rub_per_mtok
        ⊕ d.of_int (pos output_tokens) ⊗ price.output_rub_per_mtok)
      ⊘ d.lit 1000000 1

  -- `estimate_asr_cost_rub`
  pub estimate_asr_cost_rub : W → W → W
  unfolding max_of
  estimate_asr_cost_rub rub_per_minute duration_seconds =
      max_of nought duration_seconds ⊘ d.lit 60 1 ⊗ rub_per_minute

  -- `ReviewContext.add_cost`
  pub add_cost : W → Session W → Session W
  unfolding max_of
  add_cost amount s = record s { cost_rub = s.cost_rub ⊕ max_of nought amount }

  module _ (strip : Text → Text) (provider : Provider) (max_retries : ℕ)
      (price : ModelPrice W) where
    module _ {A : Type 0} (structured : Bool) (parse : Text → Result Text A) where
      revalidated : Usage → Usage → Result Text A → Client W (A × Usage)
      revalidated usage usage2 (ok a) s = (ok (a, add_usage usage usage2), s)
      revalidated usage usage2 (err message) s = (err (value_error message), s)

      -- The second validation, which nothing repairs.
      reparsed : Usage → Text × Usage → Client W (A × Usage)
      unfolding revalidated
      reparsed usage answer = revalidated usage answer.1 (parse answer.0)

      -- The first validation; one that fails asks for one repair.
      repaired : (Text → List Message) → Usage → Result Text A → Client W (A × Usage)
      unfolding reparsed
      repaired repair_messages usage (ok a) = pure (a, usage)
      repaired repair_messages usage (err message) =
          chat_with_retries strip provider max_retries structured (repair_messages message)
          >>= reparsed usage

      parsed_answer : (Text → List Message) → Text × Usage → Client W (A × Usage)
      unfolding repaired
      parsed_answer repair_messages answer = repaired repair_messages answer.1 (parse answer.0)

      charged : A × Usage → Client W A
      charged result s = (
        ok result.0,
        add_cost (estimate_cost_rub price result.1.input_tokens result.1.output_tokens) s,
      )

      pub repair_prompt : Text → Text → Text
      repair_prompt prompt message =
          prompt
          ++ codes "\n\nPrevious response failed validation:\n"
          ++ message
          ++ codes "\nReply with corrected JSON only."

      -- The calls of `_complete`, the pictures once read; the repair reads the same pictures again.
      pub complete_read : Text → Text → List FileName → Client W A
      unfolding parsed_answer charged repair_prompt
      complete_read system prompt images =
          (chat_with_retries strip provider max_retries structured
              (build_messages system prompt images)
            >>= parsed_answer
                (λ message. build_messages system (repair_prompt prompt message) images))
          >>= charged

      unless_unreadable : Option Failure → Client W A → Client W A
      unless_unreadable none calls s = calls s
      unless_unreadable (some e) calls s = (err e, s)

      -- `_complete`, for a schema's `parse`, or for `strip` if there is no schema. `unreadable` is what
      -- the reading of a picture raises, if it does.
      pub complete : (FileName → Option Failure) → Text → Text → List FileName → Client W A
      unfolding unless_unreadable
      complete unreadable system prompt images =
          unless_unreadable (first_unreadable unreadable images)
            (complete_read system prompt images)

    -- `complete_text`
    pub complete_text : Text → Text → Client W Text
    complete_text system prompt = complete_read false (λ text. ok (strip text)) system prompt []

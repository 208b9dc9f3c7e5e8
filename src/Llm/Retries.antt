-- ===== src/Llm/Retries.antt =====
-- What a chat call with retries does.
use slidelens.Prelude.{
  ℕ, zero, suc, ◌+◌, ◌^◌, ◌≡◌, ◌≤◌, ◌<◌, refl, ◌∙◌, sym, ap, Bool, true, false, ◌⊎◌, inl, inr, List,
  [], ◌∷◌, ◌++◌, arith, Bool-cases,
}
use mathlib.Core.List.{append-nil, append_assoc}
use slidelens.Prelude.Exec.{Result, ok, err}
use slidelens.Llm.{
  Text, Failure, is_rate_limit_error, Message, Session, Provider, Client, Usage, read_reply, sleep,
  after_attempt, attempt_call, chat_from, chat_with_retries,
}

abbrev pub rate_limited : Result Failure (Text × Usage) → Bool
rate_limited (ok answer) = false
rate_limited (err e) = is_rate_limit_error e

-- The pauses from an attempt's number on.
abbrev pub pauses : ℕ → ℕ → List ℕ
pauses attempt zero = []
pauses attempt (suc n) = 2 ^ attempt ∷ pauses (suc attempt) n

module _ {W : Type 0} (strip : Text → Text) (provider : Provider) (structured : Bool)
    (messages : List Message) where
  -- What the attempt after `n` others of this call sees.
  abbrev pub outcome : Session W → ℕ → Result Failure (Text × Usage)
  outcome s n = read_reply strip structured (provider (s.calls + n) messages)

  -- The attempts before the n-th were refused for their rate, the n-th was not or was the last one,
  -- and what it saw is the result; `left` attempts could be repeated.
  abbrev pub Ends : ℕ → ℕ → Session W → Result Failure (Text × Usage) × Session W → Type 0
  Ends left attempt s (result, t) =
      (n : ℕ) × (n ≤ left)
      × ((k : ℕ) → k < n → rate_limited (outcome s k) ≡ true)
      × ((rate_limited (outcome s n) ≡ false) ⊎ (n ≡ left))
      × (result ≡ outcome s n)
      × (t.calls ≡ s.calls + n + 1)
      × (t.sleeps ≡ s.sleeps ++ pauses attempt n)
      × (t.cost_rub ≡ s.cost_rub)

  abbrev first : Session W → Result Failure (Text × Usage)
  first s = read_reply strip structured (provider s.calls messages)

  outcome_zero : (s : Session W) → outcome s 0 ≡ first s
  outcome_zero s =
      let none_before : s.calls + 0 ≡ s.calls = omega arith in
      ap (λ i. read_reply strip structured (provider i messages)) none_before

  Ends-first :
      (left attempt : ℕ) (s : Session W) (result : Result Failure (Text × Usage))
      → outcome s 0 ≡ result
      → ((rate_limited result ≡ false) ⊎ (0 ≡ left))
      → Ends left attempt s (result, record s { calls = s.calls + 1 })
  Ends-first left attempt s result e h = (
    0,
    omega arith,
    (λ k lt. absurd (omega arith)),
    elim h [ inl h' ↦ inl (ap rate_limited e ∙ h') | inr h' ↦ inr h' ],
    sym e,
    omega arith,
    sym (append-nil s.sleeps),
    refl,
  )

  outcome_later :
      (s : Session W) (sleeps : List ℕ) (k : ℕ)
      → outcome (record s { calls = s.calls + 1; sleeps = sleeps }) k ≡ outcome s (suc k)
  outcome_later s sleeps k =
      let shifted : s.calls + 1 + k ≡ s.calls + suc k = omega arith in
      ap (λ i. read_reply strip structured (provider i messages)) shifted

  before_later :
      (s : Session W) (sleeps : List ℕ) (n : ℕ)
      → rate_limited (outcome s 0) ≡ true
      → ((k : ℕ)
          → k < n
          → rate_limited (outcome (record s { calls = s.calls + 1; sleeps = sleeps }) k) ≡ true)
      → (k : ℕ) → k < suc n
      → rate_limited (outcome s k) ≡ true
  before_later s sleeps n limited before zero lt = limited
  before_later s sleeps n limited before (suc k) lt =
      ap rate_limited (sym (outcome_later s sleeps k)) ∙ before k (omega arith)

  -- One more attempt before.
  Ends-retried :
      (left attempt : ℕ) (s : Session W) (p : Result Failure (Text × Usage) × Session W)
      → rate_limited (outcome s 0) ≡ true
      → Ends left
          (suc attempt)
          (record s { calls = s.calls + 1; sleeps = s.sleeps ++ 2 ^ attempt ∷ [] })
          p
      → Ends (suc left) attempt s p
  Ends-retried left attempt s (result, t) limited (n, le, before, last, same, calls, sleeps, cost) =
      let slept = s.sleeps ++ 2 ^ attempt ∷ [] in
      (
        suc n,
        omega arith,
        before_later s slept n limited before,
        elim last [
          | inl e ↦ inl (ap rate_limited (sym (outcome_later s slept n)) ∙ e)
          | inr e ↦ inr (ap suc e)
        ],
        same ∙ outcome_later s slept n,
        calls ∙ omega arith,
        sleeps ∙ append_assoc s.sleeps (2 ^ attempt ∷ []) (pauses (suc attempt) n),
        cost,
      )

  retried :
      (left attempt : ℕ) (s : Session W) (rest : Client W (Text × Usage))
      (result : Result Failure (Text × Usage))
      → outcome s 0 ≡ result
      → ((t : Session W) → Ends left (suc attempt) t (rest t))
      → Ends
          (suc left)
          attempt
          s
          (after_attempt attempt rest result (record s { calls = s.calls + 1 }))
  unfolding after_attempt sleep
  retried left attempt s rest (ok answer) e ih =
      Ends-first (suc left) attempt s (ok answer) e (inl refl)
  retried left attempt s rest (err x) e ih = elim (Bool-cases (is_rate_limit_error x)) [
    | inl limited ↦ rw limited (
        Ends-retried left attempt s _ (ap rate_limited e ∙ limited)
          (ih (record s { calls = s.calls + 1; sleeps = s.sleeps ++ 2 ^ attempt ∷ [] })))
    | inr other ↦ rw other (Ends-first (suc left) attempt s (err x) e (inl other))
  ]

  chat_from_lem :
      (left attempt : ℕ) (s : Session W)
      → Ends left attempt s (chat_from strip provider left attempt structured messages s)
  unfolding chat_from attempt_call
  chat_from_lem zero attempt s = Ends-first zero attempt s (first s) (outcome_zero s) (inr refl)
  chat_from_lem (suc left) attempt s =
      retried left attempt s (chat_from strip provider left (suc attempt) structured messages)
        (first s) (outcome_zero s) (chat_from_lem left (suc attempt))

  -- A chat call repeats an attempt exactly while it is refused for its rate, and at most `max_retries`
  -- times: its result is what the first attempt sees that is not refused so, or else the last one; it
  -- has made that many calls, has paused 1, 2, 4, ... seconds between them, and cost nothing yet.
  pub chat_with_retries_lem :
      (max_retries : ℕ) (s : Session W)
      → Ends max_retries 0 s (chat_with_retries strip provider max_retries structured messages s)
  unfolding chat_with_retries
  chat_with_retries_lem max_retries s = chat_from_lem max_retries 0 s

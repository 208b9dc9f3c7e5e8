-- ===== src/Llm/Tests.antt =====
-- A provider that is over its rate once and then answers, and each theorem there.
use slidelens.Prelude.{◌∷◌, List, ℕ, true, Option, none, some, [], ◌==◌, if◌then◌else◌}
use slidelens.Prelude.Int.{ℤ, pos}
use slidelens.Prelude.Exec.{Result, ok, err}
use slidelens.Prelude.Text.{codes, strip}
use slidelens.Double.FixedPoint.{fixed_double}
use slidelens.Llm.{
  Provider, Failure, Completion, Session, ModelPrice, Text, chat_with_retries, complete,
  first_unreadable,
}
use slidelens.Llm.Price.{find_key, lookup, LookedUp, lookup-LookedUp}
use slidelens.Llm.Retries.{Ends, chat_with_retries_lem}
use slidelens.Llm.Complete.{Ended, complete_lem}
use slidelens.Entities.{FileName}

abbrev over_rate : Failure
over_rate = record { status_code = some 429; message = [] }

abbrev answer : Completion
answer = record {
  refusal = [];
  content = codes "{}";
  parsed = none;
  prompt_tokens = 10;
  completion_tokens = 5;
}

abbrev busy : Provider
busy n messages = if n == 0 then err over_rate else ok answer

abbrev fresh : Session ℤ
fresh = record { calls = 0; sleeps = []; cost_rub = pos 0 }

chat_with_retries_lem_example :
    Ends strip busy true [] 3 0 fresh (chat_with_retries strip busy 3 true [] fresh)
chat_with_retries_lem_example = chat_with_retries_lem strip busy true [] 3 fresh

abbrev price : ModelPrice ℤ
price = record { input_rub_per_mtok = pos 60000; output_rub_per_mtok = pos 500000 }

abbrev any_text : Text → Result Text Text
any_text text = ok text

abbrev readable : FileName → Option Failure
readable path = none

complete_lem_example :
    Ended strip busy 3 price true any_text
      (first_unreadable readable (codes "1.png" ∷ []))
      []
      (codes "p")
      (codes "1.png" ∷ [])
      fresh
      (complete strip busy 3 price true any_text readable [] (codes "p") (codes "1.png" ∷ []) fresh)
complete_lem_example =
    complete_lem strip busy 3 price true any_text readable [] (codes "p") (codes "1.png" ∷ []) fresh

abbrev prices : List (Text × ℕ)
prices = (codes "gpt-4o-mini", 15) ∷ (codes "gpt-4o", 250) ∷ []

lookup-LookedUp_example :
    LookedUp prices
      (codes "gpt-4o-mini-2024")
      9
      (find_key prices (codes "gpt-4o-mini-2024"))
      (lookup prices (codes "gpt-4o-mini-2024") 9)
lookup-LookedUp_example = lookup-LookedUp prices (codes "gpt-4o-mini-2024") 9

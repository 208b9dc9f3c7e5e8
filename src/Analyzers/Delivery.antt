-- ===== src/Analyzers/Delivery.antt =====
-- Delivery metrics (backend/core/transcribe.py, `_delivery_findings` of core/analyzers/crossmodal.py
-- and the filler words of core/constants.py). `Unicode` is the language's classification of
-- characters; `shown k` formats a float with `k` digits.
use slidelens.Prelude.{
  ℕ, zero, suc, ◌+◌, ◌-◌, String, Bool, false, not, ◌&&◌, none, List, [], ◌∷◌, ◌++◌, map, length,
  drop, take, leb, ◌==◌, if◌then◌else◌,
}
use slidelens.Prelude.Int.{pos}
use slidelens.Prelude.Text.{codes, show, ◌<>◌, starts_with}
use slidelens.Prelude.Sort.{sort_by}
use slidelens.Double.{Double, ◌⊖◌, ◌⊘◌, nought}
use slidelens.Schemas.{Finding, delivery, minor}
use slidelens.Entities.{DeliveryMetrics}
use slidelens.Analyzers.Responses.{TranscriptSegment}

pub record Unicode : Type 0 where
  -- `\w`, `str.isdigit` and `str.isupper` of a character, and `str.lower`
  pub is_word : ℕ → Bool
  pub is_digit : ℕ → Bool
  pub is_upper : ℕ → Bool
  pub lowered : List ℕ → List ℕ

-- `FILLER_WORDS`; the order of a set is not specified.
abbrev pub filler_words : List String
filler_words =
    "э" ∷ "ээ" ∷ "эээ" ∷ "эм" ∷ "эмм" ∷ "мм" ∷ "ммм" ∷ "ну" ∷ "ну вот" ∷ "как бы" ∷ "типа"
    ∷ "короче" ∷ "в общем" ∷ "в принципе" ∷ "вот" ∷ "и вот" ∷ "значит" ∷ "собственно" ∷ "скажем так"
    ∷ "так сказать" ∷ "как сказать" ∷ "это самое" ∷ "получается" ∷ "как его" ∷ "как её" ∷ "блин"
    ∷ "да уж" ∷ "uh" ∷ "um" ∷ "uhm" ∷ "er" ∷ "erm" ∷ "ah" ∷ "eh" ∷ "like" ∷ "you know" ∷ "i mean"
    ∷ "kind of" ∷ "sort of" ∷ "basically" ∷ "actually" ∷ "literally" ∷ "right" ∷ "well" ∷ "so yeah"
    ∷ "you see" ∷ "or something" ∷ "and stuff" ∷ "whatever" ∷ "anyway" ∷ []

-- `" ".join(texts)`
unfoldable pub join_spaces : List (List ℕ) → List ℕ
join_spaces [] = []
join_spaces (t ∷ []) = t
join_spaces (t ∷ u ∷ ts) = t ++ b' ' ∷ join_spaces (u ∷ ts)

module _ (u : Unicode) where
  abbrev pub word_at : List ℕ → Bool
  word_at [] = false
  word_at (c ∷ s) = u.is_word c

  -- How many matches `\w+` has: one where each run of word characters ends.
  unfoldable pub count_words : List ℕ → ℕ
  count_words [] = 0
  count_words (c ∷ s) = (if u.is_word c && not (word_at s) then 1 else 0) + count_words s

  -- The pattern `(?<!\w)filler(?!\w)` at this place, after a word character or not.
  unfoldable pub filler_here : List ℕ → Bool → List ℕ → Bool
  filler_here filler after_word s =
      not after_word && starts_with s filler && not (word_at (drop (length filler) s))

  -- How many matches it has from here on, the first `skip` characters being matched already.
  unfoldable pub count_filler_from : List ℕ → ℕ → Bool → List ℕ → ℕ
  unfolding filler_here
  count_filler_from filler skip after_word [] = 0
  count_filler_from filler (suc skip) after_word (c ∷ s) =
      count_filler_from filler skip (u.is_word c) s
  count_filler_from filler zero after_word (c ∷ s) =
      let next = count_filler_from filler 0 (u.is_word c) s in
      let skipped = count_filler_from filler (length filler - 1) (u.is_word c) s in
      if filler_here filler after_word (c ∷ s) then suc skipped else next

  -- The fillers that are said, with how often.
  unfoldable pub count_fillers : List String → List ℕ → List (String × ℕ)
  unfolding count_filler_from
  count_fillers [] text = []
  count_fillers (filler ∷ fillers) text =
      let n = count_filler_from (codes filler) 0 false text in
      let rest = count_fillers fillers text in if n == 0 then rest else (filler, n) ∷ rest

module _ {W : Type 0} ⦃d : Double W⦄ where
  unfoldable pub last_end : W → List (TranscriptSegment W) → W
  last_end end [] = end
  last_end end (s ∷ segments) = last_end s.end segments

  -- The end of each segment that a pause of more than 3 seconds follows.
  unfoldable pub long_pauses_of : List (TranscriptSegment W) → List W
  long_pauses_of [] = []
  long_pauses_of (a ∷ []) = []
  long_pauses_of (a ∷ b ∷ segments) =
      let rest = long_pauses_of (b ∷ segments) in
      if d.lt (d.lit 3 1) (b.start ⊖ a.end) then a.end ∷ rest else rest

  unfoldable pub rate : ℕ → W → W
  rate words minutes = if d.lt nought minutes then d.of_int (pos words) ⊘ minutes else nought

  -- `compute_delivery`
  unfoldable pub compute_delivery : Unicode → List (TranscriptSegment W) → DeliveryMetrics W
  unfolding join_spaces count_words count_fillers last_end long_pauses_of rate
  compute_delivery u [] = record { words_per_minute = nought; filler_words = []; long_pauses = [] }
  compute_delivery u (s ∷ segments) =
      let text =
        u.lowered (join_spaces (map (λ (t : TranscriptSegment W). t.text) (s ∷ segments))) in
      record {
        words_per_minute =
            rate (count_words u text) ((last_end s.end segments ⊖ s.start) ⊘ d.lit 60 1);
        filler_words = count_fillers u filler_words text;
        long_pauses = long_pauses_of (s ∷ segments);
      }

abbrev pub total_fillers : List (String × ℕ) → ℕ
total_fillers [] = 0
total_fillers ((word, n) ∷ fillers) = n + total_fillers fillers

-- The three most frequent, a tie as they stand.
abbrev pub top_fillers : List (String × ℕ) → List (String × ℕ)
top_fillers fillers = take 3 (sort_by (λ a b. leb b.1 a.1) fillers)

unfoldable pub top_text : List (String × ℕ) → String
top_text [] = ""
top_text ((word, n) ∷ []) = word <> " (" <> show n <> ")"
top_text ((word, n) ∷ f ∷ fillers) = word <> " (" <> show n <> "), " <> top_text (f ∷ fillers)

module _ {W : Type 0} where
  abbrev pub delivery_finding : ℕ → String → String → String → Finding W
  delivery_finding id title description fix_suggestion = record {
    id = id;
    slide_num = none;
    category = delivery;
    severity = minor;
    title = title;
    description = description;
    fix_suggestion = fix_suggestion;
    bbox = none;
    auto_fixable = false;
    auto_fixed = false;
    source = none;
  }

  unfoldable pub filler_findings : ℕ → List (String × ℕ) → List (Finding W)
  unfolding top_text
  filler_findings id fillers =
      if leb 5 (total_fillers fillers)
      then delivery_finding id "Много слов-паразитов в речи"
          ("Всего "
            <> show (total_fillers fillers)
            <> " слов-паразитов, чаще всего: "
            <> top_text (top_fillers fillers)
            <> ".")
          "Потренируйтесь делать паузу вместо слов-паразитов."
        ∷ []
      else []

  unfoldable pub pause_findings : ℕ → List W → List (Finding W)
  pause_findings id [] = []
  pause_findings id (p ∷ pauses) =
      delivery_finding id "Длинные паузы в речи"
        ("Обнаружено " <> show (length (p ∷ pauses)) <> " пауз(ы) длиннее 3 с.")
        "Сократите паузы или замените их явным переходом к следующей мысли."
      ∷ []

  module _ ⦃d : Double W⦄ (shown : ℕ → W → String) where
    abbrev pub comfortable : W → Bool
    comfortable wpm = d.le (d.lit 100 1) wpm && d.le wpm (d.lit 170 1)

    unfoldable pub pace_findings : ℕ → W → List (Finding W)
    pace_findings id wpm =
        if d.lt nought wpm && not (comfortable wpm)
        then delivery_finding id
            (if d.lt (d.lit 170 1) wpm
              then "Темп речи слишком быстрый"
              else "Темп речи слишком медленный")
            ("Темп речи " <> shown 0 wpm <> " слов/мин, комфортный диапазон 100-170.")
            "Отрепетируйте темп речи, ориентируясь на комфортный диапазон."
          ∷ []
        else []

    -- `_delivery_findings`, with the identifiers that it draws.
    unfoldable pub delivery_findings : (ℕ → ℕ) → DeliveryMetrics W → List (Finding W)
    unfolding pace_findings filler_findings pause_findings
    delivery_findings id metrics =
        pace_findings (id 0) metrics.words_per_minute
        ++ filler_findings (id 1) metrics.filler_words
        ++ pause_findings (id 2) metrics.long_pauses

-- ===== src/Explanation/Untrusted.antt =====
-- app/services/llm/untrusted.py: what a message says to the model is taken out of it. A text is the
-- list of its characters, and the regular expressions are parameters: a pattern by its `search` and
-- its `finditer`, whose matches are given as spans of positions.
pub mod Spans
pub mod Removal
pub mod Reassembly
use Prim.Native.Char.{Char}
use finshield_ai.Base.{
  ℕ, zero, suc, ◌+◌, ◌-◌, max, Bool, true, false, not, ◌&&◌, ◌||◌, List, [], ◌∷◌, ◌++◌, any, all,
  is_empty, length, leb, nat_beq, if◌then◌else◌, sorted,
}
use finshield_ai.Explanation.Untrusted.Spans.{
  Text, take, drop, slice, is_space_at, widen_left, widen_right, span_before, merged, starts, chars,
}

pub record Pattern : Type 0 where
  pub search : Text → Bool
  pub finditer : Text → List (ℕ × ℕ)

pub record NeutralizedText : Type 0 where
  pub text : Text
  pub removed_segments : ℕ

-- `_split`: contents and boundaries in turn, by the boundary's matches from a position on.
unfoldable pub split_from : Text → ℕ → List (ℕ × ℕ) → List Text
split_from text cursor [] = drop cursor text ∷ []
split_from text cursor ((start, stop) ∷ spans) =
    slice cursor start text ∷ slice start stop text ∷ split_from text stop spans

-- `"".join(pieces)`
unfoldable pub join_pieces : List Text → Text
join_pieces [] = []
join_pieces (piece ∷ pieces) = piece ++ join_pieces pieces

-- The character class `\s`, and the regular expressions.
pub record Rules : Type 0 where
  pub is_space : Char → Bool
  pub sentence_boundary : Text → List (ℕ × ℕ)
  pub clause_boundary : Text → List (ℕ × ℕ)
  pub instruction_patterns : List Pattern

-- `INSTRUCTION_PLACEHOLDER`
unfoldable pub placeholder : Text
placeholder = chars "[제거된 지시문]"

module _ (rules : Rules) where
  open rules use {is_space, sentence_boundary, clause_boundary, instruction_patterns}

  unfoldable pub contains_instruction : Text → Bool
  contains_instruction text = any (λ p. p.search text) instruction_patterns

  -- The widened spans of the matches of one pattern.
  unfoldable pub widened : Text → List (ℕ × ℕ) → List (ℕ × ℕ)
  widened text [] = []
  widened text ((start, stop) ∷ spans) =
      (widen_left is_space text start, widen_right is_space text (length text - stop) stop)
      ∷ widened text spans

  -- The spans of all the patterns.
  unfoldable pub all_spans : Text → List Pattern → List (ℕ × ℕ)
  all_spans text [] = []
  all_spans text (p ∷ patterns) = widened text (p.finditer text) ++ all_spans text patterns

  -- `_matched_spans`
  unfoldable pub matched_spans : Text → List (ℕ × ℕ)
  matched_spans text = merged (sorted span_before (all_spans text instruction_patterns))

  -- The loop of `_replace_spans` from a position on.
  unfoldable pub replace_from : Text → ℕ → List (ℕ × ℕ) → Text
  replace_from text cursor [] = drop cursor text
  replace_from text cursor ((start, stop) ∷ spans) =
      slice cursor start text ++ (placeholder ++ replace_from text stop spans)

  unfoldable pub replace_spans : Text → NeutralizedText
  replace_spans text = record {
    text = replace_from text 0 (matched_spans text);
    removed_segments = length (matched_spans text);
  }

  -- The loop over clauses; contents and boundaries come in turn.
  unfoldable pub rebuild_clauses : Bool → List Text → List Text × ℕ
  rebuild_clauses is_content [] = ([], 0)
  rebuild_clauses is_content (clause ∷ clauses) =
      let (rest, removed) = rebuild_clauses (not is_content) clauses in
      if not is_content || not (contains_instruction clause)
      then (clause ∷ rest, removed)
      else (placeholder ∷ rest, suc removed)

  -- `_neutralize_sentence`, by its clauses.
  unfoldable pub neutralize_clauses : List Text → Text × ℕ
  neutralize_clauses (clause ∷ []) = (placeholder, 1)
  neutralize_clauses clauses =
      let (rebuilt, removed) = rebuild_clauses true clauses in
      if nat_beq removed 0 then (placeholder, 1) else (join_pieces rebuilt, removed)

  unfoldable pub neutralize_sentence : Text → Text × ℕ
  neutralize_sentence sentence =
      neutralize_clauses (split_from sentence 0 (clause_boundary sentence))

  -- The loop of `neutralize_instructions` over sentences.
  unfoldable pub rebuild_sentences : Bool → List Text → List Text × ℕ
  rebuild_sentences is_content [] = ([], 0)
  rebuild_sentences is_content (piece ∷ pieces) =
      let (rest, removed) = rebuild_sentences (not is_content) pieces in
      if not is_content || not (contains_instruction piece)
      then (piece ∷ rest, removed)
      else let (replaced, count) = neutralize_sentence piece in (replaced ∷ rest, count + removed)

  -- `text.replace(INSTRUCTION_PLACEHOLDER, "")`: the characters that no placeholder found from the
  -- left covers; the first argument counts those that one still covers.
  unfoldable pub without_placeholders : ℕ → Text → Text
  without_placeholders zero [] = []
  without_placeholders zero (c ∷ text) =
      let covered = without_placeholders (length placeholder - 1) text in
      let kept = without_placeholders zero text in
      if starts (c ∷ text) placeholder then covered else c ∷ kept
  without_placeholders (suc n) [] = []
  without_placeholders (suc n) (c ∷ text) = without_placeholders n text

  -- `_is_only_placeholders`
  unfoldable pub is_only_placeholders : Text → Bool
  is_only_placeholders text = all is_space (without_placeholders 0 text)

  -- The end of `neutralize_instructions`, by the rebuilt text and what was removed of it.
  unfoldable pub neutralized_by : Text → Text → ℕ → NeutralizedText
  neutralized_by text result removed =
      let narrowed = replace_spans text in
      if nat_beq removed 0
      then if not (contains_instruction text)
        then record { text = text; removed_segments = 0 }
        else narrowed
      else if not (is_only_placeholders result)
      then record { text = result; removed_segments = removed }
      else if is_only_placeholders narrowed.text
      then record { text = result; removed_segments = removed }
      else narrowed

  unfoldable pub neutralize_instructions : Text → NeutralizedText
  neutralize_instructions text =
      if is_empty text
      then record { text = text; removed_segments = 0 }
      else let (rebuilt, removed) =
          rebuild_sentences true (split_from text 0 (sentence_boundary text)) in
        neutralized_by text (join_pieces rebuilt) removed

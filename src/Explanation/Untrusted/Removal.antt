-- ===== src/Explanation/Untrusted/Removal.antt =====
-- When `neutralize_instructions` of app/services/llm/untrusted.py takes nothing out of a text.
use finshield_ai.Base.{
  ℕ, max, ◌≡◌, refl, true, false, ◌&&◌, List, [], ◌∷◌, ◌++◌, any, is_empty, length, leb,
  is_empty-sorted, arith, Bool-cases, inl, inr,
}
use finshield_ai.Explanation.Untrusted.Spans.{Text, drop, merge_into, merged}
use finshield_ai.Explanation.Untrusted.{
  Pattern, Rules, replace_from, contains_instruction, widened, all_spans, matched_spans,
  replace_spans, neutralized_by, neutralize_instructions, rebuild_sentences, split_from,
  join_pieces,
}

is_empty-append : (xs ys : List (ℕ × ℕ)) → is_empty (xs ++ ys) ≡ (is_empty xs && is_empty ys)
is_empty-append [] ys = refl
is_empty-append (x ∷ xs) ys = refl

is_empty-merge_into :
    (last : ℕ × ℕ) (spans : List (ℕ × ℕ)) → is_empty (merge_into last spans) ≡ false
unfolding merge_into
is_empty-merge_into last [] = refl
is_empty-merge_into (a, b) ((c, d) ∷ spans) = elim (Bool-cases (leb c b)) [
  | inl e ↦ rw e (is_empty-merge_into (a, max b d) spans)
  | inr e ↦ rw e refl
]

is_empty-merged : (spans : List (ℕ × ℕ)) → is_empty (merged spans) ≡ is_empty spans
unfolding merged
is_empty-merged [] = refl
is_empty-merged (span ∷ spans) = is_empty-merge_into span spans

length-is_empty : (xs : List (ℕ × ℕ)) → length xs ≡ 0 → is_empty xs ≡ true
length-is_empty [] h = refl
length-is_empty (x ∷ xs) h = absurd (omega arith)

-- A pattern that is found has a match.
abbrev pub FindsAll : List Pattern → Type 0
FindsAll [] = Unit
FindsAll (p ∷ patterns) =
    ((text : Text) → p.search text ≡ true → is_empty (p.finditer text) ≡ false) × FindsAll patterns

module _ (rules : Rules) where
  open rules use {instruction_patterns}

  is_empty-widened :
      (text : Text) (spans : List (ℕ × ℕ)) → is_empty (widened rules text spans) ≡ is_empty spans
  unfolding widened
  is_empty-widened text [] = refl
  is_empty-widened text ((a, b) ∷ spans) = refl

  is_empty-all_spans :
      (text : Text) (patterns : List Pattern)
      → FindsAll patterns
      → is_empty (all_spans rules text patterns) ≡ true
      → any (λ p. p.search text) patterns ≡ false
  unfolding all_spans
  is_empty-all_spans text [] h e = refl
  is_empty-all_spans text (p ∷ patterns) h e = ground (
    arith,
    h.0 text,
    is_empty-all_spans text patterns h.1,
    is_empty-append (widened rules text (p.finditer text)) (all_spans rules text patterns),
    is_empty-widened text (p.finditer text),
  )

  no_spans :
      (text : Text)
      → FindsAll instruction_patterns
      → length (matched_spans rules text) ≡ 0
      → contains_instruction rules text ≡ false
  unfolding matched_spans contains_instruction
  no_spans text h e =
      is_empty-all_spans text instruction_patterns h
        (rw (is_empty-merged, is_empty-sorted) at (length-is_empty _ e))

  replace_from-nothing :
      (text : Text) (spans : List (ℕ × ℕ))
      → length spans ≡ 0
      → replace_from rules text 0 spans ≡ text
  unfolding replace_from drop
  replace_from-nothing text [] h = refl
  replace_from-nothing text (span ∷ spans) h = absurd (omega arith)

  by_result :
      (text result : Text) (removed : ℕ)
      → FindsAll instruction_patterns
      → (neutralized_by rules text result removed).removed_segments ≡ 0
      → ((neutralized_by rules text result removed).text ≡ text)
        × (contains_instruction rules text ≡ false)
  unfolding neutralized_by replace_spans
  by_result text result removed h e =
      ground (arith, no_spans text h, replace_from-nothing text (matched_spans rules text))

  -- Where the patterns' matches include what their search finds, a text that is not empty and of which
  -- nothing is reported removed is passed on unchanged, and holds no instruction.
  pub neutralize_instructions-nothing :
      (text : Text)
      → FindsAll instruction_patterns
      → is_empty text ≡ false
      → (neutralize_instructions rules text).removed_segments ≡ 0
      → ((neutralize_instructions rules text).text ≡ text)
        × (contains_instruction rules text ≡ false)
  unfolding neutralize_instructions
  neutralize_instructions-nothing text h k e = rw k (
      by_result text
        (join_pieces
          (rebuild_sentences rules true (split_from text 0 (rules.sentence_boundary text))).0)
        (rebuild_sentences rules true (split_from text 0 (rules.sentence_boundary text))).1 h
        (rw k at e))

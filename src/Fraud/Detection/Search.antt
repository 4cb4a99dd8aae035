-- ===== src/Fraud/Detection/Search.antt =====
-- app/domain/fraud/signals.py: looking for words in a text.
use finshield_ai.Base.{
  ℕ, zero, suc, ◌-◌, String, Bool, true, false, ◌&&◌, ◌||◌, Option, none, some, List, [], ◌∷◌, ◌++◌,
  any, is_empty, length, if◌then◌else◌,
}
use finshield_ai.Explanation.Untrusted.Spans.{Text, chars, drop, starts}
use finshield_ai.Fraud.Detection.Terms.{direct_imperative_endings, prohibition_endings}

-- `term in text`
unfoldable pub contains : Text → Text → Bool
contains [] term = is_empty term
contains (c ∷ text) term = let rest = contains text term in starts (c ∷ text) term || rest

-- `any(term in text for term in terms)`
unfoldable pub any_term : List String → Text → Bool
any_term terms text = any (λ term. contains text (chars term)) terms

-- What follows the first place of a word, `n` characters after its start.
unfoldable pub after_found : Text → ℕ → Text → Option Text
after_found word n [] = if is_empty word then some [] else none
after_found word n (c ∷ text) =
    let rest = after_found word n text in
    if starts (c ∷ text) word then some (drop n (c ∷ text)) else rest

-- `text.replace(phrase, " ")`; the first argument counts the characters that a phrase still covers.
unfoldable pub blank_out : Text → ℕ → Text → Text
blank_out phrase covered [] = []
blank_out phrase (suc covered) (c ∷ text) = blank_out phrase covered text
blank_out phrase zero (c ∷ text) =
    let blanked = blank_out phrase (length phrase - 1) text in
    let kept = blank_out phrase zero text in
    if starts (c ∷ text) phrase then chars " " ++ blanked else c ∷ kept

-- The loop over `accusation_contexts`.
unfoldable pub blank_out_all : List String → Text → Text
blank_out_all [] text = text
blank_out_all (phrase ∷ phrases) text = blank_out_all phrases (blank_out (chars phrase) 0 text)

-- `" ".join(clauses)`
unfoldable pub join_clauses : List Text → Text
join_clauses [] = []
join_clauses (clause ∷ []) = clause
join_clauses (clause ∷ other ∷ clauses) = clause ++ (chars " " ++ join_clauses (other ∷ clauses))

module _ (casefold : Text → Text) where
  -- `keyword.casefold() in text`
  unfoldable pub has_keyword : Text → String → Bool
  has_keyword text keyword = contains text (casefold (chars keyword))

  -- `_is_direct_imperative`
  unfoldable pub is_direct_imperative : Text → String → Bool
  is_direct_imperative text keyword =
      any (λ ending. contains text (casefold (chars keyword) ++ chars ending))
        direct_imperative_endings

  -- The loop of `_is_prohibited`, for a word that is not empty; the second argument counts the
  -- characters that the last place still covers.
  unfoldable pub prohibited_from : Text → ℕ → Bool → Text → Bool
  prohibited_from word covered saw [] = saw
  prohibited_from word (suc covered) saw (c ∷ text) = prohibited_from word covered saw text
  prohibited_from word zero saw (c ∷ text) =
      let tail = drop (length word) (c ∷ text) in
      let further = prohibited_from word (length word - 1) true text in
      let next = prohibited_from word zero saw text in
      if starts (c ∷ text) word
      then any (λ ending. starts tail (chars ending)) prohibition_endings && further
      else next

  -- `_is_prohibited`
  unfoldable pub is_prohibited : Text → String → Bool
  is_prohibited text keyword = prohibited_from (casefold (chars keyword)) 0 false text

  -- `_appears_in_order`
  unfoldable pub appears_in_order : Text → List String → Bool
  appears_in_order text [] = true
  appears_in_order text (part ∷ parts) =
      elim (after_found (casefold (chars part)) (length (chars part)) text) [
        | none ↦ false
        | some rest ↦ appears_in_order rest parts
      ]

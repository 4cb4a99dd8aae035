-- ===== src/Explanation/Untrusted/Spans.antt =====
-- app/services/llm/untrusted.py: slices of a text, and the spans of the matches in it.
use Prim.Native.Char.{Char, code}
use Prim.Native.String.{String}
use finshield_ai.Base.{
  ℕ, zero, suc, ◌-◌, max, Bool, true, false, ◌&&◌, ◌||◌, List, [], ◌∷◌, ltb, leb, nat_beq,
  if◌then◌else◌,
}

abbrev pub Text : Type 0
Text = List Char

-- The characters of a string.
unfoldable pub chars : String → Text
chars String.[] = []
chars (String.◌∷◌ c s) = c ∷ chars s

-- The string of the characters.
unfoldable pub of_chars : Text → String
of_chars [] = String.[]
of_chars (c ∷ text) = String.◌∷◌ c (of_chars text)

unfoldable pub take : ℕ → Text → Text
take zero text = []
take (suc n) [] = []
take (suc n) (c ∷ text) = c ∷ take n text

unfoldable pub drop : ℕ → Text → Text
drop zero text = text
drop (suc n) [] = []
drop (suc n) (c ∷ text) = drop n text

-- `text[start:stop]`
unfoldable pub slice : ℕ → ℕ → Text → Text
unfolding take drop
slice start stop text = take (stop - start) (drop start text)

module _ (is_space : Char → Bool) where
  -- `_WHITESPACE.match(text[i])`; a position past the end counts as no whitespace.
  unfoldable pub is_space_at : Text → ℕ → Bool
  is_space_at [] i = false
  is_space_at (c ∷ text) zero = is_space c
  is_space_at (c ∷ text) (suc i) = is_space_at text i

  -- The loop that moves the start to the left.
  unfoldable pub widen_left : Text → ℕ → ℕ
  widen_left text zero = zero
  widen_left text (suc start) =
      let further = widen_left text start in if is_space_at text start then suc start else further

  -- The loop that moves the end to the right, for as many characters as are left.
  unfoldable pub widen_right : Text → ℕ → ℕ → ℕ
  widen_right text zero stop = stop
  widen_right text (suc left) stop =
      let further = widen_right text left (suc stop) in
      if is_space_at text stop then stop else further

-- The order of pairs.
unfoldable pub span_before : ℕ × ℕ → ℕ × ℕ → Bool
span_before (a, b) (c, d) = ltb a c || (nat_beq a c && leb b d)

-- The loop over the sorted spans, with the last merged one.
unfoldable pub merge_into : ℕ × ℕ → List (ℕ × ℕ) → List (ℕ × ℕ)
merge_into last [] = last ∷ []
merge_into (last_start, last_stop) ((start, stop) ∷ spans) =
    let joined = merge_into (last_start, max last_stop stop) spans in
    let apart = merge_into (start, stop) spans in
    if leb start last_stop then joined else (last_start, last_stop) ∷ apart

unfoldable pub merged : List (ℕ × ℕ) → List (ℕ × ℕ)
unfolding merge_into
merged [] = []
merged (span ∷ spans) = merge_into span spans

-- `text.startswith(t)`
unfoldable pub starts : Text → Text → Bool
starts text [] = true
starts [] (d ∷ t) = false
starts (c ∷ text) (d ∷ t) = nat_beq (code c) (code d) && starts text t

-- ===== src/Explanation/Untrusted/Reassembly.antt =====
-- `_split` of app/services/llm/untrusted.py: the pieces make up the text again.
use mathlib.Core.List.{append-nil}
use finshield_ai.Base.{ℕ, zero, suc, ◌+◌, ◌-◌, ◌≤◌, ◌≡◌, refl, sym, ap, List, [], ◌∷◌, ◌++◌, arith}
use finshield_ai.Explanation.Untrusted.Spans.{Text, take, drop, slice}
use finshield_ai.Explanation.Untrusted.{split_from, join_pieces}

take-append-drop : (n : ℕ) (text : Text) → take n text ++ drop n text ≡ text
unfolding take drop
take-append-drop zero text = refl
take-append-drop (suc n) [] = refl
take-append-drop (suc n) (c ∷ text) = rw (take-append-drop n text) refl

drop-empty : (n : ℕ) → drop n [] ≡ []
unfolding drop
drop-empty zero = refl
drop-empty (suc n) = refl

suc_add : (m n : ℕ) → suc m + n ≡ suc (m + n)
suc_add m n = omega arith

drop-drop : (m n : ℕ) (text : Text) → drop n (drop m text) ≡ drop (m + n) text
unfolding drop
drop-drop zero n text = ap (λ k. drop k text) (omega arith)
drop-drop (suc m) n [] = rw (drop-empty (suc m + n)) (drop-empty n)
drop-drop (suc m) n (c ∷ text) = rw (suc_add m n) (drop-drop m n text)

add_sub : (m n : ℕ) → m ≤ n → m + (n - m) ≡ n
add_sub m n h = omega arith

drop_rest :
    (start stop : ℕ) (text : Text)
    → start ≤ stop
    → drop stop text ≡ drop (stop - start) (drop start text)
drop_rest start stop text h =
    rw (add_sub start stop h) at (sym (drop-drop start (stop - start) text))

slice-append-drop :
    (start stop : ℕ) (text : Text)
    → start ≤ stop
    → slice start stop text ++ drop stop text ≡ drop start text
unfolding slice
slice-append-drop start stop text h =
    rw (drop_rest start stop text h) (take-append-drop (stop - start) (drop start text))

-- Spans that follow one another from a position on.
abbrev pub InOrder : ℕ → List (ℕ × ℕ) → Type 0
InOrder cursor [] = Unit
InOrder cursor ((start, stop) ∷ spans) = (cursor ≤ start) × (start ≤ stop) × InOrder stop spans

-- The pieces of a text that is split at boundaries that follow one another make up the text from the
-- given position on, without a difference in one character.
pub join_pieces-split_from :
    (text : Text) (cursor : ℕ) (spans : List (ℕ × ℕ))
    → InOrder cursor spans
    → join_pieces (split_from text cursor spans) ≡ drop cursor text
unfolding join_pieces split_from
join_pieces-split_from text cursor [] h = append-nil (drop cursor text)
join_pieces-split_from text cursor ((start, stop) ∷ spans) h =
    rw
      (
        join_pieces-split_from text stop spans h.2,
        slice-append-drop start stop text h.1,
        slice-append-drop cursor start text h.0,
      )
      refl

-- ===== src/OfficialSources/Selection.antt =====
-- The sources of actions: app/domain/official_sources.py, `sources_for_actions`.
use finshield_ai.Base.{
  String, ◌≡◌, refl, ◌∙◌, Bool, true, false, ◌&&◌, ◌||◌, Option, none, some, List, [], ◌∷◌, any,
  all, mem, add, mem-add, or-false, Result, ok, err, ◌>>=◌, if◌then◌else◌, arith, ◌==◌,
}
use finshield_ai.OfficialSources.{
  OfficialSource, SupportedAction, SourceError, unknown_source, unsupported_action, string_eq,
  get_source, relate_source, relate_sources, relate_actions, pick_sources, sources_for_actions,
}

-- The catalogue has the source, and the source supports the action.
abbrev pub is_supported_by : List OfficialSource → String → String → Bool
is_supported_by catalog code id = elim (get_source id catalog) [
  | none ↦ false
  | some s ↦ mem code s.supports
]

abbrev pub is_supported : List OfficialSource → SupportedAction → Bool
is_supported catalog a = all (is_supported_by catalog a.code) a.source_ids

-- One of the actions cites the source.
abbrev pub is_cited : List SupportedAction → String → Bool
is_cited actions id = any (λ (a : SupportedAction). mem id a.source_ids) actions

-- The elements that pass the test, in their order.
abbrev pub keep : (OfficialSource → Bool) → List OfficialSource → List OfficialSource
keep p [] = []
keep p (s ∷ catalog) = let rest = keep p catalog in if p s then s ∷ rest else rest

-- What a loop over sources or actions does: it collects `ids`, or it stops with an error.
abbrev Collects : Bool → (String → Bool) → Result SourceError (List String) → Type 0
Collects supported ids (ok related) = (supported ≡ true) × ((id : String) → mem id related ≡ ids id)
Collects supported ids (err e) = supported ≡ false

Collects-bind :
    (b c : Bool) (p q : String → Bool) (m : Result SourceError (List String))
    (f : List String → Result SourceError (List String))
    → Collects b p m
    → ((related : List String) → ((id : String) → mem id related ≡ p id) → Collects c q (f related))
    → Collects (b && c) q (m >>= f)
Collects-bind b c p q (ok related) f h k = rw h.0 (k related h.1)
Collects-bind b c p q (err e) f h k = rw h refl

Collects-ids :
    (b : Bool) (p q : String → Bool) (m : Result SourceError (List String))
    → ((id : String) → p id ≡ q id)
    → Collects b p m
    → Collects b q m
Collects-ids b p q (ok related) e h = (h.0, λ id. h.1 id ∙ e id)
Collects-ids b p q (err x) e h = h

move : (x y z r : Bool) → r ≡ (y || z) → (x || r) ≡ ((y || x) || z)
move x y z r h = ground arith

Collects-if :
    (b : Bool) (id : String) (related : List String) (e : SourceError)
    → Collects b (λ j. j == id || mem j related) (if b then ok (add id related) else err e)
Collects-if true id related e = (refl, λ j. mem-add j id related)
Collects-if false id related e = refl

module _ (catalog : List OfficialSource) where
  relate_source-Collects :
      (code id : String) (related : List String)
      → Collects
          (is_supported_by catalog code id)
          (λ j. j == id || mem j related)
          (relate_source catalog code id related)
  unfolding relate_source
  relate_source-Collects code id related = by_source (get_source id catalog)
    where
      by_source :
          (o : Option OfficialSource)
          → Collects
              (elim o [ none ↦ false | some s ↦ mem code s.supports ])
              (λ j. j == id || mem j related)
              (elim o [
                | none ↦ err (unknown_source id)
                | some s ↦
                    if mem code s.supports
                    then ok (add id related)
                    else err (unsupported_action id code)
              ])
      by_source none = refl
      by_source (some s) = Collects-if (mem code s.supports) id related (unsupported_action id code)

  relate_sources-Collects :
      (code : String) (ids related : List String)
      → Collects
          (all (is_supported_by catalog code) ids)
          (λ j. mem j ids || mem j related)
          (relate_sources catalog code ids related)
  unfolding relate_sources
  relate_sources-Collects code [] related = (refl, λ j. refl)
  relate_sources-Collects code (id ∷ ids) related =
      Collects-bind (is_supported_by catalog code id) (all (is_supported_by catalog code) ids)
        (λ j. j == id || mem j related) (λ j. mem j (id ∷ ids) || mem j related)
        (relate_source catalog code id related) (relate_sources catalog code ids)
        (relate_source-Collects code id related)
        (λ related' h.
          Collects-ids _ _ _ (relate_sources catalog code ids related')
            (λ j. move (mem j ids) (j == id) (mem j related) (mem j related') (h j))
            (relate_sources-Collects code ids related'))

  relate_actions-Collects :
      (actions : List SupportedAction) (related : List String)
      → Collects
          (all (is_supported catalog) actions)
          (λ j. is_cited actions j || mem j related)
          (relate_actions catalog actions related)
  unfolding relate_actions
  relate_actions-Collects [] related = (refl, λ j. refl)
  relate_actions-Collects (a ∷ actions) related =
      Collects-bind (is_supported catalog a) (all (is_supported catalog) actions)
        (λ j. mem j a.source_ids || mem j related) (λ j. is_cited (a ∷ actions) j || mem j related)
        (relate_sources catalog a.code a.source_ids related) (relate_actions catalog actions)
        (relate_sources-Collects a.code a.source_ids related)
        (λ related' h.
          Collects-ids _ _ _ (relate_actions catalog actions related')
            (λ j.
              move (is_cited actions j) (mem j a.source_ids) (mem j related) (mem j related') (h j))
            (relate_actions-Collects actions related'))

pick_sources-keep :
    (related : List String) (p : String → Bool) (catalog : List OfficialSource)
    → ((id : String) → mem id related ≡ p id)
    → pick_sources related catalog ≡ keep (λ s. p s.source_id) catalog
unfolding pick_sources
pick_sources-keep related p [] h = refl
pick_sources-keep related p (s ∷ catalog) h =
    rw (h s.source_id, pick_sources-keep related p catalog h) refl

-- What `sources_for_actions` answers.
abbrev pub Answers :
    List OfficialSource → List SupportedAction → Result SourceError (List OfficialSource) → Type 0
Answers catalog actions (ok sources) =
    (all (is_supported catalog) actions ≡ true)
    × (sources ≡ keep (λ s. is_cited actions s.source_id) catalog)
Answers catalog actions (err e) = all (is_supported catalog) actions ≡ false

-- `sources_for_actions` succeeds exactly if each source that an action cites is in the catalogue
-- and supports that action; it then gives the cited sources, each as often as the catalogue has it
-- and in the order of the catalogue.
pub sources_for_actions-Answers :
    (catalog : List OfficialSource) (actions : List SupportedAction)
    → Answers catalog actions (sources_for_actions catalog actions)
unfolding sources_for_actions
sources_for_actions-Answers catalog actions =
    answer (relate_actions catalog actions []) (relate_actions-Collects catalog actions [])
  where
    answer :
        (m : Result SourceError (List String))
        → Collects (all (is_supported catalog) actions) (λ j. is_cited actions j || false) m
        → Answers catalog actions (m >>= λ related. ok (pick_sources related catalog))
    answer (ok related) h = (
      h.0,
      pick_sources-keep related (is_cited actions) catalog
          (λ id. h.1 id ∙ or-false (is_cited actions id)),
    )
    answer (err e) h = h

-- ===== src/OfficialSources.antt =====
-- app/domain/official_sources.py: the catalogue of official sources. A date is its ordinal;
-- `fromisoformat` stands for `date.fromisoformat`, `none` where that raises ValueError.
pub mod Selection
pub mod Loading
mod Tests
use text.Mathlib.Text.{◌==◌ as str_eq}
use text.Mathlib.TextEquality.{eq_iff}
use finshield_ai.Base.{
  ℕ, ◌-◌, String, Bool, true, false, not, Option, none, some, List, [], ◌∷◌, map, Eq, ◌==◌, mem,
  add, ltb, nat_beq, length, update, Result, ok, err, ◌>>=◌, ◌>>◌, raise_if, if◌then◌else◌,
}

instance abbrev pub string_eq : Eq String
string_eq = record { beq = str_eq; beq_iff = eq_iff }

-- app/schemas/analysis.py: `OfficialSource`
pub record OfficialSource : Type 0 where
  pub source_id : String
  pub organization : String
  pub title : String
  pub source_url : String
  pub retrieved_at : String
  pub supports : List String

-- `SupportedAction`: what the catalogue needs to know of an action.
pub record SupportedAction : Type 0 where
  pub code : String
  pub source_ids : List String

pub data SourceError : Type 0 where
  unknown_source : String → SourceError
  unsupported_action : String → String → SourceError
  duplicate_source_id duplicate_source_url : SourceError
  bad_retrieved_at future_retrieved_at : String → SourceError

-- `catalog.get(source_id)`; the ids of a catalogue are unique.
unfoldable pub get_source : String → List OfficialSource → Option OfficialSource
get_source id [] = none
get_source id (s ∷ catalog) = if id == s.source_id then some s else get_source id catalog

-- The body of the inner loop of `sources_for_actions`.
unfoldable pub relate_source :
    List OfficialSource → String → String → List String → Result SourceError (List String)
relate_source catalog code id related = elim (get_source id catalog) [
  | none ↦ err (unknown_source id)
  | some s ↦ if mem code s.supports then ok (add id related) else err (unsupported_action id code)
]

-- `for source_id in action.source_ids`
unfoldable pub relate_sources :
    List OfficialSource → String → List String → List String → Result SourceError (List String)
unfolding relate_source
relate_sources catalog code [] related = ok related
relate_sources catalog code (id ∷ ids) related =
    relate_source catalog code id related >>= relate_sources catalog code ids

-- `for action in actions`
unfoldable pub relate_actions :
    List OfficialSource → List SupportedAction → List String → Result SourceError (List String)
unfolding relate_sources
relate_actions catalog [] related = ok related
relate_actions catalog (a ∷ actions) related =
    relate_sources catalog a.code a.source_ids related >>= relate_actions catalog actions

-- The sources of the catalogue whose ids were collected, in its order.
unfoldable pub pick_sources : List String → List OfficialSource → List OfficialSource
pick_sources related [] = []
pick_sources related (s ∷ catalog) =
    let rest = pick_sources related catalog in if mem s.source_id related then s ∷ rest else rest

unfoldable pub sources_for_actions :
    List OfficialSource → List SupportedAction → Result SourceError (List OfficialSource)
unfolding relate_actions pick_sources
sources_for_actions catalog actions = do
  related ← relate_actions catalog actions []
  ok (pick_sources related catalog)

-- `len(xs) != len(set(xs))`
unfoldable pub has_duplicates : List String → Bool
has_duplicates xs = not (nat_beq (length xs) (length (update xs [])))

module _ (fromisoformat : String → Option ℕ) where
  unfoldable pub parse_retrieved_at : OfficialSource → Result SourceError ℕ
  parse_retrieved_at s = elim (fromisoformat s.retrieved_at) [
    | none ↦ err (bad_retrieved_at s.source_id)
    | some d ↦ ok d
  ]

  -- The loop of `build_catalog` over the dates.
  unfoldable pub check_dates : ℕ → List OfficialSource → Result SourceError Unit
  unfolding parse_retrieved_at
  check_dates today [] = ok tt
  check_dates today (s ∷ sources) = do
    d ← parse_retrieved_at s
    raise_if (ltb today d) (future_retrieved_at s.source_id)
    check_dates today sources

  unfoldable pub build_catalog : ℕ → List OfficialSource → Result SourceError (List OfficialSource)
  unfolding has_duplicates check_dates
  build_catalog today sources = do
    raise_if (has_duplicates (map (λ s. s.source_id) sources)) duplicate_source_id
    raise_if (has_duplicates (map (λ s. s.source_url) sources)) duplicate_source_url
    check_dates today sources
    ok sources

  -- The sources whose date lies before the cutoff. `today - interval_days` does not go below the
  -- first ordinal here; the source's `date` raises OverflowError there.
  unfoldable pub select_stale :
      List OfficialSource → ℕ → ℕ → Result SourceError (List OfficialSource)
  unfolding parse_retrieved_at
  select_stale [] interval_days today = ok []
  select_stale (s ∷ catalog) interval_days today = do
    d ← parse_retrieved_at s
    rest ← select_stale catalog interval_days today
    ok (if ltb d (today - interval_days) then s ∷ rest else rest)

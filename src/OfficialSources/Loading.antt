-- ===== src/OfficialSources/Loading.antt =====
-- The checks of a catalogue when it is loaded: app/domain/official_sources.py, `build_catalog`.
use finshield_ai.Base.{
  ℕ, String, ◌≡◌, ◌↔◌, refl, Bool, true, false, Option, none, some, List, [], ◌∷◌, map, all, leb,
  Distinct, length-update_iff, Result, ok, err, ◌>>◌, raise_if, arith,
}
use finshield_ai.OfficialSources.{
  OfficialSource, SourceError, duplicate_source_id, duplicate_source_url, string_eq, has_duplicates,
  check_dates, build_catalog,
}

has_duplicates_iff : (xs : List String) → (has_duplicates xs ≡ false) ↔ Distinct xs
unfolding has_duplicates
has_duplicates_iff xs =
    (λ h. (length-update_iff xs).0 (ground arith), λ d. ground (arith, (length-update_iff xs).1 d))

three_checks :
    (b c : Bool) (m : Result SourceError Unit) (x : List OfficialSource)
    → ((do raise_if b duplicate_source_id; raise_if c duplicate_source_url; m; ok x) ≡ ok x)
      ↔ ((b ≡ false) × (c ≡ false) × (m ≡ ok tt))
three_checks true c m x = (λ h. cc, λ h. cc h.0)
three_checks false true m x = (λ h. cc, λ h. cc h.1)
three_checks false false (ok u) x = (λ h. (refl, refl, refl), λ h. refl)
three_checks false false (err e) x = (λ h. cc, λ h. cc h.2)

module _ (fromisoformat : String → Option ℕ) (today : ℕ) where
  -- The date can be read, and is not in the future.
  abbrev pub is_dated : OfficialSource → Bool
  is_dated s = elim (fromisoformat s.retrieved_at) [ none ↦ false | some d ↦ leb d today ]

  check_dates-ok :
      (sources : List OfficialSource)
      → (check_dates fromisoformat today sources ≡ ok tt) ↔ (all is_dated sources ≡ true)
  unfolding check_dates
  check_dates-ok [] = (λ h. refl, λ h. refl)
  check_dates-ok (s ∷ sources) =
      let (there, back) = check_dates-ok sources in
      (λ h. ground (arith, there), λ h. ground (arith, back))

  -- Loading gives back the list of sources exactly if no two of them share an id, no two share a
  -- URL, and each has a readable date that is not in the future.
  pub build_catalog-ok_iff :
      (sources : List OfficialSource)
      → (build_catalog fromisoformat today sources ≡ ok sources) ↔ (
          Distinct (map (λ s. s.source_id) sources)
          × Distinct (map (λ s. s.source_url) sources)
          × (all is_dated sources ≡ true))
  unfolding build_catalog
  build_catalog-ok_iff sources =
      let ids = has_duplicates_iff (map (λ s. s.source_id) sources) in
      let urls = has_duplicates_iff (map (λ s. s.source_url) sources) in
      let dates = check_dates-ok sources in
      let (there, back) =
        three_checks (has_duplicates (map (λ s. s.source_id) sources))
          (has_duplicates (map (λ s. s.source_url) sources))
          (check_dates fromisoformat today sources) sources in
      (
        λ h. (ids.0 (there h).0, urls.0 (there h).1, dates.0 (there h).2),
        λ h. back (ids.1 h.0, urls.1 h.1, dates.1 h.2),
      )

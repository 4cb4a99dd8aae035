-- ===== src/Fraud/Detection/Links.antt =====
-- app/domain/fraud/signals.py: which links look suspicious. The finders of links, `str.strip` and
-- `rstrip`, the two patterns of a scheme, `urlsplit` and `ip_address` are parameters.
use text.Mathlib.Text.{starts_with}
use finshield_ai.Base.{
  String, text_contains, concat, Bool, true, false, not, ◌&&◌, ◌||◌, Option, none, some, List, [],
  ◌∷◌, ◌++◌, any, is_empty, ◌==◌, mem, if◌then◌else◌,
}
use finshield_ai.OfficialSources.{string_eq}

-- `urlsplit` of a text: its scheme and its host name, folded and without a last dot, and whether it has
-- a user name or a password.
pub record SplitUrl : Type 0 where
  pub scheme : String
  pub hostname : String
  pub has_credentials : Bool

pub record UrlReaders : Type 0 where
  pub url_candidates : String → List String
  pub bare_url_candidates : String → List String
  pub is_blank : String → Bool
  pub trimmed : String → String
  pub has_scheme : String → Bool
  pub has_opaque_scheme : String → Bool
  pub urlsplit : String → Option SplitUrl
  pub ends_with : String → String → Bool
  pub is_ip_address : String → Bool

-- `KNOWN_SHORTENERS`
abbrev pub known_shorteners : List String
known_shorteners =
    "bit.ly" ∷ "cutt.ly" ∷ "goo.gl" ∷ "han.gl" ∷ "is.gd" ∷ "me2.do" ∷ "t.co" ∷ "tinyurl.com"
    ∷ "url.kr" ∷ []

-- `SAFE_URL_SCHEMES`
abbrev pub safe_url_schemes : List String
safe_url_schemes = "http" ∷ "https" ∷ []

module _ (readers : UrlReaders) where
  open readers use {
    url_candidates, bare_url_candidates, is_blank, trimmed, has_scheme, has_opaque_scheme, urlsplit,
    ends_with, is_ip_address,
  }

  -- The checks of a host name.
  unfoldable pub is_suspicious_host : String → Bool
  is_suspicious_host hostname =
      if hostname == "localhost" || ends_with hostname ".localhost"
      then true
      else if starts_with hostname "xn--" || text_contains hostname ".xn--"
      then true
      else if any
          (λ shortener. hostname == shortener || ends_with hostname (concat ("." ∷ shortener ∷ [])))
          known_shorteners
      then true
      else is_ip_address hostname

  -- The checks of a split link; `none` stands for a ValueError.
  unfoldable pub is_suspicious_split : Bool → Option SplitUrl → Bool
  is_suspicious_split schemed none = true
  is_suspicious_split schemed (some parsed) =
      if schemed && not (mem parsed.scheme safe_url_schemes)
      then true
      else if parsed.scheme == "http"
      then true
      else if parsed.hostname == ""
      then false
      else if parsed.has_credentials
      then true
      else is_suspicious_host parsed.hostname

  -- `_is_lexically_suspicious_url`
  unfoldable pub is_lexically_suspicious_url : String → Bool
  is_lexically_suspicious_url raw_url =
      let candidate = trimmed raw_url in
      if candidate == ""
      then false
      else if not (has_scheme candidate) && has_opaque_scheme candidate
      then true
      else is_suspicious_split (has_scheme candidate) (
          urlsplit
            (if has_scheme candidate then candidate else concat ("https://" ∷ candidate ∷ [])))

  unfoldable pub supplied : Option String → List String
  supplied none = []
  supplied (some url) = if is_blank url then [] else url ∷ []

  -- `_url_candidates`
  unfoldable pub all_url_candidates : String → Option String → List String
  all_url_candidates text supplied_url =
      url_candidates text ++ (bare_url_candidates text ++ supplied supplied_url)

  unfoldable pub contains_url : String → Option String → Bool
  contains_url text supplied_url = not (is_empty (all_url_candidates text supplied_url))

  -- `has_suspicious_link` of `detect_canonical_signals`
  unfoldable pub has_suspicious_link : String → Option String → Bool
  has_suspicious_link text supplied_url =
      any is_lexically_suspicious_url (all_url_candidates text supplied_url)

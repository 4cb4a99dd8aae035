-- ===== src/Lib.antt =====
-- FinShield AI: a verification of the rules that the service applies to its users' input.
--
-- Parts and files.
-- - The fraud analysis of a message. app/services/fraud_analysis.py (`analyze_fraud`) takes the
--   signals that app/domain/fraud/signals.py detects in the text (a parameter, which
--   Fraud/Detection/Detect fills), and asks
--   app/domain/fraud/policy.py for the risk level (`determine_risk_level`), the band of its score
--   and the actions (`select_actions`), the classification for the types of fraud, and
--   app/domain/official_sources.py for the sources of the actions (`sources_for_actions`). Files:
--   Fraud/Codes (codes and records of app/schemas/analysis.py), Fraud/Policies, Fraud/Tables and
--   Fraud/Minimums (the tables), Fraud/Levels, Fraud/Actions, Fraud/Types, Fraud/Public (the
--   public signals and `baseline_score`), Fraud/Catalog (the loaded JSON), Fraud/Analysis (the
--   service), RiskEngine (app/core/risk_engine.py). Child files hold the proofs.
-- - The detection of signals in a text, app/domain/fraud/signals.py: Fraud/Detection/Terms and
--   Fraud/Detection/Rules (its tables), Fraud/Detection/Search (words in a text),
--   Fraud/Detection/Clauses (the clauses that demand), Fraud/Detection/Context
--   (`_safe_context_suppresses`), Fraud/Detection/Links (`_is_lexically_suspicious_url`), and
--   Fraud/Detection/Detect (`_detect_by_rules`, `detect_canonical_signals`).
-- - The catalogue of official sources, used by both domains: OfficialSources.
-- - The deposit check. app/services/housing_deposit.py (`check_deposit_risk`) computes a debt ratio
--   and the legal protection (app/domain/housing/deposit_risk.py), detects signals, and chooses a
--   level and actions (app/domain/housing/policy.py). Files: Housing/Codes, Housing/Tables,
--   Housing/Ratio, Housing/Signals, Housing/Policy, Housing/Catalog, Housing/Deposit.
-- - The rate limits: app/services/rate_limits.py over the counters of
--   app/repositories/rate_limits.py. Files: RateLimit/Policies, RateLimit/Store (the in-memory
--   repository, whose state is a list of counters, and the interface that the service asks),
--   RateLimit/Service.
-- - Anonymous sessions: app/services/auth_sessions.py over the in-memory repository of
--   app/repositories/auth_sessions.py. Files: Sessions/Store (the sessions and the users as one
--   state), Sessions/Service, and Sessions/Owners, which also has the steps of the repository.
-- - The explanation of a verdict: app/services/llm. `explain_with_fallback` (runtime.py) asks the
--   models in their order; an attempt (`explain_analysis` of explanation.py) checks the pinned prompt
--   (contract.py), takes personal data (minimization.py) and instructions to the model (untrusted.py)
--   out of the message, and lets the answer through only as validation.py allows. Files:
--   Explanation/Outcomes, Explanation/Contract, Explanation/Minimization, Explanation/Untrusted,
--   Explanation/Validation, Explanation/Analysis, Explanation/Runtime.
-- - The limit on a request's body, app/core/request_limits.py: RequestLimit. The client's address among
--   trusted proxies, app/core/client_identity.py: ClientIdentity.
-- - The loan calculator, app/domain/finance/loan_calculator.py: Loan.
-- - The official products: app/domain/finance/product_filtering.py and product_identity.py, and
--   app/services/product_recommendation.py: Products.
-- - Data retention, app/services/data_retention.py, which cleans up the sessions and the rate limits:
--   Retention.
-- - Financial profiles: the in-memory repository of app/repositories/financial_profiles.py and its
--   service, Profiles, with what it promises in Profiles/Abstract.
-- - Base: shared names, sets as lists without repetition, sorting, and results of code that raises.
--
-- Conventions. A Python set is a list without repetition; the order of its elements is read by no
-- operation here but sorting. An exception is a result type of the model. A date is its ordinal, a
-- time a number of microseconds since the epoch. The Decimals of the debt ratio are a coefficient
-- and a power of ten, rounded to 28 digits half to even as the source's context does; the number of
-- digits is counted with fuel 40, more than two amounts of at most 10 ^ 15 need, and the digits of a
-- number are printed with fuel n + 1, more than it has.
--
-- Parameters. The regular expressions of the detection, `str.casefold`, `urlsplit`, `str.upper`,
-- `date.fromisoformat`, the HMAC of a rate limit's key, and the digest and the length of a session
-- token are parameters. A fresh token and a fresh user are arguments. So are the regular expressions
-- of the explanation layer, `str.strip`, the sha256 of a prompt, a provider's answers, `int` of a
-- text, the parsing of an IP address, and what the decimal module computes of a rate
-- or raises instead.
--
-- Not modelled: what the regular expressions match, the checks of the request schemas, the
-- web framework, the SQL repositories, the clients of the language models and of the product
-- provider, the cache of products, and the metrics of a profile. Nor are an application that raises
-- behind the limit on bodies, and the day after the last day of the calendar, which the schema of a
-- request does not admit.
pub mod Base
pub mod ClientIdentity
pub mod Explanation
pub mod Fraud
pub mod Housing
pub mod Loan
pub mod OfficialSources
pub mod Products
pub mod Profiles
pub mod RateLimit
pub mod RequestLimit
pub mod Retention
pub mod Risk
pub mod RiskEngine
pub mod Sessions

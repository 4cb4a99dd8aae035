-- ===== src/Fraud/Detection/Context.antt =====
-- app/domain/fraud/signals.py: the contexts in which a signal is suppressed.
use finshield_ai.Base.{
  String, Bool, true, false, not, ◌&&◌, ◌||◌, List, [], ◌∷◌, ◌==◌, mem, if◌then◌else◌,
}
use finshield_ai.Explanation.Untrusted.Spans.{Text, chars}
use finshield_ai.Fraud.Codes.{SignalCode, signal_code_eq}
use finshield_ai.Fraud.Detection.Search.{contains, any_term}
use finshield_ai.Fraud.Detection.Clauses.{names_reachable_counter, is_prevention_notice}
use finshield_ai.Fraud.Detection.{group_exemption, Readers}

-- `phrase in normalized`
unfoldable pub has_phrase : String → Text → Bool
has_phrase phrase normalized = contains normalized (chars phrase)

abbrev pub do_not_share : List String
do_not_share = "알려주지 마세요" ∷ "알려 주지 마세요" ∷ "알려 주지 마시" ∷ "공유하지 마세요" ∷ "전달하지 마세요" ∷ []

abbrev pub share_requests : List String
share_requests =
    "답장해" ∷ "보내 주세요" ∷ "불러 주세요" ∷ "입력해 주세요" ∷ "입력하세요" ∷ "전송해 주세요" ∷ "말해 주세요" ∷ "제출해 주세요" ∷ []

abbrev pub transfer_requests : List String
transfer_requests = "송금해" ∷ "입금해" ∷ "돈을 보내" ∷ "보호계좌로 보내" ∷ "안전계좌로 보내" ∷ []

abbrev pub deposit_protection : List String
deposit_protection = "예금자보호" ∷ "예금자 보호" ∷ "예금보험공사" ∷ []

abbrev pub do_not_install : List String
do_not_install = "설치하지 마세요" ∷ "허용하지 마세요" ∷ "내려받지 마세요" ∷ "다운로드하지 마세요" ∷ "다운로드 하지 마세요" ∷ []

abbrev pub install_requests : List String
install_requests = "설치해 주세요" ∷ "설치하세요" ∷ "원격 접속을 허용하세요" ∷ "화면 공유를 켜 주세요" ∷ []

-- The case of `loan_policy_offer`.
unfoldable pub suppresses_loan_offer : Bool → Text → Bool
unfolding has_phrase
suppresses_loan_offer reachable normalized =
    if has_phrase "상품을 비교" normalized && has_phrase "공식 금리" normalized
    then not (has_phrase "보증료 입금" normalized)
    else if has_phrase "보증료 입금" normalized
    then false
    else reachable

-- `_safe_context_suppresses`, after the notice of prevention and with what it asks of the text.
unfoldable pub suppresses_code : SignalCode → Bool → Bool → Text → Bool
unfolding suppresses_loan_offer has_phrase
suppresses_code code reachable exempts_group normalized =
    if mem code (SignalCode.credential_request ∷ SignalCode.account_access_request ∷ [])
    then any_term do_not_share normalized && not (any_term share_requests normalized)
    else if code == SignalCode.authority_impersonation && reachable
    then true
    else if code == SignalCode.secrecy_isolation && exempts_group
    then true
    else if mem code (SignalCode.authority_impersonation ∷ SignalCode.money_transfer_request ∷ [])
    then has_phrase "요구하지 않습니다" normalized && not (any_term transfer_requests normalized)
    else if code == SignalCode.guaranteed_return_offer
    then any_term deposit_protection normalized
    else if code == SignalCode.loan_policy_offer
    then suppresses_loan_offer reachable normalized
    else if mem code (SignalCode.app_install_request ∷ SignalCode.remote_control_request ∷ [])
    then any_term do_not_install normalized && not (any_term install_requests normalized)
    else if code == SignalCode.card_delivery_claim
    then reachable || (has_phrase "제가 신청한" normalized && has_phrase "공식 앱" normalized)
    else false

-- `_safe_context_suppresses`
unfoldable pub safe_context_suppresses : Readers → SignalCode → Text → Bool
safe_context_suppresses readers code normalized =
    if is_prevention_notice readers normalized
    then true
    else suppresses_code code (names_reachable_counter readers normalized)
        (readers.search group_exemption normalized) normalized

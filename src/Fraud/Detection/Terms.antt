-- ===== src/Fraud/Detection/Terms.antt =====
-- app/domain/fraud/signals.py: the words and endings that the detection of signals looks for.
use finshield_ai.Base.{String, List, [], ◌∷◌, ◌++◌}
use finshield_ai.Fraud.Codes.{SignalCode}

-- `OFFICIAL_VERIFICATION_PHRASES`
abbrev pub official_verification_phrases : List String
official_verification_phrases =
    "공식 누리집" ∷ "공식 홈페이지" ∷ "공식 웹사이트" ∷ "공식 창구" ∷ "공식 대표번호" ∷ "대표번호로 확인" ∷ "대표번호로 직접" ∷ []

-- `PREVENTION_STATEMENT_MARKERS`
abbrev pub prevention_statement_markers : List String
prevention_statement_markers =
    "요구하지 않" ∷ "요청하지 않" ∷ "요구하는 일은 없" ∷ "묻지 않" ∷ "물어보지 않" ∷ "보내지 않" ∷ "알려 드리지 않" ∷ "존재하지 않"
    ∷ "안내하지 않" ∷ "추천하지 않" ∷ "권유하지 않" ∷ "운영하지 않" ∷ "보장하지 않" ∷ "발송하지 않" ∷ []

-- `DEMAND_MARKERS`
abbrev pub demand_markers : List String
demand_markers =
    "주세요" ∷ "주십시오" ∷ "주시기" ∷ "주시면" ∷ "주실" ∷ "주시길" ∷ "주셔야" ∷ "부탁" ∷ "빌려" ∷ "알려" ∷ "불러" ∷ "입력" ∷ "회신"
    ∷ "제출해" ∷ "등록해" ∷ "전송" ∷ "요청합니다" ∷ "요청드립니다" ∷ []

-- `MONEY_OBJECT_TERMS`
abbrev pub money_object_terms : List String
money_object_terms =
    "돈" ∷ "금액" ∷ "자금" ∷ "대금" ∷ "현금" ∷ "입금" ∷ "송금" ∷ "잔액" ∷ "수익금" ∷ "수수료" ∷ "이체" ∷ "정산금" ∷ []

-- `RECEIPT_MARKERS`
abbrev pub receipt_markers : List String
receipt_markers =
    "입금된" ∷ "입금되었" ∷ "입금됐" ∷ "들어온" ∷ "들어왔" ∷ "들어갔" ∷ "수령한" ∷ "수령하신" ∷ "받으신" ∷ "받은 돈" ∷ "송금된" ∷ "보내신"
    ∷ "잘못 보냈" ∷ "잘못 보낸" ∷ "착오송금" ∷ "오입금" ∷ "정산금" ∷ "정산됩니다" ∷ "환전 대금" ∷ []

-- `INVESTMENT_CONTEXT_TERMS`
abbrev pub investment_context_terms : List String
investment_context_terms =
    "종목" ∷ "매수" ∷ "매도" ∷ "매매" ∷ "장 마감" ∷ "시황" ∷ "종가" ∷ "수익률" ∷ "수익 나" ∷ "수익 인증" ∷ "코인" ∷ "비트코인"
    ∷ "급등" ∷ "상한가" ∷ "단타" ∷ "시드" ∷ "리딩" ∷ "애널리스트" ∷ "차트" ∷ "공모주" ∷ "선물 거래" ∷ "원금 보장" ∷ "투자금" ∷ "재테크"
    ∷ []

-- `SENSITIVE_DEMAND_TERMS`
abbrev pub sensitive_demand_terms : List String
sensitive_demand_terms =
    "본인 인증" ∷ "본인인증" ∷ "본인확인" ∷ "본인 확인" ∷ "재인증" ∷ "계정 잠금 해제" ∷ "계정 해제" ∷ "링크" ∷ "담당자 번호" ∷ "안내 번호"
    ∷ "아래 번호" ∷ "아래 연락처" ∷ "직통 번호" ∷ "전용 번호" ∷ []

-- `CHANNEL_REFERRAL_VERBS`
abbrev pub channel_referral_verbs : List String
channel_referral_verbs =
    "가능" ∷ "확인" ∷ "조회" ∷ "열람" ∷ "문의" ∷ "신청" ∷ "처리" ∷ "접수" ∷ "출력" ∷ "방문" ∷ "지참" ∷ "진행" ∷ "설치" ∷ "내려받"
    ∷ "다운로드" ∷ "연락" ∷ []

-- `DIRECT_IMPERATIVE_ENDINGS`
abbrev pub direct_imperative_endings : List String
direct_imperative_endings = "세요" ∷ "십시오" ∷ "시오" ∷ "시길" ∷ "시기 바랍" ∷ []

-- `PROHIBITION_ENDINGS`
abbrev pub prohibition_endings : List String
prohibition_endings = "지 마" ∷ "지말" ∷ "지 말" ∷ []

-- `MONEY_DESTINATION_TERMS`
abbrev pub money_destination_terms : List String
money_destination_terms = "계좌로" ∷ "계좌에" ∷ "통장으로" ∷ "통장에" ∷ "계좌번호로" ∷ []

-- `ISOLATION_SECRET_OBJECTS`
abbrev pub isolation_secret_objects : List String
isolation_secret_objects = "인증번호" ∷ "비밀번호" ∷ "보안카드" ∷ "공인인증" ∷ "일회용" ∷ "otp" ∷ []

-- `SENSITIVE_REQUEST_SIGNALS`
abbrev pub sensitive_request_signals : List SignalCode
sensitive_request_signals =
    SignalCode.account_access_request ∷ SignalCode.app_install_request
    ∷ SignalCode.card_delivery_claim ∷ SignalCode.credential_request
    ∷ SignalCode.money_transfer_request ∷ SignalCode.receive_and_forward_money
    ∷ SignalCode.remote_control_request ∷ SignalCode.secrecy_isolation ∷ []

-- `_ACCOUNT_AUTHORITY_TERMS`
abbrev pub account_authority_terms : List String
account_authority_terms = "계좌" ∷ "뱅킹" ∷ "통장" ∷ []

-- `_AUTHORITY_HANDOVER_TERMS`
abbrev pub authority_handover_terms : List String
authority_handover_terms = "에게 위임" ∷ "쪽으로 위임" ∷ "에게 양도" ∷ "넘겨" ∷ "넘기" ∷ []

-- The sequences of one account term.
unfoldable pub handover_sequences : String → List String → List (List String)
handover_sequences account [] = []
handover_sequences account (handover ∷ handovers) =
    (account ∷ "권한" ∷ handover ∷ []) ∷ handover_sequences account handovers

unfoldable pub sequences_of : List String → List (List String)
unfolding handover_sequences
sequences_of [] = []
sequences_of (account ∷ accounts) =
    handover_sequences account authority_handover_terms ++ sequences_of accounts

-- `ACCOUNT_AUTHORITY_SEQUENCES`
unfoldable pub account_authority_sequences : List (List String)
unfolding sequences_of
account_authority_sequences = sequences_of account_authority_terms

-- ===== src/Housing/Catalog.antt =====
-- app/data/housing/official_sources.json: the catalogue of the housing domain, as loaded.
use finshield_ai.Base.{List, [], ◌∷◌}
use finshield_ai.OfficialSources.{OfficialSource}

unfoldable pub housing_sources : List OfficialSource
housing_sources =
    record {
      source_id = "housing_lease_act_article3";
      organization = "국가법령정보센터";
      title = "주택임대차보호법 제3조 대항력 등";
      source_url =
          "https://www.law.go.kr/lsLinkCommonInfo.do?lsJoLnkSeq=1018577211&chrClsCd=010202&ancYnChk=";
      retrieved_at = "2026-08-19";
      supports = "REPORT_MOVE_IN" ∷ "KEEP_OPPOSING_POWER" ∷ [];
    }
    ∷ record {
      source_id = "housing_lease_act_article3_2";
      organization = "국가법령정보센터";
      title = "주택임대차보호법 제3조의2 보증금의 회수";
      source_url =
          "https://www.law.go.kr/LSW/lsLinkProc.do?lsNm=%EC%A3%BC%ED%83%9D%EC%9E%84%EB%8C%80%EC%B0%A8%EB%B3%B4%ED%98%B8%EB%B2%95&joNo=000302&mode=11";
      retrieved_at = "2026-08-20";
      supports = "GET_CONFIRMED_DATE" ∷ [];
    }
    ∷ record {
      source_id = "national_tax_collection_act_article109";
      organization = "국가법령정보센터";
      title = "국세징수법 제109조 미납국세 등의 열람";
      source_url =
          "https://www.law.go.kr/LSW/lsLinkProc.do?lsNm=%EA%B5%AD%EC%84%B8%EC%A7%95%EC%88%98%EB%B2%95&joNo=010900&mode=11";
      retrieved_at = "2026-08-20";
      supports = "CHECK_TAX_ARREARS" ∷ [];
    }
    ∷ record {
      source_id = "local_tax_collection_act_article6";
      organization = "국가법령정보센터";
      title = "지방세징수법 제6조 미납지방세 등의 열람";
      source_url =
          "https://www.law.go.kr/LSW/lsLinkProc.do?lsNm=%EC%A7%80%EB%B0%A9%EC%84%B8%EC%A7%95%EC%88%98%EB%B2%95&joNo=000600&mode=11";
      retrieved_at = "2026-08-20";
      supports = "CHECK_TAX_ARREARS" ∷ [];
    }
    ∷ record {
      source_id = "easylaw_opposing_power";
      organization = "법제처 찾기쉬운 생활법령정보";
      title = "주택임대차 > 보증금의 보호 > 대항력 및 우선변제권 취득";
      source_url =
          "https://easylaw.go.kr/CSP/CnpClsMain.laf?popMenu=ov&csmSeq=629&ccfNo=2&cciNo=3&cnpClsNo=1";
      retrieved_at = "2026-08-19";
      supports = "REPORT_MOVE_IN" ∷ "GET_CONFIRMED_DATE" ∷ [];
    }
    ∷ record {
      source_id = "easylaw_lease_registration_order";
      organization = "법제처 찾기쉬운 생활법령정보";
      title = "주택임대차 > 보증금의 회수 > 임차권등기명령 신청";
      source_url =
          "https://easylaw.go.kr/CSP/CnpClsMain.laf?popMenu=ov&csmSeq=629&ccfNo=5&cciNo=2&cnpClsNo=1";
      retrieved_at = "2026-08-19";
      supports = "APPLY_LEASE_REGISTRATION_ORDER" ∷ "KEEP_OPPOSING_POWER" ∷ [];
    }
    ∷ record {
      source_id = "easylaw_property_registry";
      organization = "법제처 찾기쉬운 생활법령정보";
      title = "부동산/임대차 > 부동산등기부 확인";
      source_url =
          "https://www.easylaw.go.kr/CSP/OnhunqueansInfoRetrieve.laf?onhunqnaAstSeq=84&onhunqueSeq=2746";
      retrieved_at = "2026-08-19";
      supports = "CHECK_REGISTRY" ∷ "VERIFY_OWNER_IDENTITY" ∷ [];
    }
    ∷ record {
      source_id = "khug_deposit_return_guarantee";
      organization = "주택도시보증공사";
      title = "전세보증금반환보증 안내";
      source_url = "https://www.khug.or.kr/khmb/m/hg/gg/hggg000002_0.jsp";
      retrieved_at = "2026-08-19";
      supports = "JOIN_DEPOSIT_GUARANTEE" ∷ [];
    }
    ∷ record {
      source_id = "jeonse_fraud_victim_act_article3";
      organization = "국가법령정보센터";
      title = "전세사기피해자 지원 및 주거안정에 관한 특별법 제3조 전세사기피해자의 요건";
      source_url =
          "https://law.go.kr/LSW/lsLinkCommonInfo.do?ancYnChk=&chrClsCd=010202&lsJoLnkSeq=1018971415";
      retrieved_at = "2026-08-19";
      supports = "CHECK_VICTIM_SUPPORT" ∷ [];
    }
    ∷ []

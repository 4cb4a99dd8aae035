-- ===== src/ClientIdentity/Tests.antt =====
-- A client that writes an address of its own into the header, and the theorem at it.
use finshield_ai.Base.{Parsed, number, ◌≡◌, refl, String, none, some, [], ◌∷◌, ◌++◌, arith}
use finshield_ai.OfficialSources.{string_eq}
use finshield_ai.Explanation.Untrusted.Spans.{Text, chars}
use finshield_ai.ClientIdentity.{
  bounded_hops, setting_or, read_trusted_proxy_hops, resolve_client_ip, forwarded_chain,
  forwarded_entries, stripped, split_commas, prefix_first,
}
use finshield_ai.ClientIdentity.Forged.{resolve_client_ip-forged}

abbrev same : Text → Text
same text = text

abbrev one_hop : String → Parsed
one_hop value = number 1

resolve_client_ip-forged_example :
    resolve_client_ip same some one_hop none (record {
      headers =
          (("x-forwarded-for", chars "9.9.9.9") ∷ [])
          ++ (("x-forwarded-for", chars "8.8.8.8" ++ ("," ∷ chars "1.2.3.4")) ∷ []);
      client = none;
    })
    ≡ resolve_client_ip same some one_hop none
        (record { headers = ("x-forwarded-for", chars "1.2.3.4") ∷ []; client = none })
unfolding read_trusted_proxy_hops bounded_hops setting_or chars forwarded_chain forwarded_entries
    stripped split_commas prefix_first
resolve_client_ip-forged_example =
    resolve_client_ip-forged same some one_hop none 1 none
      (("x-forwarded-for", chars "9.9.9.9") ∷ []) (chars "8.8.8.8") (chars "1.2.3.4") (",") refl
      refl (omega arith)

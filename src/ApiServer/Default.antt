-- ===== src/ApiServer/Default.antt =====
-- DefaultTemplate: internal/apiserver/template.go.
use singbox_operator.Base.{String, join, List, [], ◌∷◌}

abbrev lines : List String → String
lines [] = ""
lines (l ∷ []) = l
lines (l ∷ m ∷ ls) = join l (join "\n" (lines (m ∷ ls)))

unfoldable pub default_template : String
default_template = lines (
    "{" ∷ "  \"log\": {\"level\": \"info\"}," ∷ "  \"dns\": {" ∷ "    \"servers\": ["
    ∷ "      {\"type\": \"https\", \"tag\": \"proxy-dns\", \"server\": \"1.1.1.1\"},"
    ∷ "      {\"type\": \"hosts\", \"path\": [], \"predefined\": {}, \"tag\": \"block\"},"
    ∷ "      {\"type\": \"local\", \"tag\": \"local\"}" ∷ "    ]," ∷ "    \"rules\": ["
    ∷ "      {\"rule_set\": \"geosite-cn\", \"server\": \"local\"}" ∷ "    ],"
    ∷ "    \"final\": \"proxy-dns\"," ∷ "    \"strategy\": \"ipv4_only\"" ∷ "  },"
    ∷ "  \"inbounds\": [" ∷ "    {" ∷ "      \"type\": \"tun\"," ∷ "      \"tag\": \"tun-in\","
    ∷ "      \"address\": \"172.19.0.1/30\"," ∷ "      \"auto_route\": true,"
    ∷ "      \"strict_route\": true," ∷ "      \"stack\": \"gvisor\"," ∷ "      \"platform\": {"
    ∷ "        \"http_proxy\": {" ∷ "          \"enabled\": true,"
    ∷ "          \"server\": \"127.0.0.1\"," ∷ "          \"server_port\": 7891" ∷ "        }"
    ∷ "      }" ∷ "    },"
    ∷ "    {\"type\": \"socks\", \"tag\": \"socks-in\", \"listen\": \"127.0.0.1\", \"listen_port\": 7890},"
    ∷ "    {\"type\": \"http\", \"tag\": \"http-in\", \"listen\": \"127.0.0.1\", \"listen_port\": 7891}"
    ∷ "  ]," ∷ "  \"outbounds\": []," ∷ "  \"route\": {" ∷ "    \"rules\": ["
    ∷ "      {\"action\": \"sniff\"},"
    ∷ "      {\"protocol\": \"dns\", \"action\": \"hijack-dns\"},"
    ∷ "      {\"rule_set\": [\"geosite-cn\"], \"outbound\": \"direct\"},"
    ∷ "      {\"ip_is_private\": true, \"outbound\": \"direct\"},"
    ∷ "      {\"rule_set\": [\"category-ads-all\"], \"action\": \"reject\"}" ∷ "    ],"
    ∷ "    \"rule_set\": [" ∷ "      {" ∷ "        \"tag\": \"geosite-cn\","
    ∷ "        \"type\": \"remote\"," ∷ "        \"format\": \"binary\","
    ∷ "        \"url\": \"https://fastly.jsdelivr.net/gh/SagerNet/sing-geosite@rule-set/geosite-cn.srs\","
    ∷ "        \"http_client\": {\"detour\": \"direct\"}" ∷ "      }," ∷ "      {"
    ∷ "        \"tag\": \"category-ads-all\"," ∷ "        \"type\": \"remote\","
    ∷ "        \"format\": \"binary\","
    ∷ "        \"url\": \"https://fastly.jsdelivr.net/gh/SagerNet/sing-geosite@rule-set/geosite-category-ads-all.srs\","
    ∷ "        \"http_client\": {\"detour\": \"direct\"}" ∷ "      }" ∷ "    ],"
    ∷ "    \"final\": \"direct\"," ∷ "    \"auto_detect_interface\": true,"
    ∷ "    \"default_domain_resolver\": \"proxy-dns\"" ∷ "  },"
    ∷ "  \"experimental\": {\"clash_api\": {\"default_mode\": \"Auto\"}}" ∷ "}" ∷ [])

-- ===== src/Tests/Links.antt =====
-- Spliit/Links.antt on links that users paste.
use spliit_mcp.Prelude.{◌≡◌, refl}
use spliit_mcp.Spliit.Links.{derive_base_url, web_url, host_of, extract_group_id}

derive_group_link :
    derive_base_url " https://spliit.app/groups/abc/expenses?x=1#top"
    ≡ "https://spliit.app/api/trpc"
unfolding derive_base_url
derive_group_link = refl

derive_subpath :
    derive_base_url "HTTPS://me@Example.com:8443/spliit/groups/a%20b"
    ≡ "https://Example.com:8443/spliit/api/trpc"
unfolding derive_base_url
derive_subpath = refl

derive_other_scheme : derive_base_url "ftp://spliit.app/groups/abc" ≡ ""
unfolding derive_base_url
derive_other_scheme = refl

derive_bare_id : derive_base_url "abc" ≡ ""
unfolding derive_base_url
derive_bare_id = refl

web_of_subpath :
    web_url "https://example.com/spliit/api/trpc/" "a b" ≡ "https://example.com/spliit/groups/a%20b"
unfolding web_url
web_of_subpath = refl

web_of_bad : web_url "spliit.app/api/trpc" "abc" ≡ ""
unfolding web_url
web_of_bad = refl

host_of_subpath : host_of "https://example.com/spliit/api/trpc" ≡ "example.com/spliit"
unfolding host_of
host_of_subpath = refl

host_of_bad : host_of "https://[::1" ≡ "https://[::1"
unfolding host_of
host_of_bad = refl

extract_link : extract_group_id "https://spliit.app/groups/abc/expenses" ≡ "abc"
unfolding extract_group_id
extract_link = refl

extract_escaped : extract_group_id "https://spliit.app/groups/%c3%a9" ≡ "é"
unfolding extract_group_id
extract_escaped = refl

extract_no_id : extract_group_id "https://spliit.app/groups/" ≡ "https://spliit.app/groups/"
unfolding extract_group_id
extract_no_id = refl

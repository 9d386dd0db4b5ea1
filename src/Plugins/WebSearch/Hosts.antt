-- ===== src/Plugins/WebSearch/Hosts.antt =====
-- The hosts that a search asks.
use ai_garage.Common.{ℕ, ◌≡◌, ◌⊎◌, inl, inr, refl, ◌++◌, Text, text, clamp, show_nat}
use ai_garage.Json.{Json}
use ai_garage.Router.{url_domain, host_only}
use ai_garage.Router.Hosts.{host_of_url}
use ai_garage.Plugins.WebSearch.{
  Http, wikipedia_url, duckduckgo_url, urlencoding, search_wikipedia, search_duckduckgo,
  execute_search,
}

abbrev pub wikipedia_host : Text
wikipedia_host = text "en.wikipedia.org"

abbrev pub duckduckgo_host : Text
duckduckgo_host = text "api.duckduckgo.com"

-- The URL belongs to one of the two services, as the firewall reads its host.
abbrev pub IsService : Text → Type 0
IsService u =
    (host_only (url_domain u) ≡ wikipedia_host) ⊎ (host_only (url_domain u) ≡ duckduckgo_host)

wikipedia_url-host :
    (query : Text) (limit : ℕ) → host_only (url_domain (wikipedia_url query limit)) ≡ wikipedia_host
unfolding wikipedia_url text
wikipedia_url-host query limit =
    host_of_url (text "https") wikipedia_host
      (text "/w/api.php?action=query&list=search&srsearch="
        ++ (urlencoding query ++ (text "&format=json&utf8=1&srlimit=" ++ show_nat limit)))
      refl refl refl refl

duckduckgo_url-host :
    (query : Text) → host_only (url_domain (duckduckgo_url query)) ≡ duckduckgo_host
unfolding duckduckgo_url text
duckduckgo_url-host query =
    host_of_url (text "https") duckduckgo_host
      (text "/?q=" ++ (urlencoding query ++ text "&format=json&no_html=1&skip_disambig=1")) refl
      refl refl refl

module _ (j : Json) where
  -- A search depends on the network only in what the hosts en.wikipedia.org and api.duckduckgo.com
  -- answer: two networks that agree on the URLs of these give the same results, for every query.
  pub execute_search_hosts :
      (http other : Http j.Value) (query : Text) (max_results : ℕ)
      → ((u : Text) → IsService u → http u ≡ other u)
      → execute_search j http query max_results ≡ execute_search j other query max_results
  unfolding execute_search search_wikipedia search_duckduckgo
  execute_search_hosts http other query max_results agree =
      let limit = clamp 1 10 max_results in
      rw
        (
          agree (wikipedia_url query limit) (inl (wikipedia_url-host query limit)),
          agree (duckduckgo_url query) (inr (duckduckgo_url-host query)),
        )
        refl

-- ===== src/Plugins/WebSearch/Requests.antt =====
-- crates/plugins/chassis-tools-websearch/src/main.rs: the requests of the plugin.
use ai_garage.Common.{
  ◌∷◌, [], ◌++◌, ◌||◌, none, some, Text, text, text_eq, trim, length, map, unwrap_or, Result, ok,
  err, if◌then◌else◌,
}
use ai_garage.Json.{Json}
use ai_garage.Manifest.{is_empty}
use ai_garage.Protocol.RpcError
use ai_garage.Protocol.JsonRpc.{Request, Response, success, error_response}
use ai_garage.Protocol.Lifecycle.{PluginAnnounceManifest, PluginAnnounceResult}
use ai_garage.Plugins.Serving.{
  unknown_method, ◌>>?◌, announcement, get_str, call_method, call_payload, lifecycle,
}
use ai_garage.Plugins.WebSearch.Search.{
  SearchResult, PageContent, Http, execute_search, fetch_page_content,
}

unfoldable pub websearch_manifest : (V : Type 0) → PluginAnnounceManifest V
unfolding announcement
websearch_manifest V =
    announcement V (text "chassis.tools.websearch") (text "Free Web Search & RAG Tool")
      (text
        "Free web search and information retrieval engine (DuckDuckGo & Wikipedia) for RAG agent workflows")
      (text "tools.search") (text "web_search" ∷ text "fetch_page" ∷ []) []

module _ (j : Json) (announced : PluginAnnounceResult j.Value → j.Value) (http : Http j.Value) where
  unfoldable pub result_value : SearchResult → j.Value
  result_value r = j.object (
      (text "title", j.string r.title)
      ∷ (text "snippet", j.string r.snippet)
      ∷ (text "url", j.string r.url)
      ∷ (text "source", j.string r.source)
      ∷ [])

  unfoldable pub page_value : PageContent → j.Value
  page_value p = j.object (
      (text "url", j.string p.url)
      ∷ (text "title", j.string p.title)
      ∷ (text "content", j.string p.content)
      ∷ (text "bytes", j.number p.bytes)
      ∷ [])

  unfoldable pub web_search : Request j.Value → j.Value → Response j.Value
  unfolding execute_search result_value get_str
  web_search req payload =
      let query = unwrap_or (get_str j payload (text "query")) [] in
      let results =
        execute_search j http query
          (unwrap_or (j.get payload (text "max_results") >>? (λ m. j.as_u64 m)) 5) in
      if is_empty (trim query)
      then error_response req.id
          (RpcError.invalid_params (text "Parameter 'query' cannot be empty"))
      else success req.id (
          j.object (
            (text "query", j.string query)
            ∷ (text "results", j.array (map result_value results))
            ∷ (text "count", j.number (length results))
            ∷ []))

  unfoldable pub page_response : Request j.Value → Result Text PageContent → Response j.Value
  unfolding page_value
  page_response req (ok content) = success req.id (page_value content)
  page_response req (err e) = error_response req.id (RpcError.internal_error e)

  unfoldable pub fetch_page : Request j.Value → j.Value → Response j.Value
  unfolding fetch_page_content page_response get_str
  fetch_page req payload = elim (get_str j payload (text "url")) [
    | none ↦ error_response req.id (RpcError.invalid_params (text "Missing 'url' parameter"))
    | some url ↦ page_response req (fetch_page_content j http url)
  ]

  unfoldable pub handle_request : Request j.Value → Response j.Value
  unfolding web_search fetch_page lifecycle call_method call_payload websearch_manifest
  handle_request req =
      elim (lifecycle j unknown_method announced (websearch_manifest j.Value) req) [
        | some resp ↦ resp
        | none ↦
            let method = call_method j req.params in
            let payload = call_payload j req.params in
            if text_eq method (text "web_search") || text_eq method (text "search")
            then web_search req payload
            else if text_eq method (text "fetch_page")
            then fetch_page req payload
            else error_response req.id (
                RpcError.method_not_found (
                  text "Unknown capability method '"
                  ++ method
                  ++ text "' on capability 'tools.search'"))
      ]

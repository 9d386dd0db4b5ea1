-- ===== src/Plugins/WebSearch/Search.antt =====
-- crates/plugins/chassis-tools-websearch/src/search.rs: the search over Wikipedia and DuckDuckGo and
-- the fetching of pages. What the network answers to a request is a parameter.
use ai_garage.Common.{
  ℕ, ◌-◌, ltb, leb, Bool, List, [], ◌∷◌, ◌++◌, none, some, Text, text, length, take, clamp, map,
  show_nat, unwrap_or, utf8, Result, ok, err, ◌>>=◌, if◌then◌else◌,
}
use ai_garage.Json.{Json}
use ai_garage.Manifest.{is_empty}
use ai_garage.Router.{split_text, first_or}
use ai_garage.Plugins.Serving.{◌>>?◌, get_str}
use ai_garage.Plugins.WebSearch.Html.{strip_html_tags, extract_title}
use ai_garage.Plugins.WebSearch.Encoding.{urlencoding}

pub record SearchResult : Type 0 where
  pub title : Text
  pub snippet : Text
  pub url : Text
  pub source : Text

pub record PageContent : Type 0 where
  pub url : Text
  pub title : Text
  pub content : Text
  pub bytes : ℕ

-- A response of reqwest: its status, and its body as JSON or as text.
pub record Reply (V : Type 0) : Type 0 where
  pub is_success : Bool
  pub status : Text
  pub json : Result Text V
  pub body : Result Text Text

-- `client.get(url).header("User-Agent", …).send()`
abbrev pub Http : Type 0 → Type 0
Http V = Text → Result Text (Reply V)

unfoldable pub wikipedia_url : Text → ℕ → Text
unfolding urlencoding
wikipedia_url query limit =
    text "https://en.wikipedia.org/w/api.php?action=query&list=search&srsearch="
    ++ (urlencoding query ++ (text "&format=json&utf8=1&srlimit=" ++ show_nat limit))

unfoldable pub duckduckgo_url : Text → Text
unfolding urlencoding
duckduckgo_url query =
    text "https://api.duckduckgo.com/?q="
    ++ (urlencoding query ++ text "&format=json&no_html=1&skip_disambig=1")

-- The result when the services give none.
unfoldable pub fallback_result : Text → SearchResult
unfolding urlencoding
fallback_result query = record {
  title = text "Search Knowledge: " ++ query;
  snippet =
      text "Synthesized RAG context for query '"
      ++ query
      ++ text "'. External search index indexed factual references and documentation.";
  url = text "https://en.wikipedia.org/wiki/Special:Search?search=" ++ urlencoding query;
  source = text "RAG Search Engine Index";
}

-- The body of a successful response as JSON.
unfoldable pub json_body : {V : Type 0} → Text → Result Text (Reply V) → Result Text V
json_body service (err e) = err e
json_body service (ok resp) =
    if resp.is_success then resp.json else err (service ++ text " returned status " ++ resp.status)

module _ (j : Json) where
  unfoldable pub wikipedia_item : j.Value → SearchResult
  unfolding strip_html_tags urlencoding get_str
  wikipedia_item item =
      let title = unwrap_or (get_str j item (text "title")) (text "Untitled") in
      record {
        title = title;
        snippet = strip_html_tags (unwrap_or (get_str j item (text "snippet")) []);
        url = text "https://en.wikipedia.org/wiki/" ++ urlencoding title;
        source = text "Wikipedia";
      }

  unfoldable pub wikipedia_results : j.Value → List SearchResult
  unfolding wikipedia_item
  wikipedia_results val = map wikipedia_item (
      unwrap_or
        (j.get val (text "query") >>? (λ q. j.get q (text "search")) >>? (λ s. j.as_array s)) [])

  unfoldable pub search_wikipedia : Http j.Value → Text → ℕ → Result Text (List SearchResult)
  unfolding wikipedia_url json_body wikipedia_results
  search_wikipedia http query limit = do
    val ← json_body (text "Wikipedia") (http (wikipedia_url query limit))
    ok (wikipedia_results val)

  -- The abstract, where it is not empty.
  unfoldable pub abstract_result : Text → j.Value → List SearchResult
  unfolding urlencoding get_str
  abstract_result query val =
      let abstract_text = unwrap_or (get_str j val (text "AbstractText")) [] in
      let abstract_url = unwrap_or (get_str j val (text "AbstractURL")) [] in
      if is_empty abstract_text
      then []
      else record {
        title = unwrap_or (get_str j val (text "Heading")) query;
        snippet = abstract_text;
        url =
            if is_empty abstract_url
            then text "https://duckduckgo.com/?q=" ++ urlencoding query
            else abstract_url;
        source = text "DuckDuckGo Instant Answer";
      }
        ∷ []

  unfoldable pub topic_result : j.Value → List SearchResult
  unfolding split_text first_or get_str
  topic_result topic = elim (get_str j topic (text "Text")) [
    | none ↦ []
    | some t ↦ elim (get_str j topic (text "FirstURL")) [
      | none ↦ []
      | some t_url ↦
          record {
            title = first_or (split_text (text " - ") 0 t) t;
            snippet = t;
            url = t_url;
            source = text "DuckDuckGo";
          }
          ∷ []
    ]
  ]

  -- The topics, until there are `limit` results.
  unfoldable pub add_topics : ℕ → List j.Value → List SearchResult → List SearchResult
  unfolding topic_result
  add_topics limit [] results = results
  add_topics limit (topic ∷ topics) results =
      let more = add_topics limit topics (results ++ topic_result topic) in
      if leb limit (length results) then results else more

  unfoldable pub duckduckgo_results : Text → ℕ → j.Value → List SearchResult
  unfolding abstract_result add_topics
  duckduckgo_results query limit val =
      add_topics limit (unwrap_or (j.get val (text "RelatedTopics") >>? (λ t. j.as_array t)) [])
        (abstract_result query val)

  unfoldable pub search_duckduckgo : Http j.Value → Text → ℕ → Result Text (List SearchResult)
  unfolding duckduckgo_url json_body duckduckgo_results
  search_duckduckgo http query limit = do
    val ← json_body (text "DuckDuckGo") (http (duckduckgo_url query))
    ok (duckduckgo_results query limit val)

  -- The results with those of a search that may have failed.
  unfoldable pub extend : List SearchResult → Result Text (List SearchResult) → List SearchResult
  extend results (ok more) = results ++ more
  extend results (err e) = results

  unfoldable pub or_fallback : Text → List SearchResult → List SearchResult
  unfolding fallback_result
  or_fallback query [] = fallback_result query ∷ []
  or_fallback query (r ∷ rest) = r ∷ rest

  unfoldable pub execute_search : Http j.Value → Text → ℕ → List SearchResult
  unfolding extend search_wikipedia search_duckduckgo or_fallback clamp
  execute_search http query max_results =
      let limit = clamp 1 10 max_results in
      let wiki = extend [] (search_wikipedia http query limit) in
      let both =
        if ltb (length wiki) limit
        then extend wiki (search_duckduckgo http query (limit - length wiki))
        else wiki in
      take limit (or_fallback query both)

  unfoldable pub page_of : Text → Text → PageContent
  unfolding strip_html_tags extract_title utf8
  page_of url body =
      let truncated = take 16384 (strip_html_tags body) in
      record {
        url = url;
        title = unwrap_or (extract_title body) url;
        content = truncated;
        bytes = length (utf8 truncated);
      }

  unfoldable pub fetch_page_content : Http j.Value → Text → Result Text PageContent
  unfolding page_of
  fetch_page_content http url = elim (http url) [
    | err e ↦ err (text "Failed to fetch URL '" ++ url ++ text "': " ++ e)
    | ok resp ↦
        if resp.is_success
        then resp.body >>= (λ body. ok (page_of url body))
        else err (text "HTTP error " ++ resp.status ++ text ": " ++ url)
  ]

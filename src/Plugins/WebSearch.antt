-- ===== src/Plugins/WebSearch.antt =====
-- crates/plugins/chassis-tools-websearch/src: search over two services, and the text of web pages.
mod Html
mod Encoding
mod Search
mod Requests
pub mod Limits
pub mod Decoding
pub mod Tidy
pub mod Hosts
pub use Html.*
pub use Encoding.*
pub use Search.*
pub use Requests.*
unfoldable pub use Html.{strip_tags, replace, unescape, normalize, strip_html_tags, extract_title}
unfoldable pub use Encoding.{is_unreserved, hex_upper, encode_byte, encode_bytes, urlencoding}
unfoldable pub use Search.{
  wikipedia_url, duckduckgo_url, fallback_result, json_body, wikipedia_item, wikipedia_results,
  search_wikipedia, abstract_result, topic_result, add_topics, duckduckgo_results,
  search_duckduckgo, extend, or_fallback, execute_search, page_of, fetch_page_content,
}
unfoldable pub use Requests.{
  websearch_manifest, result_value, page_value, web_search, page_response, fetch_page,
  handle_request,
}

-- ===== src/Plugins/WebSearch/Limits.antt =====
-- How many results a search gives.
use ai_garage.Common.{
  ℕ, ◌≤◌, zero, suc, List, [], ◌∷◌, Text, length, take, length-take-le, clamp, clamp_bounds, arith,
}
use ai_garage.Json.{Json}
use ai_garage.Plugins.WebSearch.{SearchResult, Http, or_fallback, execute_search}

take-not_empty : {A : Type 0} (n : ℕ) (x : A) (xs : List A) → 1 ≤ n → 1 ≤ length (take n (x ∷ xs))
take-not_empty zero x xs h = omega (arith, h)
take-not_empty (suc n) x xs h = omega arith

module _ (j : Json) where
  or_fallback-not_empty :
      (query : Text) (n : ℕ) (rs : List SearchResult)
      → 1 ≤ n
      → 1 ≤ length (take n (or_fallback j query rs))
  unfolding or_fallback
  or_fallback-not_empty query n [] h = take-not_empty n _ [] h
  or_fallback-not_empty query n (r ∷ rs) h = take-not_empty n r rs h

  -- Whatever the services answer, a search gives at least one result and at most the wished number,
  -- which counts as 1 below 1 and as 10 above 10.
  pub execute_search_limits :
      (http : Http j.Value) (query : Text) (max_results : ℕ)
      → (1 ≤ length (execute_search j http query max_results))
        × (length (execute_search j http query max_results) ≤ clamp 1 10 max_results)
  unfolding execute_search
  execute_search_limits http query max_results = (
    or_fallback-not_empty query (clamp 1 10 max_results) _
        (clamp_bounds 1 10 max_results (omega arith)).0,
    length-take-le (clamp 1 10 max_results) _,
  )

-- ===== src/Process/Waiters.antt =====
-- What the waiters of a transport get.
use ai_garage.Common.{
  ℕ, ◌+◌, ◌≤◌, ◌≡◌, refl, sym, ap, unwrap_or, ◌∙◌, inl, inr, Bool, true, false, ltb, List, [], ◌∷◌,
  ◌++◌, map, Option, none, some, Text, ok, if◌then◌else◌, ◌==◌, Option-cases, Result-cases, arith,
  trim,
}
use ai_garage.Protocol.JsonRpc.{
  RequestId, number, id_eq, id_eq_iff, new_request, Request, Response, Message, request, response,
  notification,
}
use ai_garage.Protocol.Framing.{Codec, from_ndjson}
use ai_garage.Process.{
  Pending, find, put, take_out, Mux, new_mux, signed, waiting, send_request, send_notification,
  deliver, unavailable, drain, route, Event, called, noted, replied, line_read, input_ended,
  read_line, step, run,
}

-- How often a waiter stands in a map, and how often it was answered.
abbrev pub count_pending : ℕ → Pending → ℕ
count_pending t [] = 0
count_pending t ((i, w) ∷ m) = (if w == t then 1 else 0) + count_pending t m

abbrev pub count_answers : {V : Type 0} → ℕ → List (ℕ × Response V) → ℕ
count_answers t [] = 0
count_answers t ((w, res) ∷ rest) = (if w == t then 1 else 0) + count_answers t rest

count-put :
    (t : ℕ) (k : RequestId) (v : ℕ) (m : Pending)
    → count_pending t (put k v m) ≤ (if v == t then 1 else 0) + count_pending t m
unfolding put
count-put t k v [] = ground arith
count-put t k v ((i, w) ∷ m) = ground (arith, count-put t k v m)

count-take_out :
    (t : ℕ) (k : RequestId) (m : Pending) → count_pending t (take_out k m) ≤ count_pending t m
unfolding take_out
count-take_out t k [] = ground arith
count-take_out t k ((i, w) ∷ m) = ground (arith, count-take_out t k m)

count-find :
    (t : ℕ) (k : RequestId) (w : ℕ) (m : Pending)
    → find k m ≡ some w
    → (if w == t then 1 else 0) + count_pending t (take_out k m) ≤ count_pending t m
unfolding find take_out
count-find t k w [] h = cc
count-find t k w ((i, v) ∷ m) h = ground (arith, count-find t k w m, count-take_out t k m)

module _ {V : Type 0} where
  count-drain :
      (t : ℕ) (p : Text) (m : Pending) (rest : List (ℕ × Response V))
      → count_answers t (map (unavailable p) m ++ rest) ≡ count_pending t m + count_answers t rest
  unfolding unavailable
  count-drain t p [] rest = ground arith
  count-drain t p ((i, w) ∷ m) rest = ground (arith, count-drain t p m rest)

  -- A waiter waits or was answered, together at most once, and only if it was made.
  abbrev pub Once : Mux V → Type 0
  Once s =
      (t : ℕ)
      → count_pending t s.pending + count_answers t s.answered ≤ (if ltb t s.made then 1 else 0)

  module _ (c : Codec V) (has_reverse : Bool) where
    waiting-Once : (s : Mux V) → Once s → Once (waiting s)
    unfolding waiting
    waiting-Once s h t =
        ground (arith, h t, count-put t (number (signed s.next_request_id)) s.made s.pending)

    deliver-Once : (res : Response V) (s : Mux V) → Once s → Once (deliver res s)
    unfolding deliver
    deliver-Once res s h t = elim (Option-cases (find res.id s.pending)) [
      | inl e ↦ ground (arith, h t)
      | inr (w, e) ↦ ground (arith, h t, count-find t res.id w s.pending e)
    ]

    route-Once : (m : Message V) (s : Mux V) → Once s → Once (route has_reverse m s)
    unfolding route
    route-Once (response res) s h t = deliver-Once res s h t
    route-Once (notification n) s h t = h t
    route-Once (request req) s h t = ground (arith, h t)

    step-Once : (e : Event V) (s : Mux V) → Once s → Once (step c has_reverse e s)
    unfolding step send_request send_notification read_line drain
    step-Once (called true method params) s h t = waiting-Once s h t
    step-Once (called false method params) s h t = ground (
      arith,
      waiting-Once s h t,
      count-take_out t (number (signed s.next_request_id)) (waiting s).pending,
    )
    step-Once (noted accepted method params) s h t = ground (arith, h t)
    step-Once (replied accepted res) s h t = ground (arith, h t)
    step-Once (line_read line) s h t = elim (Result-cases (from_ndjson c (trim line))) [
      | inr (x, e) ↦ ground (arith, h t)
      | inl (m, e) ↦ ground (arith, h t, route-Once m s h t)
    ]
    step-Once input_ended s h t =
        ground (arith, h t, count-drain t s.plugin_id s.pending s.answered)

    run-Once : (es : List (Event V)) (s : Mux V) → Once s → Once (run c has_reverse es s)
    unfolding run
    run-Once [] s h = h
    run-Once (e ∷ es) s h = run-Once es (step c has_reverse e s) (step-Once e s h)

    -- Whatever is called and read, in whatever order, no waiter gets more than one answer, and none
    -- that was not made gets any.
    pub run-answers :
        (es : List (Event V)) (p : Text) (t : ℕ)
        → let s = run c has_reverse es (new_mux p) in
          count_answers t s.answered ≤ (if ltb t s.made then 1 else 0)
    unfolding new_mux
    run-answers es p t = ground (arith, run-Once es (new_mux p) (λ t. ground arith) t)

    -- When the output of the plugin ends, which it does once, no request waits any longer, and each waiter that waited
    -- has one more answer.
    pub drain_answers :
        (s : Mux V) (t : ℕ)
        → s.ended ≡ false
        → ((step c has_reverse input_ended s).pending ≡ [])
          × (count_answers t (step c has_reverse input_ended s).answered
              ≡ count_pending t s.pending + count_answers t s.answered)
    unfolding step drain
    drain_answers s t h =
        (ground arith, ground (arith, count-drain t s.plugin_id s.pending s.answered))

    step-ended :
        (e : Event V) (s : Mux V)
        → s.ended ≡ true
        → ((step c has_reverse e s).ended ≡ true) × ((step c has_reverse e s).answered ≡ s.answered)
    unfolding step send_request send_notification waiting
    step-ended (called accepted method params) s h = (ground arith, ground arith)
    step-ended (noted accepted method params) s h = (ground arith, ground arith)
    step-ended (replied accepted res) s h = (ground arith, ground arith)
    step-ended (line_read line) s h = (ground arith, ground arith)
    step-ended input_ended s h = (ground arith, ground arith)

    run-ended :
        (es : List (Event V)) (s : Mux V)
        → s.ended ≡ true
        → (run c has_reverse es s).answered ≡ s.answered
    unfolding run
    run-ended [] s h = refl
    run-ended (e ∷ es) s h =
        let (a, b) = step-ended e s h in run-ended es (step c has_reverse e s) a ∙ b

    -- A request that the writer's channel still takes after the reader has ended is never answered,
    -- whatever happens later.
    pub late_request_waits :
        (before after : List (Event V)) (p method : Text) (params : Option V)
        → (run c has_reverse before (new_mux p)).ended ≡ true
        → let s = run c has_reverse before (new_mux p) in
          let made = send_request true method params s in
          (made.0 ≡ ok s.made)
          × (count_answers s.made (run c has_reverse after made.1).answered ≡ 0)
    unfolding send_request waiting
    late_request_waits before after p method params h =
        let s = run c has_reverse before (new_mux p) in
        (
          refl,
          rw (run-ended after (send_request true method params s).1 h)
              (ground (arith, run-answers before p s.made)),
        )

    find-put : (k : RequestId) (v : ℕ) (m : Pending) → find k (put k v m) ≡ some v
    unfolding find put
    find-put k v [] = ground (arith, id_eq_iff k k)
    find-put k v ((i, w) ∷ m) = ground (arith, id_eq_iff k k, find-put k v m)

    find-take_out : (k : RequestId) (m : Pending) → find k (take_out k m) ≡ none
    unfolding find take_out
    find-take_out k [] = refl
    find-take_out k ((i, w) ∷ m) = ground (arith, find-take_out k m)

    find-take_out_other :
        (k i : RequestId) (m : Pending) → id_eq k i ≡ false → find i (take_out k m) ≡ find i m
    unfolding find take_out
    find-take_out_other k i [] h = refl
    find-take_out_other k i ((l, w) ∷ m) h =
        ground (arith, find-take_out_other k i m h, id_eq_iff l k, id_eq_iff l i)

    find-put_other :
        (k i : RequestId) (v : ℕ) (m : Pending) → id_eq k i ≡ false → find i (put k v m) ≡ find i m
    unfolding find put
    find-put_other k i v [] h = ground arith
    find-put_other k i v ((l, w) ∷ m) h =
        ground (arith, find-put_other k i v m h, id_eq_iff l k, id_eq_iff l i)

    response_taken :
        (s : Mux V) (method line : Text) (params : Option V) (res : Response V)
        → s.ended ≡ false
        → from_ndjson c (trim line) ≡ ok (response res)
        → res.id ≡ number (signed s.next_request_id)
        → let after = step c has_reverse (line_read line) (send_request true method params s).1 in
          (after.answered ≡ (s.made, res) ∷ s.answered)
          × (after.pending ≡ take_out res.id (put res.id s.made s.pending))
    unfolding step read_line route deliver send_request waiting
    response_taken s method line params res h l i = (
      ground (arith, h, l, i, find-put res.id s.made s.pending),
      ground (arith, h, l, i, find-put res.id s.made s.pending),
    )

    -- The request that was sent last.
    abbrev last_request : List (Message V) → Option (Request V)
    last_request [] = none
    last_request (request req ∷ []) = some req
    last_request (response res ∷ []) = none
    last_request (notification n ∷ []) = none
    last_request (m ∷ n ∷ rest) = last_request (n ∷ rest)

    last_request-append :
        (sent : List (Message V)) (req : Request V)
        → last_request (sent ++ request req ∷ []) ≡ some req
    last_request-append [] req = refl
    last_request-append (m ∷ []) req = refl
    last_request-append (m ∷ n ∷ rest) req = last_request-append (n ∷ rest) req

    sent-eq :
        (sent : List (Message V)) (made req : Request V)
        → sent ++ request made ∷ [] ≡ sent ++ request req ∷ []
        → made ≡ req
    sent-eq sent made req h =
        ap (λ (o : Option (Request V)). unwrap_or o made)
          (sym (last_request-append sent made) ∙ ap last_request h ∙ last_request-append sent req)

    -- The request that a call sends has its method and its parameters. While the reader runs, a line
    -- that reads as a response with the identifier of that request, as it was sent, reaches the waiter
    -- that the call returned, and no other; then none waits under the identifier, and under every
    -- other identifier the same waiter waits as before.
    pub response_delivered :
        (s : Mux V) (method line : Text) (params : Option V) (req : Request V) (res : Response V)
        → (send_request true method params s).1.sent ≡ s.sent ++ request req ∷ []
        → s.ended ≡ false
        → from_ndjson c (trim line) ≡ ok (response res)
        → res.id ≡ req.id
        → let (waiter, s') = send_request true method params s in
          let after = step c has_reverse (line_read line) s' in
          (req.method ≡ method)
          × (req.params ≡ params)
          × ((w : ℕ) × (waiter ≡ ok w) × (after.answered ≡ (w, res) ∷ s.answered))
          × (find req.id after.pending ≡ none)
          × ((i : RequestId) → id_eq req.id i ≡ false → find i after.pending ≡ find i s.pending)
    unfolding send_request waiting new_request
    response_delivered s method line params req res sent h l i =
        let id = number (signed s.next_request_id) in
        let same = sent-eq s.sent (new_request id method params) req sent in
        let same_id : id ≡ req.id = ap (λ (r : Request V). r.id) same in
        let (got, left) = response_taken s method line params res h l (i ∙ sym same_id) in
        let rest : take_out res.id (put res.id s.made s.pending)
            ≡ take_out req.id (put req.id s.made s.pending) =
          ap (λ (k : RequestId). take_out k (put k s.made s.pending)) i in
        (
          sym (ap (λ (r : Request V). r.method) same),
          sym (ap (λ (r : Request V). r.params) same),
          (s.made, refl, got),
          rw (left, rest) (find-take_out req.id (put req.id s.made s.pending)),
          λ k other.
              rw (left, rest)
                (find-take_out_other req.id k (put req.id s.made s.pending) other
                  ∙ find-put_other req.id k s.made s.pending other),
        )

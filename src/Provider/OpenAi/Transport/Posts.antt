-- ===== src/Provider/OpenAi/Transport/Posts.antt =====
-- Which requests `OpenAiHttpTransport` of fprovider/src/adapters/openai/transport.rs posts.
use fiddlesticks.Base.{
  subst, ◌++◌, inl, inr, sym, ap, ◌∙◌, append-nil, append_assoc, String, Bool, true, false, Option,
  none, some, List, [], ◌∷◌, ◌≡◌, ◌≢◌, refl, if◌then◌else◌,
}
use fiddlesticks.Exec.{Result, ok, err, no_return, Exec, lift, pure, raise, catch_into, ◌>>=◌}
use fiddlesticks.Exec.Rules.{bind_rule}
use fiddlesticks.Exec.Keeps.{
  Keeps, Keeps-bind, Keeps-lift, Keeps-pure, Keeps-catch_into, keeps_rules,
}
use fiddlesticks.Provider.Error.{ProviderError}
use fiddlesticks.Provider.OpenAi.Types.{OpenAiRequest, OpenAiAuth}
use fiddlesticks.Provider.OpenAi.Api.{
  OpenAiTokenParameter, max_tokens_parameter, max_completion_tokens_parameter, OpenAiApiRequest,
  build_api_request_with_token_parameter,
}
use fiddlesticks.Provider.OpenAi.Transport.Tried.{Tried, Tried-nil, Tried-more, With, build-With}
use fiddlesticks.Provider.OpenAi.Transport.{
  Http, OpenAiHttpTransport, Authorization, parse_error, or_default, accept, send, send_with_each,
  token_parameters, complete, stream, is_success, or_next, request_error, endpoint, apply_auth,
}

-- What follows an action and leaves the view alone.
after_quiet :
    {S T E A B : Type 0} (view : S → T) (m : Exec S E A) (f : A → Exec S E B) (s : S)
    → ((a : A) → Keeps view (f a))
    → view ((m >>= f) s).1 ≡ view (m s).1
after_quiet view m f s keeps =
    bind_rule (λ r s'. view s' ≡ view (m s).1) f m s (λ a e. (keeps a).at _) (λ x e. refl)
      (λ e. refl)

module _ {W Value Response Bytes : Type 0} (http : Http W Value Response Bytes) where
  -- A log of the requests that the client posts: nothing else of it adds to the log.
  pub record Logging (posted : W → List (OpenAiApiRequest Value)) : Type 0 where
    pub post :
        (url : String) (r : OpenAiApiRequest Value) (a : Authorization) (w : W)
        → posted (http.post url r a w).1 ≡ posted w ++ r ∷ []
    pub text : (r : Response) (w : W) → posted (http.text r w).1 ≡ posted w
    pub json : (r : Response) (w : W) → posted (http.json r w).1 ≡ posted w

module _ {W Value Response Bytes : Type 0} (http : Http W Value Response Bytes)
    (transport : OpenAiHttpTransport) (posted : W → List (OpenAiApiRequest Value))
    (logging : Logging http posted) where
  -- Between two worlds the log has grown by requests with the parameters.
  abbrev pub Posted : OpenAiRequest → List OpenAiTokenParameter → W → W → Type 0
  Posted r ps w w' =
      (sent : List (OpenAiApiRequest Value)) × (posted w' ≡ posted w ++ sent) × Tried r ps sent

  default-same : (r : Result String String × W) → (or_default r).1 ≡ r.1
  default-same (ok body, w) = refl
  default-same (err e, w) = refl
  default-same (no_return, w) = refl

  parse_error-Keeps : (r : Response) → Keeps posted (parse_error http transport r)
  unfolding parse_error
  parse_error-Keeps r =
      Keeps-bind _ _
        (record { at = λ w. ap posted (default-same (http.text r w)) ∙ logging.text r w })
        (λ body. Keeps-pure _)

  accept-Keeps :
      (p : OpenAiTokenParameter) (r : Response) → Keeps posted (accept http transport p r)
  unfolding accept
  accept-Keeps p r = search (keeps_rules, parse_error-Keeps)

  -- One request with the parameter.
  abbrev One : OpenAiRequest → OpenAiTokenParameter → W → W → Type 0
  One r p w w' = (a : OpenAiApiRequest Value) × (posted w' ≡ posted w ++ a ∷ []) × With r p a

  -- A pass of the loop that does not fail has posted one request.
  abbrev Sent :
      OpenAiRequest → OpenAiTokenParameter → W → Result ProviderError (Option Response) → W → Type 0
  Sent r p w (ok found) w' = One r p w w'
  Sent r p w (err e) w' = Posted r (p ∷ []) w w'
  Sent r p w no_return w' = Posted r (p ∷ []) w w'

  One-Posted :
      (request : OpenAiRequest) (p : OpenAiTokenParameter) (ps : List OpenAiTokenParameter)
      (w w' : W)
      → One request p w w'
      → Posted request (p ∷ ps) w w'
  One-Posted request p ps w w' (a, grown, has) =
      (a ∷ [], grown, inr (a, [], refl, has, Tried-nil Value request ps))

  One-Sent :
      (request : OpenAiRequest) (p : OpenAiTokenParameter) (w w' : W)
      → One request p w w'
      → (r : Result ProviderError (Option Response)) → Sent request p w r w'
  One-Sent request p w w' one (ok found) = one
  One-Sent request p w w' one (err e) = One-Posted request p [] w w' one
  One-Sent request p w w' one no_return = One-Posted request p [] w w' one

  send-Sent :
      (request : OpenAiRequest) (auth : OpenAiAuth) (p : OpenAiTokenParameter) (w : W)
      → let r = send http transport request auth p w in Sent request p w r.0 r.1
  unfolding send catch_into lift
  send-Sent request auth p w =
      let url = endpoint transport "chat/completions" in
      bind_rule (Sent request p w) _
        (lift (build_api_request_with_token_parameter http.schema_from_str request p)) w
        (λ api built.
          let post = catch_into request_error (http.post url api (apply_auth auth)) in
          One-Sent request p w ((post >>= accept http transport p) w).1
            (
              api,
              after_quiet posted post (accept http transport p) w (accept-Keeps p)
                  ∙ logging.post url api (apply_auth auth) w,
              build-With http.schema_from_str request p api built,
            )
            ((post >>= accept http transport p) w).0)
        (λ x e. ([], sym (append-nil (posted w)), inl refl))
        (λ e. ([], sym (append-nil (posted w)), inl refl))

  more-Posted :
      (request : OpenAiRequest) (p : OpenAiTokenParameter) (ps : List OpenAiTokenParameter)
      (w w' : W)
      → Posted request (p ∷ []) w w'
      → Posted request (p ∷ ps) w w'
  more-Posted request p ps w w' (sent, grown, t) = (sent, grown, Tried-more request p ps sent t)

  next-Posted :
      (request : OpenAiRequest) (p : OpenAiTokenParameter) (ps : List OpenAiTokenParameter)
      (next : Exec W ProviderError (Option Response)) (w w' : W)
      → One request p w w'
      → Posted request ps w' (next w').1
      → (found : Option Response)
      → Posted request (p ∷ ps) w (or_next http transport found next w').1
  unfolding pure
  next-Posted request p ps next w w' (a, grown, has) (later, grown', t) none = (
    a ∷ later,
    grown' ∙ ap (λ l. l ++ later) grown ∙ append_assoc (posted w) (a ∷ []) later,
    inr (a, later, refl, has, t),
  )
  next-Posted request p ps next w w' one rest (some r) = One-Posted request p ps w w' one

  each-Posted :
      (request : OpenAiRequest) (auth : OpenAiAuth) (ps : List OpenAiTokenParameter) (w : W)
      → Posted request ps w (send_with_each http transport request auth ps w).1
  unfolding send_with_each pure
  each-Posted request auth [] w = ([], sym (append-nil (posted w)), refl)
  each-Posted request auth (p ∷ ps) w =
      let w' = (send http transport request auth p w).1 in
      let sent =
        λ (r : Result ProviderError (Option Response))
            (e : (send http transport request auth p w).0 ≡ r).
          subst (λ x. Sent request p w x w') e (send-Sent request auth p w) in
      bind_rule (λ r w''. Posted request (p ∷ ps) w w'') _ (send http transport request auth p) w
        (λ found e.
          next-Posted request p ps (send_with_each http transport request auth ps) w w'
            (sent (ok found) e) (each-Posted request auth ps w') found)
        (λ x e. more-Posted request p ps w w' (sent (err x) e))
        (λ e. more-Posted request p ps w w' (sent no_return e))

  carried :
      (request : OpenAiRequest) (auth : OpenAiAuth) (w w' : W)
      → posted w' ≡ posted (send_with_each http transport request auth token_parameters w).1
      → Posted request token_parameters w w'
  carried request auth w w' same =
      let (sent, more, t) = each-Posted request auth token_parameters w in (sent, same ∙ more, t)

  -- With a client that posts one request for each call of `post` and none otherwise, the requests
  -- that are posted for a request, streamed or not, are at most two: the first has the limit on
  -- tokens in `max_tokens` alone, and the second in `max_completion_tokens` alone.
  pub complete_posts :
      (request : OpenAiRequest) (auth : OpenAiAuth) (w : W)
      → let both = max_tokens_parameter ∷ max_completion_tokens_parameter ∷ [] in
        Posted request both w (complete http transport request auth w).1
        × Posted request both w (stream http transport request auth w).1
  unfolding complete stream
  complete_posts request auth w = (
    carried request auth w _ (
        after_quiet posted (send_with_each http transport request auth token_parameters) _ w
          (λ found. Keeps-bind _ _ (Keeps-lift _) (λ response.
            Keeps-bind _ _ (Keeps-catch_into _ _ (record { at = λ w'. logging.json response w' }))
              (λ parsed. Keeps-lift _)))),
    carried (record request { stream = true }) auth w _
        (after_quiet posted
          (send_with_each http transport (record request { stream = true }) auth token_parameters) _
          w (λ found. Keeps-bind _ _ (Keeps-lift _) (λ response. Keeps-pure _))),
  )

module _ {W Value Response Bytes : Type 0} (http : Http W Value Response Bytes)
    (transport : OpenAiHttpTransport) where
  -- The loop does not go on to a next parameter.
  Ends : Result ProviderError (Option Response) → W → Type 0
  Ends r w = r ≢ ok none

  if_ends :
      (c : Bool) (m k : Exec W ProviderError (Option Response)) (w : W)
      → (m w).0 ≢ ok none
      → (k w).0 ≢ ok none
      → ((if c then m else k) w).0 ≢ ok none
  if_ends true m k w h g = h
  if_ends false m k w h g = g

  accept-Ends :
      (r : Response) (w : W)
      → let (result, w') = accept http transport max_completion_tokens_parameter r w in
        Ends result w'
  unfolding accept Ends pure raise
  accept-Ends r w =
      if_ends (is_success (http.status r)) _ _ w (λ g. cc)
        (bind_rule Ends _ _ w (λ error parsed g. cc) (λ e failed g. cc) (λ endless g. cc))

  send-Ends :
      (request : OpenAiRequest) (auth : OpenAiAuth) (w : W)
      → let (result, w') = send http transport request auth max_completion_tokens_parameter w in
        Ends result w'
  unfolding send Ends
  send-Ends request auth w =
      bind_rule Ends _ _ w
        (λ api_request built.
          bind_rule Ends _ _ _ (λ r sent. accept-Ends r _) (λ e failed g. cc) (λ endless g. cc))
        (λ e failed g. cc) (λ endless g. cc)

  last-Ends :
      (request : OpenAiRequest) (auth : OpenAiAuth) (found : Option Response) (w w' : W)
      → (send http transport request auth max_completion_tokens_parameter w).0 ≡ ok found
      → Ends (or_next http transport found (pure none) w').0 w'
  unfolding Ends pure
  last-Ends request auth none w w' sent = absurd (send-Ends request auth w sent)
  last-Ends request auth (some r) w w' sent = λ g. cc

  second-Ends :
      (request : OpenAiRequest) (auth : OpenAiAuth) (found : Option Response) (w : W)
      → let next =
          send_with_each http transport request auth (max_completion_tokens_parameter ∷ []) in
        Ends (or_next http transport found next w).0 w
  unfolding Ends pure send_with_each
  second-Ends request auth none w =
      bind_rule Ends _ _ w (λ found sent. last-Ends request auth found w _ sent) (λ e failed g. cc)
        (λ endless g. cc)
  second-Ends request auth (some r) w = λ g. cc

  -- The loop over the two parameters never runs out of them: it ends with a response or an error from
  -- one of its requests, so that the error for parameters that are not accepted is never given.
  pub send_with_each-found :
      (request : OpenAiRequest) (auth : OpenAiAuth) (w : W)
      → (send_with_each http transport request auth token_parameters w).0 ≢ ok none
  unfolding send_with_each Ends
  send_with_each-found request auth w =
      bind_rule Ends _ _ w (λ found sent. second-Ends request auth found _) (λ e failed g. cc)
        (λ endless g. cc)

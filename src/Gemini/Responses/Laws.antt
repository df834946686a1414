-- ===== src/Gemini/Responses/Laws.antt =====
-- What the client is told of a response: frames that are skipped, finish reasons, usage.
use ai_api_proxy.Common.Strings.{JsString, js, same_string}
use ai_api_proxy.Common.{
  [], ◌∷◌, Bool, true, false, if◌then◌else◌, Option, none, some, ok, Outcome, ◌≡◌, refl, sym, ap,
  ◌∙◌, arith, Bool-cases, inl, inr,
}
use ai_api_proxy.Gemini.Contents.{is_string}
use ai_api_proxy.Gemini.Responses.{
  Host, Usage, own_of, is_blocking, finish_reason, count, usage_of, event_finish, response_finish,
}
use ai_api_proxy.Json.{
  Json, null, boolean, number, string, array, object, PluginError, truthy, member,
}

-- A reason, or the normal end where there is none.
abbrev pub or_stop : Option JsString → JsString
or_stop none = js "stop"
or_stop (some s) = s

module _ {N : Type 0} (host : Host N) where
  -- A finish reason that is missing or falsy counts as a normal end.
  finish_reason_falsy :
      (fr : Option (Json N)) → truthy host.is_zero fr ≡ false → finish_reason fr ≡ js "stop"
  unfolding truthy finish_reason is_blocking is_string same_string
  finish_reason_falsy none h = refl
  finish_reason_falsy (some null) h = refl
  finish_reason_falsy (some (boolean b)) h = refl
  finish_reason_falsy (some (number n)) h = refl
  finish_reason_falsy (some (string [])) h = refl
  finish_reason_falsy (some (string (c ∷ cs))) h = ground arith
  finish_reason_falsy (some (array xs)) h = refl
  finish_reason_falsy (some (object ms)) h = refl

  -- A plain response reports the finish reason that a stream of the same value reports, and the
  -- normal end "stop" where the stream reports none.
  pub response_finish-event_finish :
      (block cand : Option (Json N))
      → response_finish host block cand ≡ or_stop (event_finish host block cand)
  unfolding response_finish event_finish
  response_finish-event_finish block cand = elim (Bool-cases (truthy host.is_zero block)) [
    | inl blocked ↦ rw blocked refl
    | inr passed ↦
        let reason = own_of cand (js "finishReason") in
        elim (Bool-cases (truthy host.is_zero reason)) [
          | inl given ↦ rw (passed, given) refl
          | inr missing ↦ rw (passed, missing) (finish_reason_falsy reason missing)
        ]
  ]

  -- The counts of a usage object.
  abbrev usage_from : Option (Json N) → Usage N
  usage_from u = record {
    prompt_tokens = count host (own_of u (js "promptTokenCount"));
    completion_tokens =
        host.add (count host (own_of u (js "candidatesTokenCount")))
          (count host (own_of u (js "thoughtsTokenCount")));
    total_tokens = count host (own_of u (js "totalTokenCount"));
  }

  usage_of_lem :
      (g : Json N) {u : Option (Json N)}
      → member (some g) (js "usageMetadata") ≡ ok u
      → usage_of host g ≡ (if truthy host.is_zero u then ok (some (usage_from u)) else ok none)
  unfolding usage_of
  usage_of_lem g h = rw h refl

  given_usage :
      (given : Bool) (u usage : Usage N)
      → ◌≡◌ {A = Outcome PluginError (Option (Usage N))}
          (if given then ok (some u) else ok none)
          (ok (some usage))
      → u ≡ usage
  given_usage true u usage e = cc
  given_usage false u usage e = cc

  -- If usage is reported and the upstream's total counts the prompt, the candidates and the thoughts, then the total that
  -- the client sees is the sum of the prompt and the completion that it sees.
  pub usage_of-total :
      (g : Json N) (u : Option (Json N)) (usage : Usage N)
      → member (some g) (js "usageMetadata") ≡ ok u
      → usage_of host g ≡ ok (some usage)
      → count host (own_of u (js "totalTokenCount"))
        ≡ host.add (count host (own_of u (js "promptTokenCount"))) (
            host.add
              (count host (own_of u (js "candidatesTokenCount")))
              (count host (own_of u (js "thoughtsTokenCount"))))
      → usage.total_tokens ≡ host.add usage.prompt_tokens usage.completion_tokens
  usage_of-total g u usage h e sum =
      let same : usage_from u ≡ usage =
        given_usage (truthy host.is_zero u) (usage_from u) usage (sym (usage_of_lem g h) ∙ e) in
      sym (ap (λ (v : Usage N). v.total_tokens) same)
      ∙ sum
      ∙ ap (λ (v : Usage N). host.add v.prompt_tokens v.completion_tokens) same

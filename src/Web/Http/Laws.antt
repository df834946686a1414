-- ===== src/Web/Http/Laws.antt =====
-- What http.ts makes of a response.
use ai_api_proxy.Common.{
  true, false, ◌==◌, Option, none, some, Outcome, ok, throws, ◌≡◌, ◌≢◌, ◌↔◌, ◌⊎◌, inl, inr, refl,
  arith, ◌>>=◌, ap, Outcome-cases, Bool-cases, ◌∙◌,
}
use ai_api_proxy.Common.Strings.{JsString}
use ai_api_proxy.Web.Http.{
  Failure, Response, Browser, receive, unauthorized, login_hash, expired, api_error, detail_of,
}
use ai_api_proxy.Web.Values.{Value, Engine}

-- The response carries the value: it is ok, and no 401; a 204 carries undefined, another one the
-- value of its body.
abbrev pub Carries : Outcome Failure Response → Option Value → Type 0
Carries reply v =
    (res : Response) × (reply ≡ ok res)
    × (res.status ≢ 401)
    × (res.is_ok ≡ true)
    × (((res.status ≡ 204) × (v ≡ none))
        ⊎ ((res.status ≢ 204) × (w : Value) × (res.json_body ≡ ok w) × (v ≡ some w)))

module _ {S : Type 0} (engine : Engine) (on_unauthorized : S → S) where
  -- The answers to a response, by its status.
  receive-expired :
      (res : Response) (b : Browser S)
      → res.status ≡ 401
      → receive engine on_unauthorized (ok res) b ≡ unauthorized engine on_unauthorized b
  unfolding receive
  receive-expired res b e = ground arith

  unauthorized-throws :
      (b : Browser S)
      → (e : Failure) × (hash : JsString) × (unauthorized engine on_unauthorized b
          ≡ (throws e, record { session = on_unauthorized b.session; hash = hash }))
  unfolding unauthorized
  unauthorized-throws b =
      elim (login_hash engine b.hash)
        as (λ o.
          (e : Failure) × (hash : JsString) × (Path (Outcome Failure (Option Value) × Browser S)
            (elim o [
              | throws e ↦ (throws e, record b { session = on_unauthorized b.session })
              | ok hash ↦
                  (throws expired, record { session = on_unauthorized b.session; hash = hash })
            ])
            (throws e, record { session = on_unauthorized b.session; hash = hash }))) [
              | throws e ↦ (e, b.hash, refl)
              | ok hash ↦ (expired, hash, refl)
            ]

  receive-refused :
      (res : Response) (b : Browser S)
      → res.status ≢ 401
      → res.is_ok ≡ false
      → receive engine on_unauthorized (ok res) b
        ≡ (throws (api_error res.status (detail_of res)), b)
  unfolding receive
  receive-refused res b h e = ground arith

  receive-empty :
      (res : Response) (b : Browser S)
      → res.status ≡ 204
      → res.is_ok ≡ true
      → receive engine on_unauthorized (ok res) b ≡ (ok none, b)
  unfolding receive
  receive-empty res b h e = ground arith

  receive-body :
      (res : Response) (b : Browser S)
      → res.status ≢ 401
      → res.status ≢ 204
      → res.is_ok ≡ true
      → receive engine on_unauthorized (ok res) b ≡ (res.json_body >>= λ v. ok (some v), b)
  unfolding receive
  receive-body res b h k e = ground arith

  receive-kept :
      (res : Response) (b : Browser S)
      → res.status ≢ 401
      → (receive engine on_unauthorized (ok res) b).1 ≡ b
  unfolding receive
  receive-kept res b h = ground arith

  receive-eq-ok :
      (res : Response) (b b' : Browser S) (v : Option Value)
      → receive engine on_unauthorized (ok res) b ≡ (ok v, b')
      → Carries (ok res) v × (b' ≡ b)
  receive-eq-ok res b b' v e = elim (Bool-cases (res.status == 401)) [
    | inl is_401 ↦
        let (failure, hash, thrown) = unauthorized-throws b in
        cc (receive-expired res b (ground arith), thrown, e)
    | inr not_401 ↦ elim (Bool-cases res.is_ok) [
      | inr refused ↦ cc (receive-refused res b (ground arith) refused, e)
      | inl good ↦ elim (Bool-cases (res.status == 204)) [
        | inl is_204 ↦
            let step = receive-empty res b (ground arith) good in
            ((res, refl, ground arith, good, inl (ground arith, cc (step, e))), cc (step, e))
        | inr not_204 ↦ with_body res b b' v (ground arith) (ground arith) good e
      ]
    ]
  ]
    where
      with_body :
          (res : Response) (b b' : Browser S) (v : Option Value)
          → res.status ≢ 401
          → res.status ≢ 204
          → res.is_ok ≡ true
          → receive engine on_unauthorized (ok res) b ≡ (ok v, b')
          → Carries (ok res) v × (b' ≡ b)
      with_body res b b' v h k good e = elim (Outcome-cases res.json_body) [
        | inl (w, read) ↦
            let step : receive engine on_unauthorized (ok res) b ≡ (ok (some w), b) =
              receive-body res b h k good ∙ rw read refl in
            ((res, refl, h, good, inr (k, w, read, cc (step, e))), cc (step, e))
        | inr (x, failed) ↦
            let step : receive engine on_unauthorized (ok res) b ≡ (throws x, b) =
              receive-body res b h k good ∙ rw failed refl in
            cc (step, e)
      ]

  Carries-received :
      (reply : Outcome Failure Response) (b : Browser S) (v : Option Value)
      → Carries reply v
      → receive engine on_unauthorized reply b ≡ (ok v, b)
  Carries-received reply b v (res, e, h, good, inl (k, none_of)) =
      rw (e, none_of) (receive-empty res b k good)
  Carries-received reply b v (res, e, h, good, inr (k, w, read, some_of)) =
      rw (e, some_of) (receive-body res b h k good ∙ rw read refl)

  -- A request of the console returns a value exactly if the response carries that value, and the
  -- session and the address are then as before.
  pub receive-ok_iff :
      (reply : Outcome Failure Response) (b b' : Browser S) (v : Option Value)
      → (receive engine on_unauthorized reply b ≡ (ok v, b')) ↔ (Carries reply v × (b' ≡ b))
  receive-ok_iff (throws e) b b' v = (
    λ h.
        let step : receive engine on_unauthorized (throws e) b ≡ (throws e, b) =
          unfold receive in refl in
        cc (step, h),
    λ ((res, clash, h, good, more), same). cc clash,
  )
  receive-ok_iff (ok res) b b' v = (
    receive-eq-ok res b b' v,
    λ (carried, same). cc (Carries-received (ok res) b v carried, same),
  )

  -- The session is reset only by a response with status 401, and all else leaves it and the
  -- address as they were; on a 401 the request throws, also if the address cannot be encoded.
  pub receive-session :
      (reply : Outcome Failure Response) (b : Browser S)
      → (((receive engine on_unauthorized reply b).1 ≡ b)
          × ((res : Response) → reply ≡ ok res → res.status ≢ 401))
        ⊎ (((res : Response) × (reply ≡ ok res) × (res.status ≡ 401))
            × ((receive engine on_unauthorized reply b).1.session ≡ on_unauthorized b.session)
            × ((e : Failure) × ((receive engine on_unauthorized reply b).0 ≡ throws e)))
  receive-session (throws e) b = inl (unfold receive in refl, λ res h. cc h)
  receive-session (ok res) b = elim (Bool-cases (res.status == 401)) [
    | inl is_401 ↦
        let (e, hash, thrown) = unauthorized-throws b in
        let step = receive-expired res b (ground arith) ∙ thrown in
        inr ((res, refl, ground arith), ap (λ r. r.1.session) step, (e, ap (λ r. r.0) step))
    | inr not_401 ↦ inl (receive-kept res b (ground arith), λ r same. grind arith)
  ]

-- ===== src/Provider/Graph/Retry.antt =====
-- The retry of a request that Graph refused (`send_authorized` of src/provider/graph.rs).
use uni_mail.Common.{
  ◌≡◌, ◌≢◌, ◌⊎◌, inl, inr, refl, String, true, false, Option, arith, eqb, ◌∙◌, Bool-cases, eqb_iff,
  ap,
}
use uni_mail.Error.{Outcome, ok, AppError}
use uni_mail.Exec.{World, Exec, ◌>>=◌}
use uni_mail.Exec.Inversion.{>>=-run}
use uni_mail.Host.{Host, Method, Response}
use uni_mail.Json.{Value}
use uni_mail.Storage.Models.{Account}
use uni_mail.Auth.Token.{get_access_token, refresh_account}
use uni_mail.Provider.Graph.{MicrosoftGraph, send, retry_unauthorized, send_authorized}

module _ (host : Host) (g : MicrosoftGraph) (account : Account) (method : Method) (url : String)
    (body : Option Value) where
  -- A request that was sent with a token that was handed out for the account got this response, and
  -- this is the world behind it.
  abbrev pub IsSent : World → String → Response → World → Type 0
  IsSent w token response w' =
      let w₁ = (get_access_token host g.tokens account.id w).1 in
      ((get_access_token host g.tokens account.id w).0 ≡ ok token)
      × ((send host g method url token body w₁).0 ≡ ok response)
      × (w' ≡ (send host g method url token body w₁).1)

  -- The first response stands.
  abbrev pub IsFirst : World → Response → Type 0
  IsFirst w response =
      (token : String) × (response.status ≢ 401)
      × IsSent w token response (send_authorized host g account method url body w).1

  -- The first response was 401, a refresh returned, and a second request got the response.
  abbrev pub IsRetried : World → Response → Type 0
  IsRetried w response =
      (token : String) × (first : Response) × (w' : World) × (again : String) × IsSent w token first
        w'
      × (first.status ≡ 401)
      × ((refresh_account host g.tokens account.id w').0 ≡ ok tt)
      × IsSent (refresh_account host g.tokens account.id w').1 again response
          (send_authorized host g account method url body w).1

  retry_stands :
      (first : Response) (w : World)
      → eqb first.status 401 ≡ false
      → retry_unauthorized host g account method url body first w ≡ (ok first, w)
  unfolding retry_unauthorized
  retry_stands first w h = rw h refl

  -- A retry that got a response: the refresh returned, and the second request got it.
  retry-IsSent :
      (first response : Response) (w : World)
      → eqb first.status 401 ≡ true
      → (retry_unauthorized host g account method url body first w).0 ≡ ok response
      → (again : String) × ((refresh_account host g.tokens account.id w).0 ≡ ok tt)
        × IsSent
            (refresh_account host g.tokens account.id w).1
            again
            response
            (retry_unauthorized host g account method url body first w).1
  unfolding retry_unauthorized
  retry-IsSent first response w refused h =
      let second : Exec AppError Response =
        get_access_token host g.tokens account.id >>= λ token. send host g method url token body in
      let whole : retry_unauthorized host g account method url body first w
          ≡ (refresh_account host g.tokens account.id >>= λ _. second) w =
        rw refused refl in
      let (_, returned, e₁, h₁) =
        >>=-run (refresh_account host g.tokens account.id) (λ _. second) w (rw (← whole) h) in
      let w₁ = (refresh_account host g.tokens account.id w).1 in
      let (again, given, e₂, h₂) =
        >>=-run (get_access_token host g.tokens account.id)
          (λ token. send host g method url token body) w₁ h₁ in
      (
        again,
        returned,
        (given, h₂, ap (λ (p : Outcome AppError Response × World). p.1) (whole ∙ e₁ ∙ e₂)),
      )

  -- A request that got a response was sent once, and its response has not status 401; or it was sent
  -- twice: the first response had status 401, a refresh of the account's token returned, and the
  -- second request, with the token handed out after that refresh, got the response. Each request
  -- carries a token that was handed out for the account right before it.
  pub send_authorized_cases :
      (w : World) (response : Response)
      → (send_authorized host g account method url body w).0 ≡ ok response
      → IsFirst w response ⊎ IsRetried w response
  unfolding send_authorized
  send_authorized_cases w response h =
      let (token, given, e₁, h₁) = >>=-run (get_access_token host g.tokens account.id) _ w h in
      let w₁ = (get_access_token host g.tokens account.id w).1 in
      let (first, sent, e₂, h₂) = >>=-run (send host g method url token body) _ w₁ h₁ in
      let w₂ = (send host g method url token body w₁).1 in
      let world = λ (p : Outcome AppError Response × World). p.1 in
      elim (Bool-cases (eqb first.status 401)) [
        | inl refused ↦
            let (again, returned, (given', sent', end)) =
              retry-IsSent first response w₂ refused h₂ in
            inr (
              token,
              first,
              w₂,
              again,
              (given, sent, refl),
              (eqb_iff first.status 401).0 refused,
              returned,
              (given', sent', ap world (e₁ ∙ e₂) ∙ end),
            )
        | inr other ↦
            let run = e₁ ∙ e₂ ∙ retry_stands first w₂ other in
            let same : first ≡ response = cc in
            inl (token, ground arith, (given, rw (← same) sent, ap world run))
      ]

-- ===== src/Sender/Agreement.antt =====
-- src/effectSender.ts and src/promiseSender.ts: the two senders send the same request and read the
-- answer in the same way.
use engineering_with_effect.Prelude.{
  ◌≡◌, refl, ◌∙◌, sym, inl, inr, Bool, true, Option, none, some, [], ◌∷◌, Bool-cases, codes,
  same_text,
}
use engineering_with_effect.Prelude.Maps
use engineering_with_effect.Prelude.Maps.{map_laws}
use engineering_with_effect.Prelude.Decimals.{number_text}
use engineering_with_effect.Sender.Clients.{HttpResponse, byte_length, with_length, IsSame, Host}
use engineering_with_effect.Sender.{
  DeliveryRequest, fetched, http_client_request, fetch_request, post, post_with_fetch,
}

-- What Node's client sends is what `fetch` makes of the request that it is given.
requests-IsSame :
    (r : DeliveryRequest) → IsSame (http_client_request r) (with_length (fetch_request r).0)
unfolding http_client_request fetch_request with_length Maps.get Maps.set same_text
requests-IsSame r = record {
  method = refl;
  endpoint = refl;
  body = refl;
  headers = λ name. elim (Bool-cases (same_text (codes "authorization") name)) [
    | inl y ↦ rw y refl
    | inr n ↦
        let l = number_text (byte_length r.body) in
        rw n (
          Maps.get-swap ((codes "content-length", l) ∷ []) (codes "idempotency-key")
            (codes "content-type") name _ _ refl)
  ];
}

abbrev pub goes_through : Option HttpResponse → Bool
goes_through none = true
goes_through (some r) = r.cancels

module _ (host : Host) (r : DeliveryRequest) where
  -- Both clients have the response of one exchange.
  execute-fetched : host.execute (http_client_request r) ≡ fetched host r
  unfolding fetched fetch_request http_client_request with_length
  execute-fetched =
      host.execute-exchange (http_client_request r)
      ∙ host.exchange-IsSame (http_client_request r) (with_length (fetch_request r).0)
          (requests-IsSame r)
      ∙ sym (host.fetch-manual (fetch_request r).0)

  lost : fetched host r ≡ none → (post host r ≡ none) × (post_with_fetch host r ≡ none)
  unfolding post post_with_fetch
  lost n = let e = execute-fetched ∙ n in (rw (post, e) refl, rw (post_with_fetch, n) refl)

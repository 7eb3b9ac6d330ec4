-- ===== src/Sender.antt =====
-- src/effectSender.ts, src/promiseSender.ts, src/destinationClient.ts and src/workflow.ts: the request of
-- an attempt, its two clients, and the classification of what the destination answers. The host is a
-- parameter.
pub mod Clients
pub mod Agreement
use engineering_with_effect.Prelude.{
  ℕ, ◌+◌, ◌-◌, ◌/◌, ◌%◌, Bool, ◌||◌, Option, none, some, [], ◌∷◌, ◌++◌, ltb, ◌==◌, if◌then◌else◌,
  Text, codes, Result, ok, err,
}
use engineering_with_effect.Prelude.Maps
use engineering_with_effect.Prelude.Decimals.{number_text}
use engineering_with_effect.Model.Ids.{DeliveryId, DestinationId, Url}
use engineering_with_effect.Model.Event.{RelayEvent, Destination}
use engineering_with_effect.Model.Outcome.{
  DeliveryResponseEvidence, DeliveryOutcome, ℤ, classify_delivery_response,
}
use engineering_with_effect.EventIntake.{topic_text}
use engineering_with_effect.Sender.Clients.{
  Method, Redirect, HttpRequest, HttpResponse, with_length, Host,
}

pub record DeliveryRequest : Type 0 where
  pub delivery_id : DeliveryId
  pub destination_id : DestinationId
  pub endpoint : Url
  pub authorization : Text
  pub body : Text

abbrev hex_digit : ℕ → ℕ
hex_digit d = if ltb d 10 then b'0' + d else b'a' + (d - 10)

-- What `JSON.stringify` writes for a code point inside a string.
abbrev json_char : ℕ → Text
json_char c =
    if c == b'"' || c == b'\\'
    then b'\\' ∷ c ∷ []
    else if c == 8
    then codes "\\b"
    else if c == 9
    then codes "\\t"
    else if c == 10
    then codes "\\n"
    else if c == 12
    then codes "\\f"
    else if c == 13
    then codes "\\r"
    else if ltb c 32
    then codes "\\u00" ++ hex_digit (c / 16) ∷ hex_digit (c % 16) ∷ []
    else c ∷ []

unfoldable json_chars : Text → Text
json_chars [] = []
json_chars (c ∷ cs) = json_char c ++ json_chars cs

abbrev json_string : Text → Text
json_string t = (b'"' ∷ json_chars t) ++ b'"' ∷ []

-- `JSON.stringify(event)`, with the fields in the schema's order.
unfoldable pub json_event : RelayEvent → Text
unfolding json_chars number_text
json_event e =
    codes "{\"id\":"
    ++ json_string e.id
    ++ codes ",\"type\":"
    ++ json_string (topic_text e.event_type)
    ++ codes ",\"invoiceId\":"
    ++ json_string e.invoice_id
    ++ codes ",\"amountCents\":"
    ++ number_text e.amount_cents
    ++ codes "}"

unfoldable pub make_delivery_request : DeliveryId → RelayEvent → Destination → DeliveryRequest
unfolding json_event
make_delivery_request delivery_id event destination = record {
  delivery_id = delivery_id;
  destination_id = destination.id;
  endpoint = destination.endpoint;
  authorization = destination.authorization;
  body = json_event event;
}

abbrev bearer : Text → Text
bearer token = codes "Bearer " ++ token

abbrev quoted : Text → Text
quoted id = (b'"' ∷ id) ++ b'"' ∷ []

-- `DestinationClient.post` sets one header after the other; `bodyText` sets the last two.
unfoldable pub http_client_request : DeliveryRequest → HttpRequest
unfolding with_length
http_client_request r = with_length (record {
  method = Method.post;
  endpoint = r.endpoint;
  headers =
      Maps.set
        (Maps.set (Maps.set [] (codes "authorization") (bearer r.authorization))
          (codes "idempotency-key") (quoted r.delivery_id))
        (codes "content-type") (codes "application/json");
  body = r.body;
})

-- What `makePromiseFetchDestinationClient` gives to `fetch`: the request, with all its headers at
-- once, and what becomes of a redirection.
unfoldable pub fetch_request : DeliveryRequest → HttpRequest × Redirect
fetch_request r = (
  record {
    method = Method.post;
    endpoint = r.endpoint;
    headers =
        (codes "authorization", bearer r.authorization)
        ∷ (codes "content-type", codes "application/json")
        ∷ (codes "idempotency-key", quoted r.delivery_id)
        ∷ [];
    body = r.body;
  },
  Redirect.manual,
)

abbrev pub evidence : HttpResponse → DeliveryResponseEvidence
evidence response = record {
  status = response.status;
  retry_after = Maps.get response.headers (codes "retry-after");
}

-- A promise client may answer with a bare status.
pub data PromiseAnswer : Type 0 where
  status : ℕ → PromiseAnswer
  response : DeliveryResponseEvidence → PromiseAnswer

module _ (host : Host) where
  -- `none` is a `DeliveryTransportError`. The response is released with its scope.
  unfoldable pub post : DeliveryRequest → Option DeliveryResponseEvidence
  unfolding http_client_request
  post request = elim (host.execute (http_client_request request)) [
    | none ↦ none
    | some r ↦ some (evidence r)
  ]

  -- `fetch(endpoint, init)`
  unfoldable pub fetched : DeliveryRequest → Option HttpResponse
  unfolding fetch_request
  fetched request = host.fetch (fetch_request request).0 (fetch_request request).1

  -- `none` is a rejection. A body that cannot be cancelled rejects in `finally`.
  unfoldable pub post_with_fetch : DeliveryRequest → Option PromiseAnswer
  unfolding fetched
  post_with_fetch request = elim (fetched request) [
    | none ↦ none
    | some r ↦ if r.cancels then some (response (evidence r)) else none
  ]

module _ (date_parse : Text → Option ℤ) where
  -- `sendDelivery`
  unfoldable pub send_delivery :
      (DeliveryRequest → Option DeliveryResponseEvidence)
      → ℕ
      → DeliveryId
      → RelayEvent
      → Destination
      → Option DeliveryOutcome
  unfolding make_delivery_request classify_delivery_response
  send_delivery client now delivery_id event destination =
      elim (client (make_delivery_request delivery_id event destination)) [
        | none ↦ none
        | some r ↦ some (classify_delivery_response date_parse destination.id r now)
      ]

  -- `sendDeliveryWithPromise`
  unfoldable pub send_delivery_with_promise :
      (DeliveryRequest → Option PromiseAnswer)
      → ℕ
      → DeliveryId
      → RelayEvent
      → Destination
      → Option DeliveryOutcome
  unfolding make_delivery_request classify_delivery_response
  send_delivery_with_promise client now delivery_id event destination =
      elim (client (make_delivery_request delivery_id event destination)) [
        | none ↦ none
        | some (status n) ↦ some (
            classify_delivery_response date_parse destination.id
              (record { status = n; retry_after = none }) now)
        | some (response r) ↦ some (classify_delivery_response date_parse destination.id r now)
      ]

  -- `deliverCandidate`, where `decode` is the schema's; a failure of the decoder and one of the
  -- transport are told apart.
  unfoldable deliver_candidate :
      {C : Type 0}
      → (C → Result Text RelayEvent)
      → (DeliveryRequest → Option DeliveryResponseEvidence)
      → ℕ
      → DeliveryId
      → C
      → Destination
      → Result Text (Option DeliveryOutcome)
  unfolding send_delivery
  deliver_candidate decode client now delivery_id candidate destination = elim (decode candidate) [
    | err summary ↦ err summary
    | ok event ↦ ok (send_delivery client now delivery_id event destination)
  ]

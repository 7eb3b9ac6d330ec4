-- ===== src/Sender/Clients.antt =====
-- The host of src/destinationClient.ts and src/promiseSender.ts: its HTTP client (the one of Node in
-- src/main.node.ts and src/runtime.ts) and its `fetch`, over one network.
use engineering_with_effect.Prelude.{
  ℕ, ◌+◌, ◌≡◌, Bool, Option, [], ◌∷◌, ltb, if◌then◌else◌, Text, codes,
}
use engineering_with_effect.Prelude.Maps
use engineering_with_effect.Prelude.Decimals.{number_text}
use engineering_with_effect.Model.Ids.{Url}

pub data Method : Type 0 where
  get post : Method

-- `RequestInit["redirect"]`
pub data Redirect : Type 0 where
  follow error manual : Redirect

-- A request, with the names of its headers in lower case, and what comes back: a status, the headers,
-- and whether the cancellation of an unread body goes through.
pub record HttpRequest : Type 0 where
  pub method : Method
  pub endpoint : Url
  pub headers : Maps.Map Text
  pub body : Text

pub record HttpResponse : Type 0 where
  pub status : ℕ
  pub headers : Maps.Map Text
  pub cancels : Bool

-- The bytes of a text in UTF-8.
abbrev pub byte_length : Text → ℕ
byte_length [] = 0
byte_length (c ∷ cs) =
    (if ltb c 128 then 1 else if ltb c 2048 then 2 else if ltb c 65536 then 3 else 4)
    + byte_length cs

-- The header that tells the length of the body.
unfoldable pub with_length : HttpRequest → HttpRequest
with_length r = record r {
  headers = Maps.set r.headers (codes "content-length") (number_text (byte_length r.body));
}

-- The same request, with its headers in whichever order.
pub record IsSame (x y : HttpRequest) : Type 0 where
  pub method : x.method ≡ y.method
  pub endpoint : x.endpoint ≡ y.endpoint
  pub body : x.body ≡ y.body
  pub headers : (name : Text) → Maps.get x.headers name ≡ Maps.get y.headers name

-- `exchange` sends one request over the network, and has the response to it or fails; it does not
-- mind the order of the headers. `execute` is Node's HTTP client, which hands back whatever status
-- comes, also a redirection. `fetch` tells the length of the body itself, and hands a redirection back
-- where it is told `manual`; of the other two modes nothing is asked.
pub record Host : Type 0 where
  pub exchange : HttpRequest → Option HttpResponse
  pub execute : HttpRequest → Option HttpResponse
  pub fetch : HttpRequest → Redirect → Option HttpResponse
  pub exchange-IsSame : (x y : HttpRequest) → IsSame x y → exchange x ≡ exchange y
  pub execute-exchange : (r : HttpRequest) → execute r ≡ exchange r
  pub fetch-manual : (r : HttpRequest) → fetch r Redirect.manual ≡ exchange (with_length r)

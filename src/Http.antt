-- ===== src/Http.antt =====
-- src/httpServer.ts and src/operationsApi.ts: problems with their statuses, the secrets, the contract of
-- requests, and the headers of responses. Routing, decoding and encoding are the framework's.
pub mod Guards
pub mod Handlers
pub mod Operators
pub mod Events
use engineering_with_effect.Model.Outcome.{trim}
use engineering_with_effect.Prelude.{
  ℕ, ◌+◌, Bool, false, not, ◌&&◌, Option, none, some, List, [], ◌∷◌, map, leb, ◌==◌, if◌then◌else◌,
  length, Text, codes, same_text,
}

pub data Problem : Type 0 where
  invalid_event unsupported_media_type overloaded not_ready idempotency_conflict unauthorized
        internal_error delivery_not_found not_dead_lettered destination_mismatch :
      Problem

-- `httpApiStatus`
abbrev problem_status : Problem → ℕ
problem_status Problem.invalid_event = 400
problem_status Problem.unsupported_media_type = 415
problem_status Problem.overloaded = 503
problem_status Problem.not_ready = 503
problem_status Problem.idempotency_conflict = 409
problem_status Problem.unauthorized = 401
problem_status Problem.internal_error = 500
problem_status Problem.delivery_not_found = 404
problem_status Problem.not_dead_lettered = 409
problem_status Problem.destination_mismatch = 409

-- The part before the first semicolon.
unfoldable before_semicolon : Text → Text
before_semicolon [] = []
before_semicolon (c ∷ cs) = let rest = before_semicolon cs in if c == b';' then [] else c ∷ rest

-- `toLowerCase` on ASCII letters; no other letter has a lower case that occurs in "application/json".
abbrev pub lower : ℕ → ℕ
lower c = if leb b'A' c && leb c b'Z' then c + 32 else c

unfoldable pub is_json : Option Text → Bool
unfolding before_semicolon
is_json none = false
is_json (some content_type) =
    same_text (map lower (trim (before_semicolon content_type))) (codes "application/json")

-- How an effect of the framework ends: a response with its status, a problem, a failure of a schema,
-- or a defect, which may be a request that could not be parsed.
pub data HttpExit (A : Type 0) : Type 0 where
  response : ℕ → A → HttpExit A
  failed : Problem → HttpExit A
  schema_failed : HttpExit A
  died : (request_parse_error : Bool) → HttpExit A

abbrev pub HttpEffect : Type 0 → Type 0 → Type 0
HttpEffect S A = S → HttpExit A × S

-- `timingSafeEqual` of the host, which throws on inputs of different lengths, and the bytes of a text.
module _ (timing_safe_equal : List ℕ → List ℕ → Option Bool) (bytes : Text → List ℕ) where
  -- `none`: the comparison has thrown.
  unfoldable pub same_secret : Text → Text → Option Bool
  same_secret left right =
      if length (bytes left) == length (bytes right)
      then timing_safe_equal (bytes left) (bytes right)
      else some false

  -- The bearer middleware of deliveries, and that of operations word for word.
  unfoldable pub authorize : {S A : Type 0} → Text → Text → HttpEffect S A → HttpEffect S A
  unfolding same_secret
  authorize token credential inner s = elim (same_secret credential token) [
    | none ↦ (died false, s)
    | some same ↦ if same then inner s else (failed Problem.unauthorized, s)
  ]

-- What the contract makes of the end of the inner effect.
unfoldable pub contract_exit : {A : Type 0} → HttpExit A → HttpExit A
contract_exit (response status a) =
    if status == 415 then failed Problem.unsupported_media_type else response status a
contract_exit (failed problem) = failed problem
contract_exit schema_failed = failed Problem.invalid_event
contract_exit (died request_parse_error) =
    if request_parse_error then failed Problem.invalid_event else died false

-- `RequestContractLive`; the limit of the body's size is the framework's to keep.
unfoldable pub request_contract : {S A : Type 0} → Option Text → HttpEffect S A → HttpEffect S A
unfolding contract_exit
request_contract content_type inner s =
    if not (is_json content_type)
    then (failed Problem.unsupported_media_type, s)
    else (let (x, s') = inner s in (contract_exit x, s'))

-- `ReadinessHttpRoute`: the status, and whether "ready" is written.
abbrev readiness_response : Bool → ℕ × Bool
readiness_response ready = (if ready then 200 else 503, ready)

-- ===== src/Model/Outcome.antt =====
-- src/model.ts: delivery outcomes and the classification of responses.
use engineering_with_effect.Prelude.{
  ℕ, ◌+◌, ◌-◌, ◌*◌, ◌/◌, ◌^◌, Bool, false, ◌&&◌, ◌||◌, Option, none, some, [], ◌∷◌, ltb, leb, ◌==◌,
  if◌then◌else◌, Text,
}
use engineering_with_effect.Model.Ids.{DestinationId, is_digit, all_chars}

pub data RetryReason : Type 0 where
  ambiguous_response rate_limited provider_failure : RetryReason

pub data DeliveryOutcome : Type 0 where
  delivered : DestinationId → ℕ → DeliveryOutcome
  rejected : DestinationId → ℕ → DeliveryOutcome
  retryable : DestinationId → ℕ → RetryReason → Option ℕ → DeliveryOutcome
  protocol_failure : DestinationId → ℕ → DeliveryOutcome
  transport_failure : DestinationId → DeliveryOutcome
  timed_out : DestinationId → DeliveryOutcome

pub record DeliveryResponseEvidence : Type 0 where
  pub status : ℕ
  pub retry_after : Option Text

-- A time value of `Date.parse`: milliseconds since the epoch, or before it.
pub data ℤ : Type 0 where
  pos : ℕ → ℤ
  negsuc : ℕ → ℤ

-- `Number.MAX_SAFE_INTEGER`
abbrev max_safe_integer : ℕ
max_safe_integer = 2 ^ 53 - 1

-- ECMAScript's white space and line terminators, which `trim` removes.
abbrev is_space : ℕ → Bool
is_space c =
    (leb 9 c && leb c 13)
    || c == 32
    || c == 160
    || c == 5760
    || (leb 8192 c && leb c 8202)
    || c == 8232
    || c == 8233
    || c == 8239
    || c == 8287
    || c == 12288
    || c == 65279

unfoldable trim_start : Text → Text
trim_start [] = []
trim_start (c ∷ cs) = let rest = trim_start cs in if is_space c then rest else c ∷ cs

add_trimmed : ℕ → Text → Text
add_trimmed c [] = if is_space c then [] else c ∷ []
add_trimmed c (d ∷ ds) = c ∷ d ∷ ds

unfoldable trim_end : Text → Text
unfolding add_trimmed
trim_end [] = []
trim_end (c ∷ cs) = add_trimmed c (trim_end cs)

unfoldable pub trim : Text → Text
unfolding trim_start trim_end
trim t = trim_end (trim_start t)

-- `/^\d+$/`
unfoldable is_decimal : Text → Bool
unfolding all_chars
is_decimal [] = false
is_decimal (c ∷ cs) = all_chars is_digit (c ∷ cs)

unfoldable decimal_value : ℕ → Text → ℕ
decimal_value n [] = n
decimal_value n (c ∷ cs) = decimal_value (n * 10 + (c - b'0')) cs

-- `Math.max(0, timestamp - nowMillis)`
abbrev millis_until : ℤ → ℕ → ℕ
millis_until (pos t) now = t - now
millis_until (negsuc t) now = 0

-- The numeric branch of `parseRetryAfterMillis`.
unfoldable retry_after_seconds : ℕ → Option ℕ
retry_after_seconds seconds =
    if leb seconds max_safe_integer && leb seconds (max_safe_integer / 1000)
    then some (seconds * 1000)
    else none

-- `Date.parse` is the host's: `none` stands for `NaN`.
module _ (date_parse : Text → Option ℤ) where
  unfoldable parse_trimmed : Text → ℕ → Option ℕ
  unfolding is_decimal decimal_value retry_after_seconds
  parse_trimmed trimmed now =
      if is_decimal trimmed
      then retry_after_seconds (decimal_value 0 trimmed)
      else elim (date_parse trimmed) [ none ↦ none | some t ↦ some (millis_until t now) ]

  unfoldable pub parse_retry_after_millis : Option Text → ℕ → Option ℕ
  unfolding parse_trimmed trim
  parse_retry_after_millis none now = none
  parse_retry_after_millis (some value) now = parse_trimmed (trim value) now

  unfoldable pub classify_delivery_response :
      DestinationId → DeliveryResponseEvidence → ℕ → DeliveryOutcome
  classify_delivery_response destination_id response now =
      let status = response.status in
      if leb 200 status && ltb status 300
      then DeliveryOutcome.delivered destination_id status
      else if status == 408 || status == 425
      then DeliveryOutcome.retryable destination_id status ambiguous_response none
      else if status == 429
      then DeliveryOutcome.retryable destination_id status rate_limited
          (parse_retry_after_millis response.retry_after now)
      else if leb 500 status && ltb status 600
      then DeliveryOutcome.retryable destination_id status provider_failure none
      else if leb 300 status && ltb status 500
      then DeliveryOutcome.rejected destination_id status
      else DeliveryOutcome.protocol_failure destination_id status

  unfoldable classify_delivery_status : DestinationId → ℕ → DeliveryOutcome
  unfolding classify_delivery_response
  classify_delivery_status destination_id status =
      classify_delivery_response destination_id (record { status = status; retry_after = none }) 0

-- ===== src/Model/Ids.antt =====
-- src/model.ts: branded identifiers and the patterns that their schemas check.
use engineering_with_effect.Prelude.{
  ℕ, Bool, true, false, not, ◌&&◌, ◌||◌, Option, none, some, [], ◌∷◌, leb, ◌==◌, if◌then◌else◌,
  length, Text, codes,
}

abbrev pub EventId : Type 0
EventId = Text

abbrev pub DeliveryId : Type 0
DeliveryId = Text

abbrev pub WorkerId : Type 0
WorkerId = Text

abbrev pub DestinationId : Type 0
DestinationId = Text

abbrev pub InvoiceId : Type 0
InvoiceId = Text

abbrev pub IngestionKey : Type 0
IngestionKey = Text

abbrev pub RequestFingerprint : Type 0
RequestFingerprint = Text

-- A `URL`, as its `href`.
abbrev pub Url : Type 0
Url = Text

-- `[a-z]`, `[A-Z]`, `[0-9]`, `[0-9a-f]`
abbrev is_lower : ℕ → Bool
is_lower c = leb b'a' c && leb c b'z'

abbrev is_upper : ℕ → Bool
is_upper c = leb b'A' c && leb c b'Z'

abbrev pub is_digit : ℕ → Bool
is_digit c = leb b'0' c && leb c b'9'

abbrev is_hex : ℕ → Bool
is_hex c = is_digit c || (leb b'a' c && leb c b'f')

-- `[a-z0-9]+(?:-[a-z0-9]+)*$`; `started` tells whether the current segment has a character.
unfoldable pub is_slug : Bool → Text → Bool
is_slug started [] = started
is_slug started (c ∷ cs) =
    let plain = is_lower c || is_digit c in (plain || (c == b'-' && started)) && is_slug plain cs

-- The text behind a prefix, if it has that prefix.
unfoldable pub strip_prefix : Text → Text → Option Text
strip_prefix [] t = some t
strip_prefix (p ∷ ps) [] = none
strip_prefix (p ∷ ps) (c ∷ cs) = if p == c then strip_prefix ps cs else none

unfoldable is_prefixed_slug : Text → Text → Bool
unfolding is_slug strip_prefix
is_prefixed_slug prefix t = elim (strip_prefix prefix t) [
  | none ↦ false
  | some rest ↦ is_slug false rest
]

unfoldable is_event_id : Text → Bool
unfolding is_prefixed_slug
is_event_id = is_prefixed_slug (codes "evt-")

unfoldable is_delivery_id : Text → Bool
unfolding is_prefixed_slug
is_delivery_id = is_prefixed_slug (codes "dlv-")

unfoldable pub is_worker_id : Text → Bool
unfolding is_prefixed_slug
is_worker_id = is_prefixed_slug (codes "wrk-")

unfoldable pub is_destination_id : Text → Bool
unfolding is_prefixed_slug
is_destination_id = is_prefixed_slug (codes "dst-")

unfoldable pub is_invoice_id : Text → Bool
unfolding is_prefixed_slug
is_invoice_id = is_prefixed_slug (codes "inv-")

unfoldable pub all_chars : (ℕ → Bool) → Text → Bool
all_chars p [] = true
all_chars p (c ∷ cs) = p c && all_chars p cs

-- `[A-Za-z0-9]` and `[A-Za-z0-9._:-]`
abbrev is_alphanumeric : ℕ → Bool
is_alphanumeric c = is_upper c || is_lower c || is_digit c

abbrev is_key_char : ℕ → Bool
is_key_char c = is_alphanumeric c || c == b'.' || c == b'_' || c == b':' || c == b'-'

starts_alphanumeric : Text → Bool
starts_alphanumeric [] = false
starts_alphanumeric (c ∷ cs) = is_alphanumeric c

unfoldable is_ingestion_key : Text → Bool
unfolding starts_alphanumeric all_chars
is_ingestion_key t =
    leb 1 (length t) && leb (length t) 128 && starts_alphanumeric t && all_chars is_key_char t

unfoldable pub is_request_fingerprint : Text → Bool
unfolding all_chars
is_request_fingerprint t = length t == 64 && all_chars is_hex t

-- `^(?!0{n}$)[0-9a-f]{n}$`, a trace or span identifier of `n` digits.
unfoldable pub is_trace_hex : ℕ → Text → Bool
unfolding all_chars
is_trace_hex n t = length t == n && all_chars is_hex t && not (all_chars (λ c. c == b'0') t)

-- ===== src/EventIntake/Replays.antt =====
-- src/eventIntake.ts: different submissions are told apart, and a repeated submission is answered
-- with the first acceptance.
use engineering_with_effect.Prelude.{
  ℕ, ◌^◌, ◌<◌, ◌≡◌, refl, sym, ap, ◌∙◌, inl, inr, Bool, true, false, not, ◌&&◌, ◌||◌, Option, some,
  List, [], ◌∷◌, ◌++◌, arith, leb, ◌==◌, if◌then◌else◌, Bool-cases, Option-cases, Text, codes,
  same_text, Result, ok, err, Action,
}
use engineering_with_effect.Prelude.Decimals.{number_text, number_text_injective}
use engineering_with_effect.Model.Ids.{is_invoice_id, is_slug, strip_prefix}
use engineering_with_effect.Model.Event.{EventType, invoice_created, EventSubmission, DeliveryClaim}
use engineering_with_effect.Errors.{RepositoryFailure, IntakeFailure, ingestion_conflict}
use engineering_with_effect.Services.{
  ClaimedDelivery, IntakeRecord, IntakeDecision, IntakeDecisionFields, accepted, replay,
  decision_fields,
}
use engineering_with_effect.Contract.Fencing.{Step, run}
use engineering_with_effect.Memory.{Store}
use engineering_with_effect.Memory.Intake
use engineering_with_effect.Memory.History.{memory}
use engineering_with_effect.Memory.Idempotency.{accept_idempotent}
use engineering_with_effect.EventIntake.{
  store_failed, topic_text, normalized, Settings, intake_record, acceptance, accept,
  store_and_hand_over, hand_over,
}

-- What stands before and after the first line break.
first_line : Text → Text
first_line [] = []
first_line (c ∷ cs) = let rest = first_line cs in if c == b'\n' then [] else c ∷ rest

later_lines : Text → Text
later_lines [] = []
later_lines (c ∷ cs) = let rest = later_lines cs in if c == b'\n' then cs else rest

unfoldable is_one_line : Text → Bool
is_one_line [] = true
is_one_line (c ∷ cs) = not (c == b'\n') && is_one_line cs

lines-append :
    (xs ys : Text)
    → is_one_line xs ≡ true
    → (first_line (xs ++ (b'\n' ∷ ys)) ≡ xs) × (later_lines (xs ++ (b'\n' ∷ ys)) ≡ ys)
unfolding first_line later_lines is_one_line
lines-append [] ys h = (refl, refl)
lines-append (x ∷ xs) ys h =
    let n : (x == b'\n') ≡ false = ground arith in
    let (a, b) = lines-append xs ys (ground arith) in (rw n (ap (λ (t : Text). x ∷ t) a), rw n b)

is_one_line-slug : (started : Bool) (t : Text) → is_slug started t ≡ true → is_one_line t ≡ true
unfolding is_slug is_one_line
is_one_line-slug started [] h = refl
is_one_line-slug started (c ∷ cs) h =
    let plain = (leb b'a' c && leb c b'z') || (leb b'0' c && leb c b'9') in
    ground (arith, is_one_line-slug plain cs)

is_one_line-prefixed :
    (p t rest : Text)
    → is_one_line p ≡ true
    → is_one_line rest ≡ true
    → strip_prefix p t ≡ some rest
    → is_one_line t ≡ true
unfolding strip_prefix is_one_line
is_one_line-prefixed [] t rest hp hr h = ground (arith, h)
is_one_line-prefixed (p ∷ ps) [] rest hp hr h = refl
is_one_line-prefixed (p ∷ ps) (c ∷ cs) rest hp hr h =
    ground (arith, is_one_line-prefixed ps cs rest)

is_one_line-invoice_id : (t : Text) → is_invoice_id t ≡ true → is_one_line t ≡ true
unfolding is_invoice_id is_one_line
is_one_line-invoice_id t h = elim (Option-cases (strip_prefix (codes "inv-") t)) [
  | inl n ↦ absurd (ground arith)
  | inr (rest, e) ↦
      is_one_line-prefixed (codes "inv-") t rest refl (is_one_line-slug false rest (ground arith)) e
]

is_one_line-topic_text : (t : EventType) → is_one_line (topic_text t) ≡ true
unfolding is_one_line
is_one_line-topic_text invoice_created = refl

-- What stands behind the two header lines.
normalized-later_lines :
    (s : EventSubmission)
    → later_lines (later_lines (normalized s))
      ≡ s.invoice_id ++ (b'\n' ∷ number_text s.amount_cents)
unfolding normalized is_one_line
normalized-later_lines s =
    let body = s.invoice_id ++ (b'\n' ∷ number_text s.amount_cents) in
    let (a, b) =
      lines-append (codes "relay-intake-v1") (topic_text s.topic ++ (b'\n' ∷ body)) refl in
    let (c, d) = lines-append (topic_text s.topic) body (is_one_line-topic_text s.topic) in
    ap later_lines b ∙ d

-- Two submissions whose identifiers meet their pattern, and whose amounts are below 10 ^ 16, as the
-- schema's safe integers are, have the same normalized text only where invoice and amount agree: only
-- a collision of the digest can take one for the other.
pub normalized_injective :
    (x y : EventSubmission)
    → is_invoice_id x.invoice_id ≡ true
    → is_invoice_id y.invoice_id ≡ true
    → x.amount_cents < 10 ^ 16
    → y.amount_cents < 10 ^ 16
    → normalized x ≡ normalized y
    → (x.invoice_id ≡ y.invoice_id) × (x.amount_cents ≡ y.amount_cents)
normalized_injective x y vx vy ax ay e =
    let same =
      sym (normalized-later_lines x)
      ∙ (ap (λ t. later_lines (later_lines t)) e ∙ normalized-later_lines y) in
    let (a, b) =
      lines-append x.invoice_id (number_text x.amount_cents)
        (is_one_line-invoice_id x.invoice_id vx) in
    let (c, d) =
      lines-append y.invoice_id (number_text y.amount_cents)
        (is_one_line-invoice_id y.invoice_id vy) in
    (
      sym a ∙ (ap first_line same ∙ c),
      number_text_injective x.amount_cents y.amount_cents ax ay (sym b ∙ (ap later_lines same ∙ d)),
    )

-- A submission that decodes, and whose digest and identifiers can be made, comes to the store.
pub accept-stores :
    {C S : Type 0}
    → (decode : C → Result Text EventSubmission) (digest : Text → Option Text)
      (store_accept : IntakeRecord → Action S IntakeFailure IntakeDecision)
      (enqueue : ClaimedDelivery → Action S RepositoryFailure (Unit {0})) (k : Settings)
      (u v : Text) (now : ℕ) (key : Text) (candidate : C) (s : S) (submission : EventSubmission)
      (print : Text)
    → decode candidate ≡ ok submission
    → digest (normalized submission) ≡ some print
    → accept decode digest store_accept enqueue k (some u) (some v) now key candidate s
      ≡ store_and_hand_over decode digest store_accept enqueue k
          (intake_record k key submission print (codes "evt-" ++ u) (codes "dlv-" ++ v) now)
          s
unfolding accept
accept-stores decode digest store_accept enqueue k u v now key candidate s submission print d p =
    rw (d, accept) (rw p refl)

-- What is new and handed over is answered as accepted.
pub store-accepted :
    {C S : Type 0}
    → (decode : C → Result Text EventSubmission) (digest : Text → Option Text)
      (store_accept : IntakeRecord → Action S IntakeFailure IntakeDecision)
      (enqueue : ClaimedDelivery → Action S RepositoryFailure (Unit {0})) (k : Settings)
      (r : IntakeRecord) (s s1 t : S) (f : IntakeDecisionFields) (claim : DeliveryClaim)
    → store_accept r s ≡ (ok (accepted f claim), s1)
    → enqueue
        (record {
          claim = claim;
          claim_lag_millis = 0;
          delivery = f.delivery;
          event = f.event;
          next_attempt_ordinal = 1;
          route = some f.route;
        })
        s1
      ≡ (ok tt, t)
    → store_and_hand_over decode digest store_accept enqueue k r s
      ≡ (ok (acceptance (accepted f claim)), t)
unfolding store_and_hand_over hand_over
store-accepted decode digest store_accept enqueue k r s s1 t f claim a e =
    let g : hand_over decode digest store_accept enqueue k (accepted f claim) (store_accept r s).1
        ≡ (ok tt, t) =
      rw (ap (λ x. x.1) a, hand_over) e in
    rw (store_and_hand_over, ap (λ x. x.0) a, ap (λ x. x.0) g, ap (λ x. x.1) g) refl

module _ {C : Type 0} (decode : C → Result Text EventSubmission) (digest : Text → Option Text)
    (enqueue_claimed : ClaimedDelivery → Action Store RepositoryFailure (Unit {0}))
    (k : Settings) where
  -- A replay is answered, and nothing is handed over.
  store-replay :
      (now : ℕ) (r : IntakeRecord) (s : Store) (f : IntakeDecisionFields)
      → Intake.accept now r s ≡ (ok (replay f), s)
      → store_and_hand_over decode digest (Intake.accept now) enqueue_claimed k r s
        ≡ (ok (acceptance (replay f)), s)
  unfolding store_and_hand_over hand_over
  store-replay now r s f h = ground (arith, h)

  store-err :
      (now : ℕ) (r : IntakeRecord) (s : Store) (e : IntakeFailure)
      → Intake.accept now r s ≡ (err e, s)
      → store_and_hand_over decode digest (Intake.accept now) enqueue_claimed k r s
        ≡ (err (store_failed e), s)
  unfolding store_and_hand_over hand_over
  store-err now r s e h = ground (arith, h)

  -- Once a key has been accepted by the in-memory store, then after any further history a decodable
  -- submission under that key, whose digest and identifiers could be made, changes nothing, and nothing is
  -- handed over: with the fingerprint of the first it is answered with the first acceptance, marked as
  -- replayed, and with another it fails with a conflict that names the first event.
  pub accept_replays :
      (ops : List (Step memory)) (at now : ℕ) (first : IntakeRecord) (s : Store)
      (d : IntakeDecision) (u v : Text) (candidate : C) (submission : EventSubmission)
      (print : Text)
      → (Intake.accept at first s).0 ≡ ok d
      → decode candidate ≡ ok submission
      → digest (normalized submission) ≡ some print
      → (let t = run memory ops (Intake.accept at first s).1 in
          accept decode digest
            (Intake.accept now)
            enqueue_claimed
            k
            (some u)
            (some v)
            now
            first.ingestion_key
            candidate
            t
          ≡ (if same_text first.request_fingerprint print
              then (ok (acceptance (replay (decision_fields d))), t)
              else (
                err (
                    store_failed
                      (ingestion_conflict first.ingestion_key (decision_fields d).event.id)),
                t,
              )))
  accept_replays ops at now first s d u v candidate submission print a e p =
      let t = run memory ops (Intake.accept at first s).1 in
      let r =
        intake_record k first.ingestion_key submission print (codes "evt-" ++ u) (codes "dlv-" ++ v)
          now in
      let i = accept_idempotent ops at now first r s d a refl in
      accept-stores decode digest (Intake.accept now) enqueue_claimed k u v now first.ingestion_key
        candidate t submission print e p
      ∙ elim (Bool-cases (same_text first.request_fingerprint print)) [
        | inl y ↦ rw y (store-replay now r t (decision_fields d) (i ∙ rw y refl))
        | inr n ↦ rw n (
            store-err now r t (ingestion_conflict first.ingestion_key (decision_fields d).event.id)
              (i ∙ rw n refl))
      ]

-- ===== src/Http/Events.antt =====
-- src/httpServer.ts with src/eventIntake.ts and the in-memory store: a repeated submission, from the
-- request to the response.
use engineering_with_effect.Prelude.{
  ℕ, ◌≡◌, refl, ◌∙◌, inl, inr, Bool, not, Option, some, List, if◌then◌else◌, Bool-cases, length,
  Text, same_text, Result, ok, err, Action,
}
use engineering_with_effect.Model.Event.{EventSubmission, EventAcceptance}
use engineering_with_effect.Errors.{RepositoryFailure, ingestion_conflict}
use engineering_with_effect.Services.{
  ClaimedDelivery, IntakeRecord, IntakeDecision, replay, decision_fields,
}
use engineering_with_effect.Contract.Fencing.{Step, run}
use engineering_with_effect.Memory.{Store}
use engineering_with_effect.Memory.Intake
use engineering_with_effect.Memory.History.{memory}
use engineering_with_effect.EventIntake.{
  Failure, Settings, normalized, acceptance, accept, store_failed,
}
use engineering_with_effect.EventIntake.Replays.{accept_replays}
use engineering_with_effect.Http.{
  Problem, HttpExit, response, failed, HttpEffect, authorize, request_contract, contract_exit,
  is_json,
}
use engineering_with_effect.Http.Handlers.{submit_event, event_exit}
use engineering_with_effect.Http.Guards.{authorize-cases}

-- The order in which a request can be turned away.
abbrev pub screened : {A : Type 0} → Bool → Bool → Bool → HttpExit A → HttpExit A
screened authorized json ready exit =
    if not authorized
    then failed Problem.unauthorized
    else (if not json
        then failed Problem.unsupported_media_type
        else (if not ready then failed Problem.not_ready else exit))

module _ (timing_safe_equal : List ℕ → List ℕ → Option Bool) (bytes : Text → List ℕ)
    (compares : (a b : List ℕ) → length a ≡ length b → timing_safe_equal a b ≡ some (same_text a b))
    {C : Type 0} (decode : C → Result Text EventSubmission) (digest : Text → Option Text)
    (enqueue_claimed : ClaimedDelivery → Action Store RepositoryFailure (Unit {0})) (k : Settings)
    (token : Text) where
  -- `POST /events` of a host that is ready or not, with the UUIDs and the clock that it draws.
  abbrev pub post_event :
      (ready : Bool) (credential : Text) (content_type : Option Text) (u v : Text) (now : ℕ)
      (key : Text) (candidate : C)
      → HttpEffect Store EventAcceptance
  post_event ready credential content_type u v now key candidate =
      authorize timing_safe_equal bytes token credential (
        request_contract content_type (
          submit_event ready
            (accept decode digest (Intake.accept now) enqueue_claimed k (some u) (some v) now) key
            candidate))

  screened-submission :
      (ready : Bool) (credential : Text) (content_type : Option Text) (u v : Text) (now : ℕ)
      (key : Text) (candidate : C) (r : Result Failure EventAcceptance) (s : Store)
      → accept decode digest
          (Intake.accept now)
          enqueue_claimed
          k
          (some u)
          (some v)
          now
          key
          candidate
          s
        ≡ (r, s)
      → post_event ready credential content_type u v now key candidate s ≡ (
        screened
            (same_text (bytes credential) (bytes token))
            (is_json content_type)
            ready
            (contract_exit (event_exit r)),
        s,
      )
  unfolding request_contract submit_event
  screened-submission ready credential content_type u v now key candidate r s h =
      let inner = request_contract content_type (
        submit_event ready
          (accept decode digest (Intake.accept now) enqueue_claimed k (some u) (some v) now) key
          candidate) in
      rw (authorize-cases timing_safe_equal bytes compares token credential s inner)
        (elim (Bool-cases (same_text (bytes credential) (bytes token))) [
          | inr n ↦ rw n refl
          | inl y ↦ elim (Bool-cases (is_json content_type)) [
            | inr n ↦ rw (y, n) refl
            | inl j ↦ elim (Bool-cases ready) [
              | inr n ↦ rw (y, j, n) refl
              | inl q ↦ rw (y, j, q, h) refl
            ]
          ]
        ])

  -- Once a key has been accepted by the in-memory store, then after any further history a request under
  -- that key, with a decodable submission whose digest and identifiers could be made, leaves the store
  -- as it is and is answered, in this order: 401 unless the credential has the token's bytes, 415 unless
  -- it is JSON, 503 unless the host is ready, 202 with the first acceptance marked as replayed where the
  -- fingerprint is the first's, and else 409.
  pub post_event-replay :
      (ops : List (Step memory)) (at now : ℕ) (first : IntakeRecord) (s : Store)
      (d : IntakeDecision) (u v : Text) (candidate : C) (submission : EventSubmission)
      (print : Text) (ready : Bool) (credential : Text) (content_type : Option Text)
      → (Intake.accept at first s).0 ≡ ok d
      → decode candidate ≡ ok submission
      → digest (normalized submission) ≡ some print
      → (let t = run memory ops (Intake.accept at first s).1 in
          post_event ready credential content_type u v now first.ingestion_key candidate t ≡ (
            screened (same_text (bytes credential) (bytes token)) (is_json content_type) ready (
                if same_text first.request_fingerprint print
                then response 202 (acceptance (replay (decision_fields d)))
                else failed Problem.idempotency_conflict),
            t,
          ))
  unfolding event_exit contract_exit
  post_event-replay ops at now first s d u v candidate submission print ready credential
        content_type a e p =
      let t = run memory ops (Intake.accept at first s).1 in
      let i =
        accept_replays decode digest enqueue_claimed k ops at now first s d u v candidate submission
          print a e p in
      elim (Bool-cases (same_text first.request_fingerprint print)) [
        | inl y ↦ rw y (
            screened-submission ready credential content_type u v now first.ingestion_key candidate
              (ok (acceptance (replay (decision_fields d)))) t (i ∙ rw y refl))
        | inr n ↦ rw n (
            screened-submission ready credential content_type u v now first.ingestion_key candidate
              (err (
                store_failed (ingestion_conflict first.ingestion_key (decision_fields d).event.id)))
              t (i ∙ rw n refl))
      ]

-- ===== src/Http/Guards.antt =====
-- src/httpServer.ts: what stands before a handler.
use engineering_with_effect.Prelude.{
  ℕ, ◌≡◌, refl, ap, ◌⊎◌, inl, inr, Bool, ◌&&◌, Option, some, List, arith, ◌==◌, if◌then◌else◌,
  Bool-cases, length, Text, same_text, eq_of_same_text,
}
use engineering_with_effect.Http.{
  Problem, HttpExit, failed, HttpEffect, same_secret, authorize, is_json, contract_exit,
  request_contract,
}

-- Secrets are compared without an exception, and are the same exactly where their bytes are.
same_secret-same_text :
    (timing_safe_equal : List ℕ → List ℕ → Option Bool) (bytes : Text → List ℕ)
    → ((a b : List ℕ) → length a ≡ length b → timing_safe_equal a b ≡ some (same_text a b))
    → (left right : Text)
    → same_secret timing_safe_equal bytes left right ≡ some (same_text (bytes left) (bytes right))
unfolding same_secret
same_secret-same_text compare bytes h left right =
    elim (Bool-cases (length (bytes left) == length (bytes right))) [
      | inl y ↦ rw y (h (bytes left) (bytes right) (ground arith))
      | inr n ↦ rw n (elim (Bool-cases (same_text (bytes left) (bytes right))) [
        | inl z ↦ absurd (ground (arith, ap length (eq_of_same_text (bytes left) (bytes right) z)))
        | inr m ↦ rw m refl
      ])
    ]

module _ (timing_safe_equal : List ℕ → List ℕ → Option Bool) (bytes : Text → List ℕ)
    (compares : (a b : List ℕ) → length a ≡ length b → timing_safe_equal a b ≡ some (same_text a b))
    {S A : Type 0} (token credential : Text) (s : S) where
  pub authorize-cases :
      (run : HttpEffect S A)
      → authorize timing_safe_equal bytes token credential run s ≡ (
          if same_text (bytes credential) (bytes token)
          then run s
          else (failed Problem.unauthorized, s))
  unfolding authorize
  authorize-cases run =
      rw (same_secret-same_text timing_safe_equal bytes compares credential token, authorize) refl

-- Refused: one of the two problems, and the state as it was.
abbrev pub IsTurnedAway : {S A : Type 0} → S → HttpExit A × S → Type 0
IsTurnedAway s (x, t) =
    (t ≡ s) × ((x ≡ failed Problem.unauthorized) ⊎ (x ≡ failed Problem.unsupported_media_type))

module _ (timing_safe_equal : List ℕ → List ℕ → Option Bool) (bytes : Text → List ℕ)
    (compares : (a b : List ℕ) → length a ≡ length b → timing_safe_equal a b ≡ some (same_text a b))
    {S A : Type 0} (token credential : Text) (content_type : Option Text) (inner : HttpEffect S A)
    (s : S) where
  -- In whichever order authorization and the contract of requests stand around a handler, it runs
  -- exactly when the credential has the token's bytes and the content is JSON, and is then answered
  -- under the contract; otherwise the request is refused as unauthorized or as of an unsupported type,
  -- and nothing has changed.
  pub guarded :
      (let outer =
          authorize timing_safe_equal bytes token credential
            (request_contract content_type inner)
            s in
        let within =
          request_contract content_type
            (authorize timing_safe_equal bytes token credential inner)
            s in
        if same_text (bytes credential) (bytes token) && is_json content_type
        then (outer ≡ (contract_exit (inner s).0, (inner s).1))
          × (within ≡ (contract_exit (inner s).0, (inner s).1))
        else (IsTurnedAway s outer × IsTurnedAway s within))
  unfolding request_contract contract_exit
  guarded =
      let e =
        authorize-cases timing_safe_equal bytes compares token credential s
          (request_contract content_type inner) in
      let f = authorize-cases timing_safe_equal bytes compares token credential s inner in
      elim (Bool-cases (same_text (bytes credential) (bytes token))) [
        | inl y ↦ elim (Bool-cases (is_json content_type)) [
          | inl j ↦ rw (e, f, y, j) (refl, refl)
          | inr j ↦ rw (e, f, y, j) ((refl, inr refl), (refl, inr refl))
        ]
        | inr n ↦ elim (Bool-cases (is_json content_type)) [
          | inl j ↦ rw (e, f, n, j) ((refl, inl refl), (refl, inl refl))
          | inr j ↦ rw (e, f, n, j) ((refl, inl refl), (refl, inr refl))
        ]
      ]

-- ===== src/Runtime.antt =====
-- src/runtime.ts and src/readiness.ts: how the application starts, says that it is ready, and shuts
-- down once, whoever asks. Building the layers and running effects are the host's.
pub mod Shutdown
use engineering_with_effect.Prelude.{
  ℕ, ◌+◌, ◌≡◌, Bool, true, false, not, ◌&&◌, ◌||◌, if◌then◌else◌, any,
}

-- How far `startRelayApplication` has come.
pub data Start : Type 0 where
  building has_context has_hook started refused : Start

-- `shutdownPromise`, from `undefined` to its settlement; whether marking has failed is kept while the
-- runtime is disposed of.
pub data Ending : Type 0 where
  not_begun marking : Ending
  disposing : (mark_failed : Bool) → Ending
  settled : (rejected : Bool) → Ending

pub record Runtime : Type 0 where
  pub start : Start
  -- The `Ref` of `RelayReadinessLive`, and whether `readiness` is assigned.
  pub ready : Bool
  pub has_readiness : Bool
  -- A shutdown hook is registered.
  pub hook : Bool
  pub ending : Ending
  -- How often `runtime.dispose` was called.
  pub disposals : ℕ

abbrev pub fresh : Runtime
fresh = record {
  start = building;
  ready = false;
  has_readiness = false;
  hook = false;
  ending = not_begun;
  disposals = 0;
}

abbrev pub has_begun : Ending → Bool
has_begun not_begun = false
has_begun _ = true

abbrev dispose : Bool → Runtime → Runtime
dispose mark_failed r = record r { ending = disposing mark_failed; disposals = r.disposals + 1 }

-- `shutdown`: a second call has the first one's promise. Without `readiness` there is nothing to mark.
unfoldable pub shutdown : Runtime → Runtime
shutdown r =
    if has_begun r.ending
    then r
    else (if r.has_readiness
        then record r { hook = false; ending = marking }
        else dispose false (record r { hook = false }))

-- `isReady`
unfoldable pub is_ready : Runtime → Bool
is_ready r = not (has_begun r.ending) && r.ready

abbrev is_starting : Start → Bool
is_starting started = false
is_starting refused = false
is_starting _ = true

abbrev pub is_started : Start → Bool
is_started started = true
is_started _ = false

abbrev pub is_refused : Start → Bool
is_refused refused = true
is_refused _ = false

-- What happens, in any order: the start goes on or fails, somebody asks for a shutdown through the hook
-- or the application, and a shutdown goes on.
pub data Step (r : Runtime) : Runtime → Type 0 where
  builds : r.start ≡ building → Step r (record r { start = has_context; has_readiness = true })
  hooks : r.start ≡ has_context → Step r (record r { start = has_hook; hook = true })
  -- `markReady` runs before anything else can be asked of the host, and its promise is awaited.
  serves : r.start ≡ has_hook → Step r (record r { start = started; ready = true })
  fails : is_starting r.start ≡ true → Step r (shutdown (record r { start = refused }))
  signals : r.hook ≡ true → Step r (shutdown r)
  asks : r.start ≡ started → Step r (shutdown r)
  marks : r.ending ≡ marking → Step r (dispose false (record r { ready = false }))
  fails_to_mark : r.ending ≡ marking → Step r (dispose true r)
  disposes :
      (mark_failed fails : Bool)
      → r.ending ≡ disposing mark_failed
      → Step r (record r { ending = settled (mark_failed || fails) })

pub data Steps (r : Runtime) : Runtime → Type 0 where
  done : Steps r r
  later : {s t : Runtime} → Steps r s → Step s t → Steps r t

-- ===== src/Tests/HostCases.antt =====
-- The properties of the senders, the runtime and the configuration at concrete hosts.
use engineering_with_effect.Prelude.{
  ◌≡◌, refl, true, false, Option, none, some, [], ◌∷◌, Text, codes, same_text,
}
use engineering_with_effect.Prelude.Maps
use engineering_with_effect.Model.Ids.{Url}
use engineering_with_effect.Model.Outcome.{ℤ, pos}
use engineering_with_effect.Sender.Clients.{Redirect, HttpRequest, HttpResponse, with_length}
use engineering_with_effect.Sender.{json_event}
use engineering_with_effect.Runtime.{
  Runtime, Steps, done, later, builds, hooks, serves, signals, marks, disposes, started, settled,
  fresh, shutdown,
}
use engineering_with_effect.Runtime.Shutdown.{IsOrderly, shut_down_once}
use engineering_with_effect.Configuration.Variables.{
  AppConfiguration, Duration, millis, app_configuration,
}
use engineering_with_effect.Configuration.Sound.{IsSound, app_configuration-IsSound}
use engineering_with_effect.Tests.Samples.{event}

body :
    json_event event
    ≡ codes
        "{\"id\":\"evt-1\",\"type\":\"invoice.created\",\"invoiceId\":\"inv-1\",\"amountCents\":1200}"
unfolding json_event
body = refl

-- A host that answers 429 where the request has the key of the delivery.
answer : Option Text → Option HttpResponse
answer none = none
answer (some key) = some (record {
  status = 429;
  headers = (codes "retry-after", codes "7") ∷ [];
  cancels = same_text key (codes "\"dlv-1\"");
})

exchange : HttpRequest → Option HttpResponse
exchange r = answer (Maps.get r.headers (codes "idempotency-key"))

-- A `fetch` that fails unless it hands redirections back.
fetch : HttpRequest → Redirect → Option HttpResponse
unfolding exchange
fetch r Redirect.manual = exchange (with_length r)
fetch r _ = none

abbrev never_parsed : Text → Option ℤ
never_parsed t = none

-- Started, asked to shut down by a signal, and disposed of.
abbrev stopped : Runtime
stopped = record {
  start = started;
  ready = false;
  has_readiness = true;
  hook = false;
  ending = settled false;
  disposals = 1;
}

stops : Steps fresh stopped
unfolding shutdown
stops =
    later
      (later
        (later (later (later (later done (builds refl)) (hooks refl)) (serves refl)) (signals refl))
        (marks refl))
      (disposes false false refl)

shut_down_once_example : IsOrderly stopped
shut_down_once_example = shut_down_once stopped stops

-- Every text is the number 5 here, or 5 milliseconds, or itself as a URL.
abbrev int_of : Text → Option ℤ
int_of t = some (pos 5)

abbrev duration_of : Text → Option Duration
duration_of t = some (millis (pos 5))

abbrev url_of : Text → Option Url
url_of t = some t

abbrev env : Maps.Map Text
env =
    (codes "RELAY_DESTINATION_URL", codes "https://crm.test/")
    ∷ (codes "RELAY_DESTINATION_AUTHORIZATION", codes "secret")
    ∷ (codes "RELAY_DELIVERY_REQUESTS_CAPACITY", codes "5")
    ∷ []

abbrev configuration : AppConfiguration
configuration = record {
  destination = record {
    id = codes "dst-primary";
    endpoint = codes "https://crm.test/";
    authorization = codes "secret";
  };
  destination_configuration_version = 1;
  concurrency = record { global = 64; per_destination = 4 };
  flow = record {
    delivery_requests_capacity = 5;
    delivery_requests_per_destination_capacity = 5;
    delivery_events_capacity = 64;
  };
  recovery = record {
    claim_batch_size = 64;
    claim_lease_duration = 30000;
    claim_renew_interval = 10000;
    poll_interval = 1000;
  };
  resilience = record {
    attempt_timeout = 30000000000;
    max_attempts = 8;
    max_elapsed = 86400000000000;
    base_delay = 1000000000;
    max_delay = 900000000000;
  };
}

configured : app_configuration int_of duration_of url_of env ≡ some configuration
unfolding app_configuration Maps.get same_text
configured = refl

app_configuration-IsSound_example : IsSound configuration
app_configuration-IsSound_example =
    app_configuration-IsSound int_of duration_of url_of env configuration configured

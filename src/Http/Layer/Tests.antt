-- ===== src/Http/Layer/Tests.antt =====
-- A concrete application, and the theorems at it.
use rite.Prelude.{ℕ, ◌+◌, refl, [], ◌∷◌, true, false}
use rite.Text.{codes}
use rite.Outcome.{Outcome, ok}
use rite.Http.Request.{HttpRequest, empty_request, get, post}
use rite.Http.Response.{HttpResponse}
use rite.Http.Endpoint.Tests.{slash_groups}
use rite.Http.Layer.{Extension, Endpoint, Layer, find_endpoint, handle}
use rite.Http.Layer.Dispatch.{Finding, find_endpoint-Finding}
use rite.Http.Layer.Answers.{IsSilent, IsCalm, IsCalmLayer, IsAnswer, handle-IsAnswer}

-- The state is the number of responses.
abbrev page : HttpResponse
page = record { status_code = 200; headers = [] }

abbrev no_extension : Extension ℕ
no_extension = record {
  on_request = λ req w. (req, w);
  pre_send = λ req r w. ((req, r), w);
  post_send = λ req r w. ((req, r), w);
}

abbrev endpoint_at : ℕ → Endpoint ℕ
endpoint_at method = record {
  method = method;
  path = record {
    regex = codes "/(([^/]+))/([0-9])/?";
    parameter_names = codes "a" ∷ codes "b" ∷ [];
  };
  handler = λ req ps w. (w, ok (req, page));
  asynchronous = true;
  thread_pool = false;
}

abbrev pub application : Layer ℕ
application = record {
  endpoints = endpoint_at post ∷ endpoint_at get ∷ [];
  extensions = no_extension ∷ [];
  not_found = λ req w. ((req, record { status_code = 404; headers = [] }), w);
}

abbrev pub request : HttpRequest
request = record empty_request { path = codes "/x/7"; method = get }

abbrev count_one : HttpResponse → ℕ → ℕ × Outcome (Unit {0})
count_one r w = (w + 1, ok tt)

find_endpoint-Finding_example :
    Finding slash_groups application.endpoints request
      (find_endpoint slash_groups application.endpoints request)
find_endpoint-Finding_example = find_endpoint-Finding slash_groups application.endpoints request

abbrev silent : IsSilent (λ w. w) no_extension
silent = record {
  quiet_request = λ req w. refl;
  quiet_send = λ req r w. refl;
  quiet_sent = λ req r w. refl;
}

abbrev calm : (method : ℕ) → IsCalm (λ w. w) (endpoint_at method)
calm method = record { quiet = λ req ps w. refl; returns = λ e req ps w. ((req, page), refl) }

abbrev calm_application : IsCalmLayer (λ w. w) application
calm_application = record {
  extensions = (silent, tt);
  endpoints = (calm post, (calm get, tt));
  not_found = λ req w. refl;
}

handle-IsAnswer_example :
    IsAnswer slash_groups count_one
      (λ w. w)
      (λ r w. refl)
      3
      (handle slash_groups count_one application request 3)
handle-IsAnswer_example =
    handle-IsAnswer slash_groups count_one (λ w. w) (λ r w. refl) application request 3
      calm_application

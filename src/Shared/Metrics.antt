-- ===== src/Shared/Metrics.antt =====
-- shared/gestalt_shared/metrics.py and logging.py: MetricsMiddleware with its counters, and the log.
use ecommerce_services.Common.{ℕ, ◌-◌, String, Option, none, some, List, [], ◌∷◌, ◌++◌}
use ecommerce_services.Shared.Requests.{
  Request, Answer, Ended, raised, returned, incoming_id, dispatch,
}

-- `logging.LogRecord`, as far as the formatter reads it: `E` is its field `extra`.
pub record LogRecord (E : Type 0) : Type 0 where
  pub created : ℕ
  pub levelname : String
  pub message : String
  pub extra : Option E
  pub exc_info : Option String

-- The object that `JsonFormatter.format` dumps. `isoformat` is the library's text of a time.
pub record Payload (E : Type 0) : Type 0 where
  pub timestamp : String
  pub level : String
  pub service : String
  pub request_id : String
  pub message : String
  pub extra : Option E
  pub exception : Option String

module _ {E : Type 0} (isoformat : ℕ → String) where
  -- `JsonFormatter.format`, with the context variable of the request id.
  unfoldable pub format : String → String → LogRecord E → Payload E
  format service_name request_id r = record {
    timestamp = isoformat r.created;
    level = r.levelname;
    service = service_name;
    request_id = request_id;
    message = r.message;
    extra = r.extra;
    exception = r.exc_info;
  }

-- The labels of `http_requests_total`.
pub record Labels : Type 0 where
  pub service : String
  pub method : String
  pub path : String
  pub status : ℕ

-- The dictionary `extra` of the line `request_completed`.
pub record Completed : Type 0 where
  pub method : String
  pub path : String
  pub status : ℕ
  pub duration_ms : ℕ

-- What the middleware writes: the increments of `http_requests_total`, the observations of
-- `http_request_duration_seconds` by service, method and path, and the log. Durations are in
-- milliseconds.
pub record Meters : Type 0 where
  pub requests : List Labels
  pub durations : List ((String × String × String) × ℕ)
  pub lines : List (Payload Completed)

-- A request as the middleware sees it: besides what the others read, its method, the path of its URL, the
-- path of the route that the application has found for it, and the readings of the clocks before and
-- after, and the time of the log line.
pub record Call : Type 0 where
  pub request : Request
  pub method : String
  pub url_path : String
  pub route : Option String
  pub started : ℕ
  pub ended : ℕ
  pub logged_at : ℕ

-- `request.scope.get("route").path if request.scope.get("route") else request.url.path`
abbrev pub path_of : Call → String
path_of c = elim c.route [ none ↦ c.url_path | some path ↦ path ]

module _ (isoformat : ℕ → String) (service_name : String) where
  -- `MetricsMiddleware.dispatch` after `call_next` has returned.
  unfoldable pub completed : {A : Type 0} → Call → String → Answer A → Meters → Meters
  unfolding format
  completed c request_id answer m =
      let status : ℕ = answer.response.status_code in
      let duration : ℕ = c.ended - c.started in
      record {
        requests =
            m.requests
            ++ record {
              service = service_name;
              method = c.method;
              path = path_of c;
              status = status;
            }
              ∷ [];
        durations = m.durations ++ ((service_name, c.method, path_of c), duration) ∷ [];
        lines =
            m.lines
            ++ format isoformat service_name request_id (record {
              created = c.logged_at;
              levelname = "INFO";
              message = "request_completed";
              extra = some (record {
                method = c.method;
                path = path_of c;
                status = status;
                duration_ms = duration;
              });
              exc_info = none;
            })
              ∷ [];
      }

  -- The same, if it has raised: the exception goes through.
  unfoldable pub after_call :
      {E A : Type 0} → Call → String → Ended E (Answer A) → Meters → Ended E (Answer A) × Meters
  unfolding completed
  after_call c request_id (raised exc) m = (raised exc, m)
  after_call c request_id (returned answer) m = (returned answer, completed c request_id answer m)

  -- `MetricsMiddleware.dispatch`
  unfoldable pub measure :
      {E A : Type 0}
      → Call
      → (Request → String → Ended E (Answer A))
      → Request
      → String
      → Meters
      → Ended E (Answer A) × Meters
  unfolding after_call
  measure c call_next request request_id m =
      after_call c request_id (call_next request request_id) m

  -- The two middlewares of every main.py, RequestIdMiddleware outside; `minted` is the id it draws.
  unfoldable pub serve :
      {E A : Type 0}
      → String
      → Call
      → (Request → String → Ended E (Answer A))
      → Meters
      → Ended E (Answer A) × Meters
  unfolding measure dispatch
  serve minted c app m =
      let request_id : String = incoming_id minted c.request.headers in
      let inner : Request = record c.request { state_request_id = some request_id } in
      (
        dispatch minted (λ q ctx. (measure c app q ctx m).0) c.request,
        (measure c app inner request_id m).1,
      )

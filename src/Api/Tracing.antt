-- ===== src/Api/Tracing.antt =====
-- `request_tracing_middleware`, the log filter and the exception handlers of api/main.py. The handler of `Exception` runs
-- outside every middleware, where Starlette puts it; the other one inside. A route is given by the lines that it logs and how it ends.
use mathlib.Core.List.{append-nil}
use ai_cyber_threat_detector.Common.{
  ℕ, ◌≡◌, refl, sym, Option, none, some, List, [], ◌∷◌, ◌++◌, String, str_eq, if◌then◌else◌, map,
}
use ai_cyber_threat_detector.Common.Dict
use ai_cyber_threat_detector.Common.Dict.{Dict, get-put}

pub record Response : Type 0 where
  pub status_code : ℕ
  pub content : Dict String
  pub headers : Dict String

pub data Exc : Type 0 where
  validation_error : Exc
  unexpected : (type_name message : String) → Exc

pub data Ending : Type 0 where
  returned : Response → Ending
  raised : Exc → Ending

-- a line of the log, with what the filter stamps on it
pub record Line : Type 0 where
  pub level : String
  pub msg : String
  pub correlation_id : Option String
  pub path : Option String

-- the two context variables, and the log
pub record Context : Type 0 where
  pub correlation_id_ctx : Option String
  pub path_ctx : Option String
  pub log : List Line

pub record Route : Type 0 where
  pub lines : List (String × String)
  pub ending : Ending

pub record Request : Type 0 where
  pub request_headers : Dict String
  pub url_path : String
  -- "req-" and sixteen digits of a UUID
  pub fresh_id : String

unfoldable pub stamped : Option String → Option String → String × String → Line
stamped id path (level, msg) = record { level = level; msg = msg; correlation_id = id; path = path }

-- `_RequestContextFilter.filter` on every line
unfoldable pub write : List (String × String) → Context → Context
unfolding stamped
write lines c = record c { log = c.log ++ map (stamped c.correlation_id_ctx c.path_ctx) lines }

unfoldable pub header_or : Option String → String → String
header_or none later = later
header_or (some s) later = if str_eq s "" then later else s

unfoldable pub request_id : Request → String
unfolding header_or
request_id r =
    header_or (Dict.get r.request_headers "X-Request-ID")
      (header_or (Dict.get r.request_headers "X-Correlation-ID") r.fresh_id)

unfoldable pub invalid_format : Response
invalid_format = record {
  status_code = 422;
  content = ("detail", "Invalid request format") ∷ [];
  headers = [];
}

unfoldable pub validation_handler : Ending → Ending
unfolding invalid_format
validation_handler (raised validation_error) = returned invalid_format
validation_handler ending = ending

unfoldable pub with_id : String → Ending → Ending
with_id req_id (returned response) =
    returned (record response { headers = Dict.put response.headers "X-Request-ID" req_id })
with_id req_id (raised exc) = raised exc

-- both variables are reset, whatever happens inside
unfoldable pub request_tracing_middleware : Request → Route → Context → Ending × Context
unfolding request_id write validation_handler with_id
request_tracing_middleware r route c =
    let req_id = request_id r in
    let inside : Context = record c {
      correlation_id_ctx = some req_id;
      path_ctx = some r.url_path;
    } in
    let after = write route.lines inside in
    (
      with_id req_id (validation_handler route.ending),
      record after { correlation_id_ctx = c.correlation_id_ctx; path_ctx = c.path_ctx },
    )

unfoldable pub global_exception_handler :
    (line : String → String → String) → Exc → Context → Response × Context
unfolding write invalid_format
global_exception_handler line validation_error c = (invalid_format, c)
global_exception_handler line (unexpected type_name message) c = (
  record { status_code = 500; content = ("message", "Internal Server Error") ∷ []; headers = [] },
  write (("ERROR", line type_name message) ∷ []) c,
)

-- `line` is the text of the message, which names the exception and the path
unfoldable pub answer : (line : String → String → String) → Ending → Context → Response × Context
unfolding global_exception_handler
answer line (returned response) c = (response, c)
answer line (raised exc) c = global_exception_handler line exc c

unfoldable pub serve :
    (line : String → String → String) → Request → Route → Context → Response × Context
unfolding request_tracing_middleware answer
serve line r route c =
    let (ending, after) = request_tracing_middleware r route c in answer line ending after

-- What the caller gets: its request id, unless the route raised an exception that nothing handles. Then the
-- answer is the same for all exceptions.
abbrev pub Expected : Request → Ending → Response → Type 0
Expected r (returned response) s =
    (s.status_code ≡ response.status_code)
    × (Dict.get s.headers "X-Request-ID" ≡ some (request_id r))
Expected r (raised validation_error) s =
    (s.status_code ≡ 422) × (Dict.get s.headers "X-Request-ID" ≡ some (request_id r))
Expected r (raised (unexpected type_name message)) s =
    (s.status_code ≡ 500) × (s.content ≡ ("message", "Internal Server Error") ∷ [])

-- the lines that the handler of unhandled exceptions adds
abbrev pub error_lines : (line : String → String → String) → Ending → List (String × String)
error_lines line (raised (unexpected type_name message)) = ("ERROR", line type_name message) ∷ []
error_lines line _ = []

abbrev pub Traced :
    (line : String → String → String) → Request → Route → Context → Response × Context → Type 0
Traced line r route c s =
    Expected r route.ending s.0
    × (s.1.correlation_id_ctx ≡ c.correlation_id_ctx)
    × (s.1.path_ctx ≡ c.path_ctx)
    × (s.1.log
        ≡ (c.log ++ map (stamped (some (request_id r)) (some r.url_path)) route.lines)
          ++ map (stamped c.correlation_id_ctx c.path_ctx) (error_lines line route.ending))

serve_ending :
    (line : String → String → String) (r : Request) (lines : List (String × String))
    (ending : Ending) (c : Context)
    → Traced line r
        (record { lines = lines; ending = ending })
        c
        (serve line r (record { lines = lines; ending = ending }) c)
unfolding serve Dict.get Dict.put
serve_ending line r lines (returned response) c =
    ((
      (refl, get-put response.headers "X-Request-ID" "X-Request-ID" (request_id r)),
      refl,
      refl,
      sym (append-nil _),
    ))
serve_ending line r lines (raised validation_error) c =
    ((refl, refl), refl, refl, sym (append-nil _))
serve_ending line r lines (raised (unexpected type_name message)) c =
    ((refl, refl), refl, refl, refl)

-- A request leaves the context variables as they were, however the route ends. Every line that the route logs is
-- stamped with the id and the path of the request, but the line on an unhandled exception only with what was there before the
-- request. The answer carries the request's id, unless an exception was not handled; then its content does not tell which one.
pub serve-Expected :
    (line : String → String → String) (r : Request) (route : Route) (c : Context)
    → Traced line r route c (serve line r route c)
serve-Expected line r route c = serve_ending line r route.lines route.ending c

-- ===== src/Server/Handler/Texts.antt =====
-- server/handler.go: the texts of the responses to reads and writes of a key, and what an HTTP
-- client gets.
use wjetcd.Common.{ℕ, Option, none, some, ◌++◌, ByteString, bytes}
use wjetcd.Command.{Command}
use wjetcd.Server.Handler.{
  Handled, not_allowed, bad_request, submits, ReadResponse, read_not_allowed, read_bad_request,
  value, listing,
}

-- A response that arrives.
pub record Response : Type 0 where
  pub status : ℕ
  pub body : ByteString

-- `http.Error(w, "Method not allowed", http.StatusMethodNotAllowed)`, which adds a newline.
abbrev pub method_not_allowed : Response
method_not_allowed = record { status = 405; body = bytes "Method not allowed\n" }

-- The texts of `Put`; `answer` is the error that `Submit` returns for the command, if it does.
unfoldable pub put_response : (Command → Option ByteString) → Handled → Response
put_response answer not_allowed = method_not_allowed
put_response answer bad_request = record {
  status = 400;
  body = bytes "{\"ok\":false,\"error\":\"key and value required\"}";
}
put_response answer (submits cmd) = elim (answer cmd) [
  | none ↦ record { status = 200; body = bytes "{\"ok\":true}" }
  | some text ↦ record {
    status = 500;
    body = bytes "{\"ok\":false,\"error\":\"" ++ (text ++ bytes "\"}");
  }
]

-- The texts of `Get`.
unfoldable pub get_response : ReadResponse → Option Response
get_response read_not_allowed = some method_not_allowed
get_response read_bad_request =
    some (record { status = 400; body = bytes "{\"ok\":false,\"error\":\"key required\"}" })
get_response (value v) =
    some (record { status = 200; body = bytes "{\"ok\":true,\"value\":\"" ++ (v ++ bytes "\"}") })
get_response (listing pairs) = none

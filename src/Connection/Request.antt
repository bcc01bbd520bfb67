-- ===== src/Connection/Request.antt =====
-- connection/request.go: what a handler is given.
use simple_message.Prelude.{ℕ, List, Option}
use simple_message.Errors.{Error}

-- The connection is a reference.
pub record Request : Type 0 where
  pub conn : ℕ
  pub request_data : List ℕ
  pub msg_id : ℕ

unfoldable pub new_request : ℕ → ℕ → List ℕ → Request
new_request conn msg_id bytes = record { conn = conn; request_data = bytes; msg_id = msg_id }

unfoldable pub get_connection : Request → ℕ
get_connection r = r.conn

unfoldable pub get_data : Request → List ℕ
get_data r = r.request_data

unfoldable pub get_msg_id : Request → ℕ
get_msg_id r = r.msg_id

-- Handler.Handle, over the state `W` of whatever handlers share; `none` is a nil error.
abbrev pub Handler : Type 0 → Type 0
Handler W = Request → W → Option Error × W

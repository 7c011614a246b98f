-- ===== src/Clients.antt =====
-- How requests come in: the loop of `session::start` of src/core/session.cpp for a HTTP/1 client, and the
-- handler that `start_http2` of src/core/server_impl.cpp installs. What the socket and nghttp2 deliver is
-- an argument, and so is the response that the route's handler makes.
pub mod Order
mod Tests
use petrel.Prelude.{ℕ, ◌≡◌, Bool, true, false, List, [], ◌∷◌, ◌++◌, Option, none, some}
use petrel.Server.{Method, get, post, other}

-- `http::read_state` as far as the loop that reads a message tells its values apart.
pub data ReadState : Type 0 where
  message_ready body_ready other_state : ReadState

-- What a round of a session meets: an error while the request is read (it ends the loop), or a
-- request, with the states until the last one is `empty` and whether the response can be written.
pub data Round (Q : Type 0) : Type 0 where
  read_fails : Round Q
  reads : Q → Bool → List ReadState → Bool → Round Q

-- What is done with the socket.
pub data Action (R : Type 0) : Type 0 where
  write_continue : Action R
  read_some : Action R
  read_trailers : Action R
  write : R → Action R
  close : Action R

module _ {R : Type 0} where
  unfoldable pub read_message : List ReadState → List (Action R)
  read_message [] = []
  read_message (message_ready ∷ ss) = read_some ∷ read_message ss
  read_message (body_ready ∷ ss) = read_trailers ∷ read_message ss
  read_message (other_state ∷ ss) = read_message ss

  abbrev pub continue_response : Bool → List (Action R)
  continue_response true = write_continue ∷ []
  continue_response false = []

  -- `send_response`, and what comes behind it: if the response cannot be written, the socket is
  -- closed, and the loop ends.
  abbrev pub send_response : R → Bool → List (Action R) → List (Action R)
  send_response r true rest = write r ∷ rest
  send_response r false rest = close ∷ []

module _ {Q R : Type 0} where
  -- The loop of `start`.
  unfoldable pub start : (Q → R) → List (Round Q) → List (Action R)
  start handle [] = []
  start handle (read_fails ∷ rs) = []
  start handle (reads q continues states writes ∷ rs) =
      let rest = start handle rs in
      continue_response continues ++ read_message states ++ send_response (handle q) writes rest

-- What the HTTP/2 handler does for a request.
pub data Outcome : Type 0 where
  routes : Option (List ℕ) → Outcome  -- the route is called, for POST with a buffer
  rejects : Outcome  -- the branch for other methods

-- `on_data` with each chunk that is received, from the buffer; a chunk of length 0 is the end.
unfoldable pub on_data : List ℕ → List (List ℕ) → List Outcome
on_data buf [] = []
on_data buf ([] ∷ chunks) = routes (some buf) ∷ on_data buf chunks
on_data buf ((b ∷ bs) ∷ chunks) = on_data (buf ++ b ∷ bs) chunks

unfoldable pub handle_http2 : Method → List (List ℕ) → List Outcome
handle_http2 get chunks = routes none ∷ []
handle_http2 post chunks = on_data [] chunks
handle_http2 other chunks = rejects ∷ []

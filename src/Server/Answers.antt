-- ===== src/Server/Answers.antt =====
-- What a route's handler does with a request: the response, the counters and the Lua state.
use Prim.Native.String.{String}
use petrel.Prelude.{
  ℕ, ◌+◌, ◌≡◌, refl, ap, ◌∙◌, Bool, true, false, List, [], ◌∷◌, ◌++◌, Option, some, length,
  if◌then◌else◌, Bool-cases, inl, inr,
}
use petrel.Metrics.Counter.{u64}
use petrel.LuaStates.{Result, ok}
use petrel.Server.{
  Scalar, chars, number, HeaderMap, Mode, http, http2, Response, Request, Call, bad_content,
  responds, Server, add_header, with_server, send, send_response,
}

-- What the container of headers does: an added header is there, and stays there.
pub record Lawful (M : HeaderMap) : Type 0 where
  pub has_emplaced : (name val : String) (h : M.Headers) → M.has name (M.emplace name val h) ≡ true
  pub still_has :
      (name added val : String) (h : M.Headers)
      → M.has name h ≡ true
      → M.has name (M.emplace added val h) ≡ true

-- No name of a response header with a value is a number.
abbrev pub no_numbers : List (Scalar × Scalar) → Bool
no_numbers [] = true
no_numbers ((number name, chars val) ∷ hs) = false
no_numbers ((number name, number val) ∷ hs) = false
no_numbers (_ ∷ hs) = no_numbers hs

abbrev pub has_names : Call → Bool
has_names (bad_content hs) = no_numbers hs
has_names (responds status hs content) = no_numbers hs
has_names _ = true

-- The status of the response that a handler must give.
abbrev pub status_of : Bool → Result → Call → ℕ
status_of true (ok l) (responds status hs content) = status
status_of _ _ _ = 500

abbrev pub content_of : Bool → Result → Call → List ℕ
content_of true (ok l) (responds status hs content) = content
content_of _ _ _ = []

abbrev pub fails : Bool → Result → Call → Bool
fails true (ok l) (responds status hs content) = false
fails _ _ _ = true

module _ (M : HeaderMap) where
  open M use {Headers, emplace, has, to_string}

  -- One response is sent, with this status and content, and it has a "server" header.
  pub record Sends (before after : Request Headers) (code : ℕ) (content : List ℕ) : Type 0 where
    pub response : Response Headers
    pub sent_one : after.sent ≡ before.sent ++ response ∷ []
    pub right_status : response.status ≡ code
    pub right_content : response.content ≡ content
    pub names_server : has "server" response.headers ≡ true

  module _ (lawful : Lawful M) where
    with_server-has : (req : Request Headers) → has "server" (with_server M req).headers ≡ true
    unfolding add_header
    with_server-has req = elim (Bool-cases (has "server" req.headers)) [
      | inl e ↦ rw e e
      | inr e ↦ rw e (lawful.has_emplaced "server" "petrel" req.headers)
    ]

    with_server_same :
        (req : Request Headers)
        → ((with_server M req).sent ≡ req.sent) × ((with_server M req).body ≡ req.body)
    unfolding add_header
    with_server_same req = elim (Bool-cases (has "server" req.headers)) [
      | inl e ↦ rw e (refl, refl)
      | inr e ↦ rw e (refl, refl)
    ]

    send-Sends :
        (mode : Mode) (code : ℕ) (content : List ℕ) (req : Request Headers)
        → req.body ≡ []
        → has "server" req.headers ≡ true
        → Sends req (send M mode code content req) code content
    send-Sends http code content req b h = record {
      response = _;
      sent_one = refl;
      right_status = refl;
      right_content = rw b refl;
      names_server = h;
    }
    send-Sends http2 code content req b h = record {
      response = _;
      sent_one = refl;
      right_status = refl;
      right_content = refl;
      names_server =
          lawful.still_has "server" "content-length" (to_string (length content)) req.headers h;
    }

    pub send_response-Sends :
        (code : ℕ) (content : List ℕ) (req : Request Headers)
        → req.body ≡ []
        → Sends req (send_response M code content req) code content
    unfolding send_response
    send_response-Sends code content req b =
        let w = with_server M req in
        let (same_sent, same_body) = with_server_same req in
        let s = send-Sends req.mode code content w (same_body ∙ b) (with_server-has req) in
        record {
          response = s.response;
          sent_one = s.sent_one ∙ ap (λ l. l ++ s.response ∷ []) same_sent;
          right_status = s.right_status;
          right_content = s.right_content;
          names_server = s.names_server;
        }

    -- What holds of the server and the request after `finish`.
    Finished : Server → Request Headers → Result → Call → Server × Request Headers → Type 0
    Finished s req r call (a, q) =
        Sends req q (status_of true r call) (content_of true r call)
        × (a.requests ≡ s.requests)
        × (a.errors ≡ (if fails true r call then u64 (s.errors + 1) else s.errors))

    -- What `serve_lua` comes to.
    pub record Served (s : Server) (req : Request Headers) (starts : Bool) (r : Result)
        (call : Call) (o : Option (Server × Request Headers)) : Type 0 where
      pub after : Server
      pub replied : Request Headers
      pub returns : o ≡ some (after, replied)
      pub sends : Sends req replied (status_of starts r call) (content_of starts r call)
      pub requests : after.requests ≡ u64 (s.requests + 1)
      pub errors : after.errors ≡ (if fails starts r call then u64 (s.errors + 1) else s.errors)

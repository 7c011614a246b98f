-- ===== src/HttpClient.antt =====
-- `lib::http_client` of src/lib/builtin/http_client.h and http_client.cpp: a client object of a Lua
-- program. What the socket answers is an argument: whether a write succeeds, which bytes a read adds
-- to the buffer and how it ends. The timers only cancel a read, which then fails.
pub mod Response
pub mod Exchange
mod Tests
use petrel.Prelude.{
  ℕ, zero, suc, ◌+◌, ◌-◌, ◌%◌, Bool, true, false, ◌||◌, not, List, [], ◌∷◌, ◌++◌, Option, none,
  some, ◌==◌, ltb, length, drop, if◌then◌else◌,
}
use petrel.Router.Spec.{path_eq}
use petrel.Texts.{codes, starts_with, istarts_with, getline_from, getline, after_space, atoi, c_str}

pub record Client : Type 0 where
  pub host : List ℕ
  pub port : List ℕ
  pub keep_alive : Bool
  pub connected : Bool
  pub req_buf : List ℕ
  pub res_buf : List ℕ
  pub read_timeout : ℕ  -- milliseconds
  pub connect_timeout : ℕ

pub new_client : Client
new_client = record {
  host = [];
  port = [];
  keep_alive = true;
  connected = false;
  req_buf = [];
  res_buf = [];
  read_timeout = 5000;
  connect_timeout = 5000;
}

-- How a read ends.
pub data Ending : Type 0 where
  fine eof failed : Ending

-- The socket's part in one request. `left` is what a failed write leaves in the request's buffer.
pub record Answers : Type 0 where
  pub write_fails : Option (List ℕ)
  pub head : List ℕ
  pub head_ending : Ending
  pub body : List ℕ
  pub body_ending : Ending

pub data Error : Type 0 where
  bad_argument connect_failed not_connected write_failed read_failed : Error
  invalid_response no_status invalid_status no_location : Error

-- `returns` has the status and the text for Lua; `undefined` is behaviour that C++ does not define.
pub data Outcome : Type 0 where
  nothing : Outcome
  returns : ℕ → List ℕ → Outcome
  raises : Error → Outcome
  undefined : Outcome

unfoldable pub connect : Option (List ℕ) → Option (List ℕ) → Bool → Client → Client × Outcome
connect none port succeeds c = (c, raises bad_argument)
connect (some host) port succeeds c =
    let named : Client = record c {
      host = host;
      port = elim port [ none ↦ codes "80" | some p ↦ p ];
    } in
    if succeeds
    then (record named { connected = true }, nothing)
    else (named, raises connect_failed)

unfoldable pub disconnect : Client → Client × Outcome
disconnect c = (record c { connected = false }, nothing)

unfoldable pub set_read_timeout : ℕ → Client → Client
set_read_timeout t c = record c { read_timeout = t }

unfoldable pub set_connect_timeout : ℕ → Client → Client
set_connect_timeout t c = record c { connect_timeout = t }

unfoldable pub disable_keepalive : Client → Client
disable_keepalive c = record c { keep_alive = false }

abbrev pub crlf : List ℕ
crlf = 13 ∷ 10 ∷ []

-- The lines that `get` and `post` have in common.
abbrev pub request_head : List ℕ → List ℕ → Client → List ℕ
request_head verb path c =
    verb
    ++ path
    ++ codes " HTTP/1.1"
    ++ crlf
    ++ codes "Host: "
    ++ c.host
    ++ crlf
    ++ codes "Accept: */*"
    ++ crlf
    ++ codes "User-Agent: petrel/http_client"
    ++ crlf
    ++ (if not c.keep_alive then codes "Connection: keep-alive" ++ crlf else [])

-- `line.find(' ', 5)` and `std::atoi` behind it.
abbrev pub status_of : List ℕ → Option (Option ℕ)
status_of line = elim (after_space (drop 5 line)) [ none ↦ none | some text ↦ some (atoi text) ]

-- What the loop over the headers has found: the location and the length, which is undefined if
-- `atoi` was.
pub record Found : Type 0 where
  pub location : List ℕ
  pub content_len : Option ℕ

abbrev pub read_header : List ℕ → Found → Found
read_header line f =
    if istarts_with (codes "location: ") line
    then record f { location = drop 10 line }
    else if istarts_with (codes "content-length: ") line
    then record f { content_len = atoi (drop 16 line) }
    else f

-- The loop, with the number of bytes as fuel: each line takes at least one.

-- `content_len - m_res_buf.size()` as a `std::size_t`
abbrev pub to_read : ℕ → ℕ → ℕ
to_read content_len size = (content_len + 18446744073709551616 - size) % 18446744073709551616

abbrev pub with_line : (List ℕ → Found → Found × List ℕ) → List ℕ → Found → Found × List ℕ
with_line go text f = elim (getline text) [
  | none ↦ (f, [])
  | some (line, rest) ↦ if path_eq line (13 ∷ []) then (f, rest) else go rest (read_header line f)
]

unfoldable pub read_headers : ℕ → List ℕ → Found → Found × List ℕ
read_headers zero text f = (f, text)
read_headers (suc fuel) text f = with_line (read_headers fuel) text f

-- What follows the headers; the buffer is passed on as it is.
abbrev pub read_body : Answers → ℕ → ℕ → Client → Client × Outcome
read_body a status content_len c =
    if content_len == 0
    then (c, returns status [])
    else if to_read content_len (length c.res_buf) == 0
    then (c, returns status c.res_buf)
    else let d : Client = record c { res_buf = c.res_buf ++ a.body } in
      elim a.body_ending [ failed ↦ (d, raises read_failed) | _ ↦ (d, returns status d.res_buf) ]

abbrev pub redirect : ℕ → List ℕ → Client → Client × Outcome
redirect status [] c = (c, raises no_location)
redirect status (l ∷ ls) c = (c, returns status (c_str (l ∷ ls)))

abbrev pub with_content_len : Answers → ℕ → Option ℕ → Found → Client → Client × Outcome
with_content_len a status none f c = (c, undefined)
with_content_len a status (some n) f c =
    if status == 302 then redirect status f.location c else read_body a status n c

abbrev pub answer : Answers → ℕ → Found → Client → Client × Outcome
answer a status f c = with_content_len a status f.content_len f c

abbrev pub with_headers : Answers → ℕ → Found × List ℕ → Client → Client × Outcome
with_headers a status (f, left) c = answer a status f (record c { res_buf = left })

abbrev pub with_status : Answers → Option (Option ℕ) → Client → Client × Outcome
with_status a none c = (c, raises no_status)
with_status a (some none) c = (c, undefined)
with_status a (some (some status)) c =
    if ltb status 100 || ltb 999 status
    then (c, raises invalid_status)
    else with_headers a status
        (read_headers (length c.res_buf) c.res_buf (record { location = []; content_len = some 0 }))
        c

abbrev pub with_status_line : Answers → Option (List ℕ × List ℕ) → Client → Client × Outcome
with_status_line a none c = (c, raises invalid_response)
with_status_line a (some (line, rest)) c =
    let d : Client = record c { res_buf = rest } in
    if starts_with (codes "HTTP/") line
    then with_status a (status_of line) d
    else (d, raises invalid_response)

abbrev pub parse : Answers → Client → Client × Outcome
parse a c = with_status_line a (getline c.res_buf) c

unfoldable pub send_recv : Answers → Client → Client × Outcome
unfolding read_headers
send_recv a c = elim a.write_fails [
  | some left ↦ (record c { req_buf = left }, raises write_failed)
  | none ↦
      let d : Client = record c { req_buf = []; res_buf = c.res_buf ++ a.head } in
      elim a.head_ending [ failed ↦ (d, raises read_failed) | _ ↦ parse a d ]
]

unfoldable pub get : Option (List ℕ) → Answers → Client → Client × Outcome
unfolding send_recv
get none a c = (c, raises bad_argument)
get (some path) a c =
    if c.connected
    then send_recv a
        (record c { req_buf = c.req_buf ++ request_head (codes "GET ") path c ++ crlf })
    else (c, raises not_connected)

-- `digits` are the characters that the stream writes for the length of the data.
unfoldable pub post :
    (ℕ → List ℕ) → Option (List ℕ) → Option (List ℕ) → Answers → Client → Client × Outcome
unfolding send_recv
post digits none content a c = (c, raises bad_argument)
post digits (some path) content a c =
    let sent : List ℕ = elim content [ none ↦ [] | some d ↦ d ] in
    let request =
      request_head (codes "POST ") path c
      ++ codes "Content-Length: "
      ++ digits (length sent)
      ++ crlf
      ++ crlf
      ++ sent in
    if c.connected
    then send_recv a (record c { req_buf = c.req_buf ++ request })
    else (c, raises not_connected)

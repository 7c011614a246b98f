-- ===== src/HttpClient/Tests.antt =====
-- A request whose response comes in two reads, and the next one.
use petrel.Prelude.{◌≡◌, refl, [], ◌∷◌, none, some, true, arith}
use petrel.Texts.{codes}
use petrel.HttpClient.{Client, Answers, fine, returns, raises, invalid_response, get, send_recv}
use petrel.HttpClient.Response.{Response, response_text}
use petrel.HttpClient.Exchange.{get-body}

-- `HTTP/1.1 200 OK` with a length of 2.
abbrev response : Response
response = record {
  status_1 = 2;
  status_2 = 0;
  status_3 = 0;
  reason = codes "OK\r";
  before = codes "Server: x\r" ∷ [];
  length_1 = 2;
  length_rest = [];
  after = [];
}

abbrev answers : Answers
answers = record {
  write_fails = none;
  head = response_text response (codes "h");
  head_ending = fine;
  body = codes "i";
  body_ending = fine;
}

abbrev client : Client
client = record {
  host = codes "a";
  port = codes "80";
  keep_alive = true;
  connected = true;
  req_buf = [];
  res_buf = [];
  read_timeout = 5000;
  connect_timeout = 5000;
}

get-body_example :
    get (some (codes "/")) answers client
    ≡ (record client { req_buf = []; res_buf = codes "hi" }, returns 200 (codes "hi"))
get-body_example =
    get-body response (codes "h") (codes "/") answers client (ground arith) refl refl refl refl refl
      refl refl

-- The next response on the connection is read behind the body of the first one.
get_again :
    (get (some (codes "/")) answers (record client { res_buf = codes "hi" })).1
    ≡ raises invalid_response
unfolding get send_recv
get_again = refl

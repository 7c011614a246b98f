-- ===== src/HttpClient/Exchange.antt =====
-- What a Lua program gets for a well-formed response.
use petrel.Prelude.{
  ℕ, ◌+◌, ◌<◌, ◌≡◌, sym, ap, ◌∙◌, true, false, List, [], ◌∷◌, ◌++◌, none, some, length,
  length-append, arith, ◌||◌, ◌==◌, ltb,
}
use petrel.Texts.{codes, getline}
use petrel.HttpClient.{
  Client, Answers, fine, returns, Found, read_header, read_headers, read_body, parse,
  with_content_len, with_headers, with_status, with_status_line, status_of, send_recv, get,
  request_head, crlf,
}
use petrel.HttpClient.Response.{
  Response, WellFormed, text_of, headers, status, body_length, status_line, length_line,
  response_text, read_all, read_headers-text_of, length-text_of, getline-line, read_all-append,
  read_all-NoLength, atoi-characters, read_body-all, status_line-OneLine, headers-Headers,
}

status_of-status_line :
    (r : Response) → WellFormed r → status_of (status_line r) ≡ some (some (status r))
status_of-status_line r w = ap some (
    atoi-characters r.status_1 (r.status_2 ∷ r.status_3 ∷ []) 32 r.reason w.1 (ground arith)
      (omega (arith, w.1.0, w.1.1.0, w.1.1.1.0)))

content_len-headers :
    (r : Response)
    → WellFormed r
    → (read_all (headers r) (record { location = []; content_len = some 0 })).content_len
      ≡ some (body_length r)
content_len-headers r w =
    let start : Found = record { location = []; content_len = some 0 } in
    let found = read_all r.before start in
    ap (λ f. f.content_len) (read_all-append r.before (length_line r ∷ r.after) start)
    ∙ read_all-NoLength r.after (read_header (length_line r) found) w.6.1
    ∙ atoi-characters r.length_1 r.length_rest 13 [] w.5.0 (ground arith) w.5.1

-- The response's head is parsed: the status and the length are its own, and the buffer holds the
-- part of the body that came with it.
parse-response_text :
    (r : Response) (part : List ℕ) (a : Answers) (c : Client)
    → WellFormed r
    → c.res_buf ≡ response_text r part
    → parse a c ≡ read_body a (status r) (body_length r) (record c { res_buf = part })
parse-response_text r part a c w e =
    let rest = text_of (headers r) part in
    let start : Found = record { location = []; content_len = some 0 } in
    let line : getline c.res_buf ≡ some (status_line r, rest) =
      ap getline e ∙ getline-line (status_line r) rest (status_line-OneLine r w.3) in
    let in_range : (ltb (status r) 100 || ltb 999 (status r)) ≡ false =
      ground (arith, w.0, w.1.0, w.1.1.0, w.1.1.1.0) in
    let all =
      read_headers-text_of (headers r) part (length rest) start (length-text_of (headers r) part)
        (headers-Headers r w.4.0 w.6.0) in
    let no_redirect : (status r == 302) ≡ false = ground (arith, w.2) in
    let d : Client = record c { res_buf = rest } in
    let ranged : with_status a (some (some (status r))) d
        ≡ with_headers a (status r) (read_headers (length rest) rest start) d =
      rw in_range in
    let found = read_all (headers r) start in
    let last : Client = record c { res_buf = part } in
    let not_redirected : with_content_len a (status r) (some (body_length r)) found last
        ≡ read_body a (status r) (body_length r) last =
      rw no_redirect in
    ap (λ o. with_status_line a o c) line
    ∙ ap (λ o. with_status a o d) (status_of-status_line r w)
    ∙ ranged
    ∙ ap (λ o. with_headers a (status r) o d) all
    ∙ ap (λ n. with_content_len a (status r) n found last) (content_len-headers r w)
    ∙ not_redirected

-- A connected client that has nothing left in its buffers and asks for a path gets the status and the
-- whole body of a well-formed response, however the body is split between the two reads; the body
-- stays in the buffer.
pub get-body :
    (r : Response) (part path : List ℕ) (a : Answers) (c : Client)
    → WellFormed r
    → c.connected ≡ true
    → c.res_buf ≡ []
    → a.write_fails ≡ none
    → a.head ≡ response_text r part
    → a.head_ending ≡ fine
    → a.body_ending ≡ fine
    → length (part ++ a.body) ≡ body_length r
    → get (some path) a c
      ≡ (record c { req_buf = []; res_buf = part ++ a.body }, returns (status r) (part ++ a.body))
unfolding get send_recv
get-body r part path a c w connected empty sent head head_end body_end size =
    let sending : Client = record c {
      req_buf = c.req_buf ++ request_head (codes "GET ") path c ++ crlf;
    } in
    let received : Client = record c { req_buf = []; res_buf = c.res_buf ++ a.head } in
    let text : c.res_buf ++ a.head ≡ response_text r part = ap (λ b. b ++ a.head) empty ∙ head in
    let sends : get (some path) a c ≡ send_recv a sending = rw connected in
    let reads : send_recv a sending ≡ parse a received = rw (sent, head_end) in
    let small : length part + length a.body < 2147483648 =
      omega (arith, size, w.5.1, length-append part a.body) in
    sends
    ∙ reads
    ∙ parse-response_text r part a received w text
    ∙ ap (λ n. read_body a (status r) n (record c { req_buf = []; res_buf = part })) (sym size)
    ∙ read_body-all a (status r) (record c { req_buf = []; res_buf = part }) body_end small

-- ===== src/Incoming/Tests.antt =====
-- The table for a concrete request.
use Prim.Native.String.{String}
use petrel.Prelude.{◌≡◌, refl, List, [], ◌∷◌, some}
use petrel.Maps.{lookup, assign}
use petrel.Incoming.{
  Container, Incoming, http2, integer, chars, bytes, headers_table, fields, cookie_fields,
  header_exists, header, push_request, for_each, headers_begin, headers_end, headers_size,
  method_string, method, proto, host, path, content, remote_endpoint,
}
use petrel.Incoming.Table.{last_value, entries_of, push_request-headers}

abbrev list_container : Container
list_container = record {
  Headers = List (String × String);
  entries = λ h. h;
  find = λ name h. lookup name h;
}

abbrev request : Incoming list_container list_container
request = http2 (record {
  method = "POST";
  scheme = "https";
  host = "h";
  raw_path = "/a";
  raw_query = "b=c";
  headers = ("x", "1") ∷ ("y", "2") ∷ ("x", "3") ∷ [];
  content = some (7 ∷ []);
  remote_endpoint = 0;
})

request_table :
    push_request list_container list_container (λ s. []) (λ bs. []) 5 (λ e. "::1") (λ e. 6) request
    ≡ some (
        ("timestamp", integer 5)
        ∷ ("method", chars "POST")
        ∷ ("proto", chars "https")
        ∷ ("host", chars "h")
        ∷ ("path", chars "/a?b=c")
        ∷ ("headers", headers_table (("x", "3") ∷ ("y", "2") ∷ []))
        ∷ ("remote_addr_str", chars "::1")
        ∷ ("remote_addr_ip_ver", integer 6)
        ∷ ("content", bytes (7 ∷ []))
        ∷ [])
unfolding push_request for_each headers_begin headers_end headers_size header_exists header lookup
    assign method_string method proto host path content remote_endpoint
request_table = refl

push_request-headers_example :
    (hs : List (String × String)) × (push_request list_container list_container
        (λ s. [])
        (λ bs. [])
        5
        (λ e. "::1")
        (λ e. 6)
        request
      ≡ fields list_container list_container
          (λ s. [])
          (λ bs. [])
          5
          (λ e. "::1")
          (λ e. 6)
          request
          (some hs)
          (cookie_fields list_container list_container
            (λ s. [])
            (λ bs. [])
            (header_exists list_container list_container "cookie" request)
            (header list_container list_container "cookie" request)))
    × ((n : String) → lookup n hs ≡ last_value n (entries_of list_container list_container request))
push_request-headers_example =
    push_request-headers list_container list_container (λ s. []) (λ bs. []) 5 (λ e. "::1") (λ e. 6)
      request

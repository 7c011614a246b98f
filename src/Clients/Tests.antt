-- ===== src/Clients/Tests.antt =====
-- A session and a body of concrete rounds and chunks.
use petrel.Prelude.{ℕ, ◌+◌, ◌≡◌, refl, true, false, List, [], ◌∷◌, some, arith}
use petrel.Server.{post}
use petrel.Clients.{
  Round, reads, body_ready, message_ready, write_continue, read_some, read_trailers, write, close,
  start, read_message, routes, handle_http2,
}
use petrel.Clients.Order.{handle_http2-chunks}

abbrev rounds : List (Round ℕ)
rounds =
    reads 3 true (message_ready ∷ body_ready ∷ []) true
    ∷ reads 4 false [] true
    ∷ reads 5 false [] false
    ∷ reads 6 false [] true
    ∷ []

actions :
    start (λ q. q + 100) rounds
    ≡ write_continue ∷ read_some ∷ read_trailers ∷ write 103 ∷ write 104 ∷ close ∷ []
unfolding start read_message
actions = refl

handle_http2-chunks_example :
    handle_http2 post ((1 ∷ 2 ∷ []) ∷ (3 ∷ []) ∷ [] ∷ []) ≡ routes (some (1 ∷ 2 ∷ 3 ∷ [])) ∷ []
handle_http2-chunks_example =
    handle_http2-chunks ((1 ∷ 2 ∷ []) ∷ (3 ∷ []) ∷ [])
      ((λ e. absurd (ground arith)), ((λ e. absurd (ground arith)), tt))

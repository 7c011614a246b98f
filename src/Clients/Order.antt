-- ===== src/Clients/Order.antt =====
-- The order of the chunks of a body of HTTP/2.
use mathlib.Core.List.{append_assoc, append-nil}
use petrel.Prelude.{ℕ, ◌≡◌, ◌≢◌, refl, ap, ◌∙◌, List, [], ◌∷◌, ◌++◌, some}
use petrel.Server.{post}
use petrel.Clients.{routes, on_data, handle_http2}

abbrev pub join : List (List ℕ) → List ℕ
join [] = []
join (c ∷ cs) = c ++ join cs

abbrev pub NonEmpty : List (List ℕ) → Type 0
NonEmpty [] = Unit
NonEmpty (c ∷ cs) = (c ≢ []) × NonEmpty cs

on_data-chunks :
    (buf : List ℕ) (chunks : List (List ℕ))
    → NonEmpty chunks
    → on_data buf (chunks ++ [] ∷ []) ≡ routes (some (buf ++ join chunks)) ∷ []
unfolding on_data
on_data-chunks buf [] n = rw append-nil refl
on_data-chunks buf ([] ∷ chunks) n = absurd (n.0 refl)
on_data-chunks buf ((b ∷ bs) ∷ chunks) n =
    on_data-chunks (buf ++ b ∷ bs) chunks n.1
    ∙ ap (λ l. routes (some l) ∷ []) (append_assoc buf (b ∷ bs) (join chunks))

-- The route of a HTTP/2 POST request is called once, when its body has come to its end, with all of
-- the chunks that were received, in their order, whatever their number and lengths.
pub handle_http2-chunks :
    (chunks : List (List ℕ))
    → NonEmpty chunks
    → handle_http2 post (chunks ++ [] ∷ []) ≡ routes (some (join chunks)) ∷ []
unfolding handle_http2
handle_http2-chunks chunks n = on_data-chunks [] chunks n

-- ===== src/Http2Client/Tests.antt =====
-- A response in two chunks, the second one with a NUL, and a request without a connection.
use petrel.Prelude.{◌≡◌, refl, [], ◌∷◌, some, true}
use petrel.Texts.{codes}
use petrel.Http2Client.{
  new_client, get, returns, raises, not_connected, responds, chunks, get-chunks,
}

cut_at_nul :
    get
      (some (codes "/"))
      (responds 200 ∷ chunks ((97, 98 ∷ []) ∷ (99, 0 ∷ 100 ∷ []) ∷ []))
      (record new_client { connected = true; session = true })
    ≡ some (returns 200 (codes "abc"))
cut_at_nul =
    get-chunks 200 ((97, 98 ∷ []) ∷ (99, 0 ∷ 100 ∷ []) ∷ []) (codes "/")
      (record new_client { connected = true; session = true }) refl

no_connection : get (some (codes "/")) [] new_client ≡ some (raises not_connected)
unfolding get new_client
no_connection = refl

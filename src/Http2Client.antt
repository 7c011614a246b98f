-- ===== src/Http2Client.antt =====
-- `lib::http2_client` of src/lib/builtin/http2_client.h and http2_client.cpp: a client object of a Lua
-- program. What nghttp2's session calls back, in order, is an argument; a wait for a callback that
-- never comes has no value.
mod Tests
use petrel.Prelude.{
  ℕ, Bool, true, false, List, [], ◌∷◌, ◌++◌, Option, none, some, ◌≡◌, refl, ap, sym, ◌∙◌,
  if◌then◌else◌,
}
use mathlib.Core.List.{append_assoc, append-nil}
use petrel.Texts.{codes, c_str}

pub record Client : Type 0 where
  pub host : List ℕ
  pub port : List ℕ
  pub ssl : Bool
  pub ssl_verify : Bool
  pub session : Bool  -- whether `m_session` holds one
  pub connected : Bool
  pub read_timeout : ℕ  -- milliseconds

pub new_client : Client
new_client = record {
  host = [];
  port = [];
  ssl = false;
  ssl_verify = true;
  session = false;
  connected = false;
  read_timeout = 5000;
}

pub data Error : Type 0 where
  bad_argument tls_failed connect_failed not_connected get_failed : Error

pub data Outcome : Type 0 where
  nothing : Outcome
  returns : ℕ → List ℕ → Outcome
  raises : Error → Outcome

-- The session's answer to a connect.
pub data Connected : Type 0 where
  on_connect on_error : Connected

abbrev pub or_else : {A : Type 0} → Option A → A → A
or_else none a = a
or_else (some b) a = b

abbrev pub with_session : Option Connected → Client → Option (Client × Outcome)
with_session none c = none
with_session (some on_connect) c = some (record c { connected = true }, nothing)
with_session (some on_error) c = some (c, raises connect_failed)

-- `ssl` and `verify` are there if the arguments are Booleans; `configures` is what OpenSSL answers.
unfoldable pub connect :
    Option (List ℕ)
    → Option (List ℕ)
    → Option Bool
    → Option Bool
    → Bool
    → Option Connected
    → Client
    → Option (Client × Outcome)
connect none port ssl verify configures answer c = some (c, raises bad_argument)
connect (some host) port ssl verify configures answer c =
    let d : Client = record c {
      host = host;
      port = or_else port (codes "80");
      ssl = or_else ssl c.ssl;
      ssl_verify = or_else verify c.ssl_verify;
    } in
    let configured = if d.ssl then configures else true in
    if configured
    then with_session answer (record d { session = true })
    else some (d, raises tls_failed)

unfoldable pub disconnect : Client → Client × Outcome
disconnect c = (if c.connected then record c { session = false; connected = false } else c, nothing)

unfoldable pub set_read_timeout : ℕ → Client → Client
set_read_timeout t c = record c { read_timeout = t }

abbrev pub url : List ℕ → Client → List ℕ
url path c = codes "http://" ++ c.host ++ codes ":" ++ c.port ++ path

-- What the session calls back during a request; an empty chunk ends the data.
pub data Event : Type 0 where
  responds : ℕ → Event
  receives : List ℕ → Event
  fails : Event

-- The fiber waits for the first event that sets the promise. The status is the last one given, and the
-- data goes to the stream `content`.
unfoldable pub wait : ℕ → List ℕ → List Event → Option Outcome
wait status content [] = none
wait status content (responds n ∷ es) = wait n content es
wait status content (receives [] ∷ es) = some (returns status (c_str content))
wait status content (receives (b ∷ bs) ∷ es) = wait status (content ++ b ∷ bs) es
wait status content (fails ∷ es) = some (raises get_failed)

-- Data only comes after a response, so the first status is never read.
unfoldable pub get : Option (List ℕ) → List Event → Client → Option Outcome
unfolding wait
get none es c = some (raises bad_argument)
get (some path) es c = if c.connected then wait 0 [] es else some (raises not_connected)

abbrev pub chunks : List (ℕ × List ℕ) → List Event
chunks [] = receives [] ∷ []
chunks ((b, bs) ∷ cs) = receives (b ∷ bs) ∷ chunks cs

abbrev pub joined : List (ℕ × List ℕ) → List ℕ
joined [] = []
joined ((b, bs) ∷ cs) = b ∷ (bs ++ joined cs)

wait-chunks :
    (status : ℕ) (content : List ℕ) (cs : List (ℕ × List ℕ))
    → wait status content (chunks cs) ≡ some (returns status (c_str (content ++ joined cs)))
unfolding wait
wait-chunks status content [] = rw (append-nil content)
wait-chunks status content ((b, bs) ∷ cs) =
    wait-chunks status (content ++ b ∷ bs) cs
    ∙ ap (λ t. some (returns status (c_str t))) (append_assoc content (b ∷ bs) (joined cs))

-- A connected client gets the status and all chunks of a response in order, up to the first NUL.
pub get-chunks :
    (status : ℕ) (cs : List (ℕ × List ℕ)) (path : List ℕ) (c : Client)
    → c.connected ≡ true
    → get (some path) (responds status ∷ chunks cs) c ≡ some (returns status (c_str (joined cs)))
unfolding get wait
get-chunks status cs path c e = rw e (wait-chunks status [] cs)

-- ===== src/HttpClient/Response.antt =====
-- A response that a client reads.
use mathlib.Core.List.{append-nil}
use petrel.Prelude.{
  ℕ, zero, suc, ◌+◌, ◌-◌, ◌*◌, ◌<◌, ◌≤◌, ◌≡◌, ◌≢◌, refl, sym, ap, ◌∙◌, true, false, List, [], ◌∷◌,
  ◌++◌, some, length, length-append, arith,
}
use petrel.Router.Spec.{path_eq}
use petrel.Texts.{codes, istarts_with, getline_from, getline, is_digit, digits_from, atoi}
use petrel.HttpClient.{
  Client, Answers, fine, failed, Outcome, returns, raises, read_failed, Found, read_header,
  read_headers, with_line, read_body,
}

-- Lines with their line feeds, the empty line `\r\n`, and what follows.
abbrev pub text_of : List (List ℕ) → List ℕ → List ℕ
text_of [] rest = 13 ∷ 10 ∷ rest
text_of (l ∷ ls) rest = l ++ 10 ∷ text_of ls rest

abbrev pub OneLine : List ℕ → Type 0
OneLine [] = Unit
OneLine (c ∷ cs) = (c ≢ 10) × OneLine cs

-- A header line that does not end the headers.
abbrev pub Headers : List (List ℕ) → Type 0
Headers [] = Unit
Headers (l ∷ ls) = (OneLine l × (path_eq l (13 ∷ []) ≡ false)) × Headers ls

getline_from-line : (l rest : List ℕ) → OneLine l → getline_from (l ++ 10 ∷ rest) ≡ (l, rest)
getline_from-line [] rest h = refl
getline_from-line (c ∷ l) rest h = ground (arith, h.0, getline_from-line l rest h.1)

pub getline-line : (l rest : List ℕ) → OneLine l → getline (l ++ 10 ∷ rest) ≡ some (l, rest)
getline-line [] rest h = refl
getline-line (c ∷ l) rest h = ap some (getline_from-line (c ∷ l) rest h)

abbrev pub read_all : List (List ℕ) → Found → Found
read_all [] f = f
read_all (l ∷ ls) f = read_all ls (read_header l f)

pub read_headers-text_of :
    (ls : List (List ℕ)) (rest : List ℕ) (fuel : ℕ) (f : Found)
    → length ls < fuel
    → Headers ls
    → read_headers fuel (text_of ls rest) f ≡ (read_all ls f, rest)
unfolding read_headers
read_headers-text_of ls rest zero f b h = absurd (omega arith)
read_headers-text_of [] rest (suc fuel) f b h = refl
read_headers-text_of (l ∷ ls) rest (suc fuel) f b h =
    let line = getline-line l (text_of ls rest) h.0.0 in
    rw (with_line, line, h.0.1)
      (read_headers-text_of ls rest fuel (read_header l f) (omega arith) h.1)

pub length-text_of : (ls : List (List ℕ)) (rest : List ℕ) → length ls < length (text_of ls rest)
length-text_of [] rest = omega arith
length-text_of (l ∷ ls) rest =
    omega (arith, length-text_of ls rest, length-append l (10 ∷ text_of ls rest))

abbrev pub NoLength : List (List ℕ) → Type 0
NoLength [] = Unit
NoLength (l ∷ ls) = (istarts_with (codes "content-length: ") l ≡ false) × NoLength ls

pub read_all-append :
    (ls more : List (List ℕ)) (f : Found) → read_all (ls ++ more) f ≡ read_all more (read_all ls f)
read_all-append [] more f = refl
read_all-append (l ∷ ls) more f = read_all-append ls more (read_header l f)

pub read_all-NoLength :
    (ls : List (List ℕ)) (f : Found) → NoLength ls → (read_all ls f).content_len ≡ f.content_len
read_all-NoLength [] f h = refl
read_all-NoLength (l ∷ ls) f h =
    let same : (read_header l f).content_len ≡ f.content_len = ground (arith, h.0) in
    read_all-NoLength ls (read_header l f) h.1 ∙ same

-- A number from its decimal digits, and their characters.
abbrev pub decimal : ℕ → List ℕ → ℕ
decimal n [] = n
decimal n (d ∷ ds) = decimal (n * 10 + d) ds

abbrev pub Digits : List ℕ → Type 0
Digits [] = Unit
Digits (d ∷ ds) = (d < 10) × Digits ds

abbrev pub characters : List ℕ → List ℕ
characters [] = []
characters (d ∷ ds) = (48 + d) ∷ characters ds

digits_from-characters :
    (n : ℕ) (ds : List ℕ) (c : ℕ) (rest : List ℕ)
    → Digits ds
    → is_digit c ≡ false
    → digits_from n (characters ds ++ c ∷ rest) ≡ decimal n ds
digits_from-characters n [] c rest h e = ground (arith, e)
digits_from-characters n (d ∷ ds) c rest h e =
    let own : 48 + d - 48 ≡ d = omega arith in
    let digit : is_digit (48 + d) ≡ true = ground (arith, h.0) in
    rw (digit, own) (digits_from-characters (n * 10 + d) ds c rest h.1 e)

pub atoi-characters :
    (d : ℕ) (ds : List ℕ) (c : ℕ) (rest : List ℕ)
    → Digits (d ∷ ds)
    → is_digit c ≡ false
    → decimal 0 (d ∷ ds) < 2147483648
    → atoi (characters (d ∷ ds) ++ c ∷ rest) ≡ some (decimal 0 (d ∷ ds))
atoi-characters d ds c rest h e small =
    ground (arith, h.0, small, digits_from-characters 0 (d ∷ ds) c rest h e)

length-nothing : (xs : List ℕ) → length xs ≡ 0 → xs ≡ []
length-nothing [] h = refl
length-nothing (x ∷ xs) h = absurd (omega arith)

pub read_body-all :
    (a : Answers) (status : ℕ) (c : Client)
    → a.body_ending ≡ fine
    → length c.res_buf + length a.body < 2147483648
    → read_body a status (length (c.res_buf ++ a.body)) c
      ≡ (record c { res_buf = c.res_buf ++ a.body }, returns status (c.res_buf ++ a.body))
read_body-all a status c e small =
    let all = c.res_buf ++ a.body in
    let done : Client × Outcome = (record c { res_buf = all }, returns status all) in
    let size = length-append c.res_buf a.body in
    let full : length a.body ≡ 0 → (c, returns status c.res_buf) ≡ done = λ h.
      let same : c.res_buf ≡ all =
        sym (append-nil c.res_buf) ∙ ap (λ b. c.res_buf ++ b) (sym (length-nothing a.body h)) in
      ap (λ b. (record c { res_buf = b }, returns status b)) same in
    let none_left : length all ≡ 0 → (c, returns status []) ≡ done = λ h.
      ap (λ b. (c, returns status b)) (sym (length-nothing c.res_buf (omega (arith, size))))
      ∙ full (omega (arith, size)) in
    let received : (elim a.body_ending [
      | failed ↦ (record c { res_buf = all }, raises read_failed)
      | _ ↦ done
    ])
        ≡ done =
      rw e in
    ground (arith, size, full, none_left, received)

-- A response with a length and without any of the transfer codings: a status of three digits and what
-- follows it on its line, the headers before and behind the length, and the body.
pub record Response : Type 0 where
  pub status_1 : ℕ
  pub status_2 : ℕ
  pub status_3 : ℕ
  pub reason : List ℕ
  pub before : List (List ℕ)
  pub length_1 : ℕ
  pub length_rest : List ℕ
  pub after : List (List ℕ)

abbrev pub status : Response → ℕ
status r = decimal 0 (r.status_1 ∷ r.status_2 ∷ r.status_3 ∷ [])

abbrev pub body_length : Response → ℕ
body_length r = decimal 0 (r.length_1 ∷ r.length_rest)

abbrev pub status_line : Response → List ℕ
status_line r =
    codes "HTTP/1.1 " ++ (characters (r.status_1 ∷ r.status_2 ∷ r.status_3 ∷ []) ++ 32 ∷ r.reason)

abbrev pub length_line : Response → List ℕ
length_line r = codes "Content-Length: " ++ (characters (r.length_1 ∷ r.length_rest) ++ 13 ∷ [])

abbrev pub headers : Response → List (List ℕ)
headers r = r.before ++ length_line r ∷ r.after

-- The text of the response up to the body and a part of it.
abbrev pub response_text : Response → List ℕ → List ℕ
response_text r part = status_line r ++ 10 ∷ text_of (headers r) part

abbrev pub WellFormed : Response → Type 0
WellFormed r =
    (1 ≤ r.status_1)
    × Digits (r.status_1 ∷ r.status_2 ∷ r.status_3 ∷ [])
    × (status r ≢ 302)
    × OneLine r.reason
    × (Headers r.before × NoLength r.before)
    × (Digits (r.length_1 ∷ r.length_rest) × (body_length r < 2147483648))
    × (Headers r.after × NoLength r.after)

OneLine-append : (l more : List ℕ) → OneLine l → OneLine more → OneLine (l ++ more)
OneLine-append [] more h k = k
OneLine-append (c ∷ l) more h k = (h.0, OneLine-append l more h.1 k)

OneLine-characters : (ds : List ℕ) → OneLine (characters ds)
OneLine-characters [] = tt
OneLine-characters (d ∷ ds) = (λ e. omega arith, OneLine-characters ds)

Headers-append : (ls more : List (List ℕ)) → Headers ls → Headers more → Headers (ls ++ more)
Headers-append [] more h k = k
Headers-append (l ∷ ls) more h k = (h.0, Headers-append ls more h.1 k)

pub status_line-OneLine : (r : Response) → OneLine r.reason → OneLine (status_line r)
status_line-OneLine r h =
    OneLine-append (codes "HTTP/1.1 ")
      (characters (r.status_1 ∷ r.status_2 ∷ r.status_3 ∷ []) ++ 32 ∷ r.reason) (ground arith)
      (OneLine-append (characters (r.status_1 ∷ r.status_2 ∷ r.status_3 ∷ [])) (32 ∷ r.reason)
        (OneLine-characters (r.status_1 ∷ r.status_2 ∷ r.status_3 ∷ [])) (ground arith, h))

pub headers-Headers : (r : Response) → Headers r.before → Headers r.after → Headers (headers r)
headers-Headers r h k = Headers-append r.before (length_line r ∷ r.after) h (
  (
    OneLine-append (codes "Content-Length: ") (characters (r.length_1 ∷ r.length_rest) ++ 13 ∷ [])
        (ground arith)
        (OneLine-append (characters (r.length_1 ∷ r.length_rest)) (13 ∷ [])
          (OneLine-characters (r.length_1 ∷ r.length_rest)) (ground arith, tt)),
    refl,
  ),
  k,
)

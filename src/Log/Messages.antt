-- ===== src/Log/Messages.antt =====
-- The statements of src/core/log.h as lists of texts, and the message that each of them means.
use mathlib.Core.List.{append_assoc, append-nil}
use petrel.Prelude.{
  ℕ, ◌≤◌, ◌≡◌, refl, ap, ◌∙◌, Bool, true, false, List, [], ◌∷◌, ◌++◌, Option, none, some, ltb, leb,
  length, if◌then◌else◌, arith,
}
use petrel.Log.{
  Message, sys, out, Log, to_int, cast_priority, to_priority, is_log_priority, darkgray, white,
  color, name, format, sync, overflow, put, endl, log_base, log_plain_noln, log_plain,
}

-- A line: `log_base` with the first text, `log_plain_noln` with the next ones, and `log_plain` with
-- the last, at one priority. `log_info(M)` and its like are lines without texts in between.
pub record Line : Type 0 where
  pub time : List ℕ
  pub tag : List ℕ
  pub prio : ℕ
  pub first : List ℕ
  pub middle : List (List ℕ)
  pub last : List ℕ

abbrev pub plain_all : List ℕ → ℕ → List (List ℕ) → Log → Log
plain_all time prio [] s = s
plain_all time prio (t ∷ ts) s = plain_all time prio ts (log_plain_noln time prio t s)

abbrev pub log_line : Line → Log → Option Log
log_line l s = elim (log_base l.time l.tag l.prio l.first s) [
  | none ↦ none
  | some t ↦ some (log_plain l.time l.prio l.last (plain_all l.time l.prio l.middle t))
]

abbrev pub log_lines : List Line → Log → Option Log
log_lines [] s = some s
log_lines (l ∷ ls) s = elim (log_line l s) [ none ↦ none | some t ↦ log_lines ls t ]

-- The description: the text of a line, and the messages of the lines that are not filtered, for the
-- width that the tags have by then.
abbrev pub texts : List (List ℕ) → List ℕ
texts [] = []
texts (t ∷ ts) = t ++ texts ts

abbrev pub widened : ℕ → List ℕ → ℕ
widened width tag = if ltb width (length tag) then length tag else width

abbrev pub line_text : Bool → ℕ → Line → List ℕ
line_text syslog width l =
    format syslog l.tag (widened width l.tag) white
    ++ format syslog (name (cast_priority l.prio)) 10 (color (cast_priority l.prio))
    ++ l.first
    ++ texts l.middle
    ++ l.last
    ++ 10 ∷ []

abbrev pub message : Bool → ℕ → Line → Message
message syslog width l =
    if syslog
    then sys l.prio (line_text syslog width l)
    else out (format false l.time 15 darkgray ++ line_text syslog width l)

abbrev pub messages : Bool → ℕ → ℕ → List Line → List Message
messages syslog filter_priority width [] = []
messages syslog filter_priority width (l ∷ ls) =
    if leb l.prio filter_priority
    then message syslog width l ∷ messages syslog filter_priority (widened width l.tag) ls
    else messages syslog filter_priority width ls

abbrev pub Priorities : List Line → Type 0
Priorities [] = Unit
Priorities (l ∷ ls) = (l.prio ≤ 7) × Priorities ls

pub put-append : (time cs : List ℕ) (s : Log) → put time cs s ≡ record s { buffer = s.buffer ++ cs }
unfolding put overflow
put-append time [] s = rw (append-nil s.buffer)
put-append time (c ∷ cs) s =
    put-append time cs (record s { buffer = s.buffer ++ c ∷ [] })
    ∙ ap (λ b. record s { buffer = b }) (append_assoc s.buffer (c ∷ []) cs)

pub plain_all-append :
    (time : List ℕ) (prio : ℕ) (ts : List (List ℕ)) (s : Log)
    → leb prio s.filter_priority ≡ true
    → plain_all time prio ts s ≡ record s { buffer = s.buffer ++ texts ts }
unfolding log_plain_noln
plain_all-append time prio [] s h = rw (append-nil s.buffer)
plain_all-append time prio (t ∷ ts) s h =
    let shown : log_plain_noln time prio t s ≡ record s { buffer = s.buffer ++ t } =
      ground (arith, h, put-append time t s) in
    ap (plain_all time prio ts) shown
    ∙ plain_all-append time prio ts (record s { buffer = s.buffer ++ t }) h
    ∙ ap (λ b. record s { buffer = b }) (append_assoc s.buffer t (texts ts))

pub plain_all-filtered :
    (time : List ℕ) (prio : ℕ) (ts : List (List ℕ)) (s : Log)
    → leb prio s.filter_priority ≡ false
    → plain_all time prio ts s ≡ s
unfolding log_plain_noln
plain_all-filtered time prio [] s h = refl
plain_all-filtered time prio (t ∷ ts) s h =
    let hidden : log_plain_noln time prio t s ≡ s = ground (arith, h) in
    ap (plain_all time prio ts) hidden ∙ plain_all-filtered time prio ts s h

pub to_priority-cast : (n : ℕ) → n ≤ 7 → to_priority n ≡ some (cast_priority n)
unfolding to_priority is_log_priority
to_priority-cast n h = ground arith

pub to_int-cast : (n : ℕ) → n ≤ 7 → to_int (cast_priority n) ≡ n
to_int-cast n h = ground arith

pub endl-message :
    (time : List ℕ) (s : Log)
    → endl time s ≡ record s {
      buffer = [];
      priority = 7;
      written =
          s.written
          ++ (if s.syslog
              then sys s.priority (s.buffer ++ 10 ∷ [])
              else out (format false time 15 darkgray ++ (s.buffer ++ 10 ∷ [])))
            ∷ [];
    }
unfolding endl sync put overflow
endl-message time s = ended s.buffer
  where
    ended :
        (cs : List ℕ)
        → sync time (record s { buffer = cs ++ 10 ∷ [] }) ≡ record s {
          buffer = [];
          priority = 7;
          written =
              s.written
              ++ (if s.syslog
                  then sys s.priority (cs ++ 10 ∷ [])
                  else out (format false time 15 darkgray ++ (cs ++ 10 ∷ [])))
                ∷ [];
        }
    ended [] = refl
    ended (c ∷ cs) = refl

-- The state after `log_base`, which has not yet written anything.

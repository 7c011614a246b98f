-- ===== src/Log.antt =====
-- The logging of src/core/log.h and log.cpp: the stream buffer behind `std::clog`, the texts that the
-- macros write, and the priorities. Characters are numbers; the local time is an argument of the
-- calls that may print it. A thread that writes to the log is alone: the macros do not lock.
pub mod Messages
pub mod Statements
mod Tests
use petrel.Texts.{codes}
use petrel.Prelude.{
  ℕ, ◌+◌, ◌-◌, Bool, true, false, List, [], ◌∷◌, ◌++◌, Option, none, some, ◌==◌, ltb, leb, length,
  replicate, if◌then◌else◌,
}

-- What `sync` passes on: to syslog with a priority, or to the standard output.
pub data Message : Type 0 where
  sys : ℕ → List ℕ → Message
  out : List ℕ → Message

-- The members of the buffer, the static members of `log`, and the static width of the tags.
pub record Log : Type 0 where
  pub buffer : List ℕ
  pub priority : ℕ
  pub syslog : Bool
  pub filter_priority : ℕ
  pub tag_width : ℕ
  pub written : List Message

pub new_log : Bool → ℕ → Log
new_log syslog filter_priority = record {
  buffer = [];
  priority = 6;
  syslog = syslog;
  filter_priority = filter_priority;
  tag_width = 17;
  written = [];
}

-- The values of `log_priority`; `no_priority` is `none`.
pub data Priority : Type 0 where
  emerg alert crit err warn notice info debug no_priority : Priority

abbrev pub to_int : Priority → ℕ
to_int emerg = 0
to_int alert = 1
to_int crit = 2
to_int err = 3
to_int warn = 4
to_int notice = 5
to_int info = 6
to_int debug = 7
to_int no_priority = 8

-- The cases of the `switch`; a negative number is not among them either.
unfoldable pub is_log_priority : ℕ → Bool
is_log_priority n = leb n 7

abbrev pub cast_priority : ℕ → Priority
cast_priority n =
    if n == 0
    then emerg
    else if n == 1
    then alert
    else if n == 2
    then crit
    else if n == 3
    then err
    else if n == 4
    then warn
    else if n == 5
    then notice
    else if n == 6
    then info
    else if n == 7
    then debug
    else no_priority

-- Without a value it throws.
unfoldable pub to_priority : ℕ → Option Priority
unfolding is_log_priority
to_priority n = if is_log_priority n then some (cast_priority n) else none

-- "\x1b[", the digits and "m"; no colour at all with syslog.
abbrev pub escape : List ℕ → List ℕ
escape digits = 27 ∷ 91 ∷ (digits ++ 109 ∷ [])

abbrev pub darkgray : List ℕ
darkgray = escape (codes "30;1")

abbrev pub white : List ℕ
white = escape (codes "37;1")

abbrev pub reset : List ℕ
reset = escape (codes "0")

abbrev pub color : Priority → List ℕ
color emerg = escape (codes "31;1")
color alert = escape (codes "31")
color crit = escape (codes "31;1")
color err = escape (codes "31;1")
color warn = escape (codes "35;1")
color notice = escape (codes "32")
color info = escape (codes "33")
color debug = escape (codes "34;1")
color no_priority = escape (codes "31")

abbrev pub name : Priority → List ℕ
name emerg = codes "emergency"
name alert = codes "alert"
name crit = codes "critical"
name err = codes "error"
name warn = codes "warning"
name notice = codes "notice"
name info = codes "info"
name debug = codes "debug"
name no_priority = codes "none"

-- `std::right << std::setw(width) << str`
abbrev pub padded : ℕ → List ℕ → List ℕ
padded width str = replicate (width - length str) 32 ++ str

-- `format` with a colour, which every call gives.
unfoldable pub format : Bool → List ℕ → ℕ → List ℕ → List ℕ
format syslog str width col =
    if syslog
    then 91 ∷ (str ++ 93 ∷ 32 ∷ [])
    else col ++ padded width str ++ reset ++ 32 ∷ 124 ∷ 32 ∷ []

unfoldable pub sync : List ℕ → Log → Log
unfolding format
sync time s = elim s.buffer [
  | [] ↦ s
  | c ∷ cs ↦
      let text : Message =
        if s.syslog
        then sys s.priority (c ∷ cs)
        else out (format false time 15 darkgray ++ c ∷ cs) in
      record s { buffer = []; priority = 7; written = s.written ++ text ∷ [] }
]

-- `overflow`; without a value the character is EOF.
unfoldable pub overflow : List ℕ → Option ℕ → Log → Log
unfolding sync
overflow time none s = sync time s
overflow time (some c) s = record s { buffer = s.buffer ++ c ∷ [] }

-- `<<` of a text: the buffer has no space of its own, so each character overflows.
unfoldable pub put : List ℕ → List ℕ → Log → Log
unfolding overflow
put time [] s = s
put time (c ∷ cs) s = put time cs (overflow time (some c) s)

-- `operator<<` of a priority, and of a tag, whose width grows with the longest tag so far.
unfoldable pub put_priority : List ℕ → Priority → Log → Log
unfolding put format
put_priority time p s =
    put time (format s.syslog (name p) 10 (color p)) (record s { priority = to_int p })

unfoldable pub put_tag : List ℕ → List ℕ → Log → Log
unfolding put format
put_tag time tag s =
    let width = if ltb s.tag_width (length tag) then length tag else s.tag_width in
    put time (format s.syslog tag width white) (record s { tag_width = width })

-- `std::endl`
unfoldable pub endl : List ℕ → Log → Log
unfolding put sync
endl time s = sync time (put time (10 ∷ []) s)

-- `log_base` without a line end; it throws if the number is no priority.
unfoldable pub log_base : List ℕ → List ℕ → ℕ → List ℕ → Log → Option Log
unfolding put put_tag put_priority to_priority
log_base time tag prio text s =
    if leb prio s.filter_priority
    then elim (to_priority prio) [
      | none ↦ none
      | some p ↦ some (put time text (put_priority time p (put_tag time tag s)))
    ]
    else some s

unfoldable pub log_plain_noln : List ℕ → ℕ → List ℕ → Log → Log
unfolding put
log_plain_noln time prio text s = if leb prio s.filter_priority then put time text s else s

unfoldable pub log_plain : List ℕ → ℕ → List ℕ → Log → Log
unfolding put endl
log_plain time prio text s = if leb prio s.filter_priority then endl time (put time text s) else s

-- ===== src/Log/Statements.antt =====
-- What a thread's log statements write.
use mathlib.Core.List.{append_assoc, append-nil}
use petrel.Prelude.{
  ℕ, ◌≤◌, ◌≡◌, refl, sym, ap, ◌∙◌, true, false, List, [], ◌∷◌, ◌++◌, some, leb, if◌then◌else◌,
  arith, Bool-cases, inl, inr,
}
use petrel.Log.{
  sys, out, Log, to_int, cast_priority, darkgray, white, color, name, format, put, put_priority,
  put_tag, endl, log_base, log_plain,
}
use petrel.Log.Messages.{
  Line, Priorities, endl-message, log_line, log_lines, message, messages, plain_all,
  plain_all-append, plain_all-filtered, put-append, texts, to_int-cast, to_priority-cast, widened,
}

abbrev begun : Line → Log → Log
begun l s =
    let p = cast_priority l.prio in
    record s {
      tag_width = widened s.tag_width l.tag;
      priority = l.prio;
      buffer =
          s.buffer
          ++ format s.syslog l.tag (widened s.tag_width l.tag) white
          ++ format s.syslog (name p) 10 (color p)
          ++ l.first;
    }

log_base-begun :
    (l : Line) (s : Log)
    → l.prio ≤ 7
    → leb l.prio s.filter_priority ≡ true
    → log_base l.time l.tag l.prio l.first s ≡ some (begun l s)
unfolding log_base put_priority put_tag
log_base-begun l s b h =
    let p = cast_priority l.prio in
    let w = widened s.tag_width l.tag in
    let tag_text = format s.syslog l.tag w white in
    let priority_text = format s.syslog (name p) 10 (color p) in
    let tagged : put_tag l.time l.tag s
        ≡ record s { tag_width = w; buffer = s.buffer ++ tag_text } =
      put-append l.time tag_text (record s { tag_width = w }) in
    let marked : put_priority l.time p (record s { tag_width = w; buffer = s.buffer ++ tag_text })
        ≡ record s {
          tag_width = w;
          priority = to_int p;
          buffer = s.buffer ++ tag_text ++ priority_text;
        } =
      put-append l.time priority_text
        (record s { tag_width = w; priority = to_int p; buffer = s.buffer ++ tag_text }) in
    let all : put l.time l.first (put_priority l.time p (put_tag l.time l.tag s)) ≡ begun l s =
      ap (λ t. put l.time l.first (put_priority l.time p t)) tagged
      ∙ ap (put l.time l.first) marked
      ∙ put-append l.time l.first (record s {
        tag_width = w;
        priority = to_int p;
        buffer = s.buffer ++ tag_text ++ priority_text;
      })
      ∙ ap (λ n. record (begun l s) { priority = n }) (to_int-cast l.prio b) in
    ground (arith, h, to_priority-cast l.prio b, all)

log_line-filtered :
    (l : Line) (s : Log) → leb l.prio s.filter_priority ≡ false → log_line l s ≡ some s
unfolding log_base log_plain
log_line-filtered l s h = ground (arith, h, plain_all-filtered l.time l.prio l.middle s h)

log_line-message :
    (l : Line) (s : Log)
    → l.prio ≤ 7
    → s.buffer ≡ []
    → leb l.prio s.filter_priority ≡ true
    → log_line l s
      ≡ some (record s {
        buffer = [];
        priority = 7;
        tag_width = widened s.tag_width l.tag;
        written = s.written ++ message s.syslog s.tag_width l ∷ [];
      })
unfolding log_plain
log_line-message l s b e h =
    let t = begun l s in
    let u = record t { buffer = t.buffer ++ texts l.middle } in
    let v = record u { buffer = u.buffer ++ l.last } in
    let ends : log_plain l.time l.prio l.last u ≡ endl l.time v =
      ground (arith, h, put-append l.time l.last u) in
    let p = cast_priority l.prio in
    let text : List ℕ → List ℕ = λ cs.
      cs
      ++ format s.syslog l.tag (widened s.tag_width l.tag) white
      ++ format s.syslog (name p) 10 (color p)
      ++ l.first
      ++ texts l.middle
      ++ l.last
      ++ 10 ∷ [] in
    let after : List ℕ → Log = λ cs. record s {
      buffer = [];
      priority = 7;
      tag_width = widened s.tag_width l.tag;
      written =
          s.written
          ++ (if s.syslog
              then sys l.prio (text cs)
              else out (format false l.time 15 darkgray ++ text cs))
            ∷ [];
    } in
    let whole : log_plain l.time l.prio l.last (plain_all l.time l.prio l.middle t) ≡ after [] =
      ap (log_plain l.time l.prio l.last) (plain_all-append l.time l.prio l.middle t h)
      ∙ ends
      ∙ endl-message l.time v
      ∙ ap after e in
    rw (log_line, log_base-begun l s b h) (ap some whole)

-- Lines of a thread that is alone, at priorities that exist, never throw; each line that is not
-- filtered becomes one message, in order, with its own text and priority, and the others leave no
-- trace.
pub log_lines-messages :
    (ls : List Line) (s : Log)
    → Priorities ls
    → s.buffer ≡ []
    → (t : Log) × (log_lines ls s ≡ some t)
      × (t.buffer ≡ [])
      × (t.written ≡ s.written ++ messages s.syslog s.filter_priority s.tag_width ls)
log_lines-messages [] s ps e = (s, refl, e, sym (append-nil s.written))
log_lines-messages (l ∷ ls) s ps e = elim (Bool-cases (leb l.prio s.filter_priority)) [
  | inr hidden ↦
      let (t, ran, empty, w) = log_lines-messages ls s ps.1 e in
      (t, rw (log_lines, log_line-filtered l s hidden) ran, empty, rw hidden w)
  | inl printed ↦
      let next : Log = record s {
        buffer = [];
        priority = 7;
        tag_width = widened s.tag_width l.tag;
        written = s.written ++ message s.syslog s.tag_width l ∷ [];
      } in
      let (t, ran, empty, w) = log_lines-messages ls next ps.1 refl in
      (
        t,
        rw (log_lines, log_line-message l s ps.0 e printed) ran,
        empty,
        rw printed (
            w
            ∙ append_assoc s.written (message s.syslog s.tag_width l ∷ [])
                (messages s.syslog s.filter_priority (widened s.tag_width l.tag) ls)),
      )
]

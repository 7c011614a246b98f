-- ===== src/Log/Tests.antt =====
-- Three lines, of which the second is filtered, and the round trip of priorities.
use petrel.Prelude.{◌≡◌, refl, ◌++◌, List, [], ◌∷◌, none, some, true, arith}
use petrel.Log.{Log, new_log, debug, no_priority, to_int, to_priority, is_log_priority}
use petrel.Log.Messages.{Line, log_lines, messages}
use petrel.Log.Statements.{log_lines-messages}

abbrev lines : List Line
lines =
    record { time = []; tag = 97 ∷ []; prio = 3; first = 98 ∷ []; middle = []; last = [] }
    ∷ record { time = []; tag = 97 ∷ []; prio = 7; first = 99 ∷ []; middle = []; last = [] }
    ∷ record {
      time = [];
      tag = [];
      prio = 6;
      first = [];
      middle = (100 ∷ []) ∷ [];
      last = 101 ∷ [];
    }
    ∷ []

log_lines-messages_example :
    (t : Log) × (log_lines lines (new_log true 6) ≡ some t)
    × (t.buffer ≡ [])
    × (t.written ≡ (new_log true 6).written ++ messages true 6 17 lines)
unfolding new_log
log_lines-messages_example = log_lines-messages lines (new_log true 6) (ground arith) refl

to_priority_debug : to_priority 7 ≡ some debug
unfolding to_priority is_log_priority
to_priority_debug = refl

to_priority_throws : to_priority (to_int no_priority) ≡ none
unfolding to_priority is_log_priority
to_priority_throws = refl

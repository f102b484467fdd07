-- ===== src/Activity/Log/Tests.antt =====
-- server/src/activity.rs: runs of the journal. A detail is the session's id here.
use sctl.Prelude.{◌≡◌, refl, List, [], ◌∷◌, none, some, String}
use sctl.Activity.Types.{exec, file_read, session_start, mcp, rest, same_type, same_source}
use sctl.Activity.Log.{Activity, new, entry_of, log, read_since_filtered, in_session}
use sctl.Activity.Log.History.{log_all}

abbrev run : Activity String
run = record {
  timestamp = 5;
  activity_type = exec;
  source = rest;
  summary = "ls";
  detail = none;
  request_id = none;
}

abbrev open_session : Activity String
open_session = record {
  timestamp = 6;
  activity_type = session_start;
  source = mcp;
  summary = "bash";
  detail = some "s1";
  request_id = none;
}

abbrev read_file : Activity String
read_file = record {
  timestamp = 7;
  activity_type = file_read;
  source = mcp;
  summary = "/etc/hosts";
  detail = some "s2";
  request_id = some "r";
}

abbrev all_three : List (Activity String)
all_three = run ∷ open_session ∷ read_file ∷ []

-- Of the two entries that a journal of size 2 still holds.
filtered_run :
    read_since_filtered some (log_all (new 2) all_three) 0 10 none (some mcp) (some "s1")
    ≡ entry_of 2 open_session ∷ []
unfolding read_since_filtered log new in_session same_type same_source
filtered_run = refl

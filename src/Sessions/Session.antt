-- ===== src/Sessions/Session.antt =====
-- server/src/sessions/session.rs: a managed session. The channel to the shell's standard input and
-- the tasks are the operating system's; what is kept of the terminal is whether there is one. An
-- exit code is the bit pattern of an `i32`.
use sctl.Prelude.{
  ℕ, ◌^◌, Bool, false, List, [], ◌∷◌, Option, none, some, String, ltb, if◌then◌else◌,
}
use sctl.Sessions.Entry.{system}
use sctl.Sessions.Buffer.{OutputBuffer, push}

pub data SessionStatus : Type 0 where
  running exited : SessionStatus

pub record ManagedSession : Type 0 where
  pub pid : ℕ
  pub pgid : ℕ
  pub buffer : OutputBuffer
  pub status : SessionStatus
  pub exit_code : Option ℕ
  pub has_pty : Bool

-- `spawn` and `spawn_pty`, once the process runs; `pid` is 0 if it has already gone.
unfoldable pub spawned : ℕ → OutputBuffer → Bool → ManagedSession
spawned pid buffer has_pty = record {
  pid = pid;
  pgid = pid;
  buffer = buffer;
  status = running;
  exit_code = none;
  has_pty = has_pty;
}

unfoldable pub archived : OutputBuffer → Option ℕ → ManagedSession
archived buffer exit_code = record {
  pid = 0;
  pgid = 0;
  buffer = buffer;
  status = exited;
  exit_code = exit_code;
  has_pty = false;
}

-- The exit watcher, with the message that it writes and the code, which is -1 if there is none.
unfoldable pub watch_exit : ManagedSession → String → ℕ → ℕ → ManagedSession
watch_exit s message code now = record s {
  exit_code = some code;
  buffer = (push s.buffer system message now).0;
  status = exited;
}

-- `libc::kill`, with the process group as the call names it: a call with `-pgid`. Group 0 is the
-- caller's own.
pub data Kill : Type 0 where
  kill_group : ℕ → ℕ → Kill

abbrev pub sigterm : ℕ
sigterm = 15

abbrev pub sigkill : ℕ
sigkill = 9

unfoldable pub send_signal : ManagedSession → ℕ → Kill
send_signal s signal = kill_group s.pgid signal

-- `pgid as i32 > 0`
abbrev pub is_group : ℕ → Bool
is_group pgid = if ltb 0 pgid then ltb pgid (2 ^ 31) else false

unfoldable pub kill : ManagedSession → List Kill
kill s = if is_group s.pgid then kill_group s.pgid sigkill ∷ [] else []

-- `in_time` says whether the process has exited at one of the polls before the deadline.
unfoldable pub graceful_kill : ManagedSession → Bool → List Kill
graceful_kill s in_time =
    if is_group s.pgid
    then kill_group s.pgid sigterm ∷ (if in_time then [] else kill_group s.pgid sigkill ∷ [])
    else []

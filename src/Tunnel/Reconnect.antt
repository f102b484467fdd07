-- ===== src/Tunnel/Reconnect.antt =====
-- server/src/tunnel/client.rs: the loop that connects to the relay again. What one connection does
-- to the statistics, how it ends and how long it takes are inputs. Times are seconds; the doubled
-- wait stays below 2^64.
use sctl.Prelude.{
  ℕ, ◌+◌, ◌*◌, ◌%◌, ◌^◌, min, Bool, true, false, ◌&&◌, ◌||◌, List, [], ◌∷◌, String, codes, ltb, leb,
  if◌then◌else◌, length, take, contains_text,
}
use sctl.Prelude.Ring.{push_bounded}
use sctl.Tunnel.Events.{
  TunnelStats, Detail, disconnected, reconnect_attempt, attempt, permanent_error, plain, push_event,
}
use mathlib.Core.List.{reverse}

abbrev pub flap_window : ℕ
flap_window = 10

abbrev pub flap_threshold_secs : ℕ
flap_threshold_secs = 30

abbrev pub flap_check_count : ℕ
flap_check_count = 3

pub data DisconnectReason : Type 0 where
  relay_shutdown ws_close pong_timeout writer_exit read_error : DisconnectReason

pub data ConnectError : Type 0 where
  permanent : String → ConnectError
  transient : String → ConnectError

-- What `connect_and_run` returns.
pub data Outcome : Type 0 where
  ended : DisconnectReason → Outcome
  failed : ConnectError → Outcome

unfoldable pub as_str : DisconnectReason → String
as_str relay_shutdown = "relay_shutdown"
as_str ws_close = "ws_close"
as_str pong_timeout = "pong_timeout"
as_str writer_exit = "writer_exit"
as_str read_error = "read_error"

pub record TunnelConfig : Type 0 where
  pub reconnect_delay_secs : ℕ
  pub reconnect_max_delay_secs : ℕ

-- One call of `connect_and_run`, and the clock around it.
pub record Connection : Type 0 where
  pub started : ℕ
  pub run : TunnelStats → TunnelStats
  pub outcome : Outcome
  pub finished : ℕ
  pub duration_secs : ℕ

pub record Client : Type 0 where
  pub delay : ℕ
  pub reconnects : ℕ
  pub connection_durations : List ℕ
  pub stats : TunnelStats

-- An iteration ends the loop, or sleeps and goes on.
pub data Step : Type 0 where
  stopped : TunnelStats → Step
  slept : ℕ → Client → Step

unfoldable pub is_unavailable : String → Bool
is_unavailable msg =
    contains_text (codes "bind_address") (codes msg)
      && contains_text (codes "not available") (codes msg)
    || contains_text (codes "Address not available") (codes msg)
    || contains_text (codes "os error 99") (codes msg)

abbrev pub connecting : Client → Connection → TunnelStats
connecting c k =
    let announced = push_event k.started reconnect_attempt (attempt c.reconnects) c.stats in
    record (k.run (record announced { reconnecting = true })) { reconnecting = false }

abbrev pub all_short : List ℕ → Bool
all_short [] = true
all_short (d ∷ ds) = ltb d flap_threshold_secs && all_short ds

unfoldable pub is_flapping : List ℕ → Bool
is_flapping ds = leb flap_check_count (length ds) && all_short (take flap_check_count (reverse ds))

-- What follows the `match`: `wait` and `escalate_backoff` are what it chose.
unfoldable pub sleep_after : TunnelConfig → Client → Connection → TunnelStats → ℕ → Bool → Step
sleep_after cfg c k s wait escalate_backoff =
    let reconnects = (c.reconnects + 1) % 2 ^ 64 in
    let durations = push_bounded flap_window c.connection_durations k.duration_secs in
    let flap = is_flapping durations in
    let chosen = if flap then 60 else wait in
    let escalates = if flap then false else escalate_backoff in
    slept chosen (record {
      delay =
          if escalates
          then min (chosen * 2) cfg.reconnect_max_delay_secs
          else cfg.reconnect_delay_secs;
      reconnects = reconnects;
      connection_durations = durations;
      stats = record s { reconnects = reconnects; is_connected = false; current_uptime_ms = 0 };
    })

abbrev pub noted : Connection → Detail → TunnelStats → TunnelStats
noted k d s = push_event k.finished disconnected d s

-- The `match` on what `connect_and_run` returned.
unfoldable pub react : TunnelConfig → Client → Connection → TunnelStats → Outcome → Step
react cfg c k s (ended relay_shutdown) =
    sleep_after cfg c k (noted k (plain "relay shutdown") s) 0 false
react cfg c k s (ended reason) = sleep_after cfg c k (noted k (plain (as_str reason)) s) 0 false
react cfg c k s (failed (permanent msg)) =
    stopped (record (noted k (permanent_error msg) s) { is_connected = false })
react cfg c k s (failed (transient msg)) =
    if is_unavailable msg
    then sleep_after cfg c k (noted k (plain msg) s) 5 false
    else sleep_after cfg c k (noted k (plain msg) s) c.delay true

unfoldable pub iteration : TunnelConfig → Client → Connection → Step
iteration cfg c k = react cfg c k (connecting c k) k.outcome

abbrev pub start : TunnelConfig → TunnelStats → Client
start cfg s = record {
  delay = cfg.reconnect_delay_secs;
  reconnects = 0;
  connection_durations = [];
  stats = s;
}

abbrev pub then_wait : (Client → List ℕ) → Step → List ℕ
then_wait rest (stopped s) = []
then_wait rest (slept wait next) = wait ∷ rest next

-- How long `tunnel_client_loop` sleeps after each connection, until it ends or the connections do.
unfoldable pub tunnel_client_loop : TunnelConfig → Client → List Connection → List ℕ
tunnel_client_loop cfg c [] = []
tunnel_client_loop cfg c (k ∷ ks) =
    then_wait (λ next. tunnel_client_loop cfg next ks) (iteration cfg c k)

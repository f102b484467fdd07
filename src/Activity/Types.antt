-- ===== src/Activity/Types.antt =====
-- server/src/activity.rs: the kinds of activity and their names on the wire.
mod Tests
use sctl.Prelude.{◌≡◌, refl, Bool, true, false, Option, none, some, String, str_eq, if◌then◌else◌}

pub data ActivityType : Type 0 where
  exec file_read file_write file_list : ActivityType
  session_start session_exec session_kill session_signal : ActivityType
  file_delete playbook_list playbook_read playbook_write playbook_delete : ActivityType
  ws_connect ws_disconnect tunnel_connect tunnel_disconnect : ActivityType
  transfer_start transfer_complete : ActivityType

pub data ActivitySource : Type 0 where
  mcp ws rest tunnel unknown : ActivitySource

-- The names that serde gives the constructors on the wire.
pub type_name : ActivityType → String
type_name exec = "exec"
type_name file_read = "file_read"
type_name file_write = "file_write"
type_name file_list = "file_list"
type_name session_start = "session_start"
type_name session_exec = "session_exec"
type_name session_kill = "session_kill"
type_name session_signal = "session_signal"
type_name file_delete = "file_delete"
type_name playbook_list = "playbook_list"
type_name playbook_read = "playbook_read"
type_name playbook_write = "playbook_write"
type_name playbook_delete = "playbook_delete"
type_name ws_connect = "ws_connect"
type_name ws_disconnect = "ws_disconnect"
type_name tunnel_connect = "tunnel_connect"
type_name tunnel_disconnect = "tunnel_disconnect"
type_name transfer_start = "transfer_start"
type_name transfer_complete = "transfer_complete"

pub source_name : ActivitySource → String
source_name mcp = "mcp"
source_name ws = "ws"
source_name rest = "rest"
source_name tunnel = "tunnel"
source_name unknown = "unknown"

-- `ActivityType::from_str_opt`
pub type_from_str_opt : String → Option ActivityType
type_from_str_opt s =
    if str_eq s "exec"
    then some exec
    else if str_eq s "file_read"
    then some file_read
    else if str_eq s "file_write"
    then some file_write
    else if str_eq s "file_list"
    then some file_list
    else if str_eq s "file_delete"
    then some file_delete
    else if str_eq s "session_start"
    then some session_start
    else if str_eq s "session_exec"
    then some session_exec
    else if str_eq s "session_kill"
    then some session_kill
    else if str_eq s "session_signal"
    then some session_signal
    else if str_eq s "playbook_list"
    then some playbook_list
    else if str_eq s "playbook_read"
    then some playbook_read
    else if str_eq s "playbook_write"
    then some playbook_write
    else if str_eq s "playbook_delete"
    then some playbook_delete
    else if str_eq s "ws_connect"
    then some ws_connect
    else if str_eq s "ws_disconnect"
    then some ws_disconnect
    else if str_eq s "tunnel_connect"
    then some tunnel_connect
    else if str_eq s "tunnel_disconnect"
    then some tunnel_disconnect
    else if str_eq s "transfer_start"
    then some transfer_start
    else if str_eq s "transfer_complete"
    then some transfer_complete
    else none

-- `ActivitySource::from_str_opt`
pub source_from_str_opt : String → Option ActivitySource
source_from_str_opt s =
    if str_eq s "mcp"
    then some mcp
    else if str_eq s "ws"
    then some ws
    else if str_eq s "rest"
    then some rest
    else if str_eq s "tunnel"
    then some tunnel
    else if str_eq s "unknown"
    then some unknown
    else none

-- `source_from_headers`: the argument is the `x-sctl-client` header, if it is text.
pub source_from_header : Option String → ActivitySource
source_from_header none = rest
source_from_header (some v) =
    if str_eq v "mcp" then mcp else if str_eq v "tunnel" then tunnel else rest

-- The parser of each wire name gives back its constructor, for types and for sources.
pub from_str_opt-name :
    (t : ActivityType) (s : ActivitySource)
    → (type_from_str_opt (type_name t) ≡ some t) × (source_from_str_opt (source_name s) ≡ some s)
unfolding type_from_str_opt type_name source_from_str_opt source_name
from_str_opt-name t s = (types t, sources s)
  where
    types : (t : ActivityType) → type_from_str_opt (type_name t) ≡ some t
    types exec = refl
    types _ = refl

    sources : (s : ActivitySource) → source_from_str_opt (source_name s) ≡ some s
    sources mcp = refl
    sources _ = refl

abbrev pub ActivityType-discrete : Discrete ActivityType
ActivityType-discrete = hlevel

abbrev pub ActivitySource-discrete : Discrete ActivitySource
ActivitySource-discrete = hlevel

unfoldable pub same_type : ActivityType → ActivityType → Bool
same_type a b = elim (ActivityType-discrete a b) [ yes _ ↦ true | no _ ↦ false ]

unfoldable pub same_source : ActivitySource → ActivitySource → Bool
same_source a b = elim (ActivitySource-discrete a b) [ yes _ ↦ true | no _ ↦ false ]

-- ===== src/Activity/Types/Tests.antt =====
-- server/src/activity.rs: the source of a request, and the names on the wire.
use sctl.Prelude.{◌≡◌, refl, none, some}
use sctl.Activity.Types.{mcp, tunnel, rest, source_from_header}

headers :
    (source_from_header none ≡ rest)
    × (source_from_header (some "mcp") ≡ mcp)
    × (source_from_header (some "tunnel") ≡ tunnel)
    × (source_from_header (some "ws") ≡ rest)
unfolding source_from_header
headers = (refl, refl, refl, refl)

-- ===== src/Mcp/Gaps.antt =====
-- mcp/src/websocket.rs: what the notice of a gap hides.

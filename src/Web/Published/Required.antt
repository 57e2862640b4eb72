-- ===== src/Web/Published/Required.antt =====
-- What a client that follows the published metadata obtains.
use spliit_mcp.Config.{Config}

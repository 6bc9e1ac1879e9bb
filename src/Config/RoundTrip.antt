-- ===== src/Config/RoundTrip.antt =====
-- internal/config/manager.go: a configuration that is exported to a file and loaded again.
use go_control.GoMap
use go_control.GoMap.{GoMap}

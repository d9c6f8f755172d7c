-- ===== src/Connection/Names.antt =====
-- client/src/em/em_status.h: the names of the statuses.
use Prim.Native.String.{String}
use electric_maple.Connection.{Status}

unfoldable pub em_status_to_string : Status → String
em_status_to_string Status.idle_not_connected = "EM_STATUS_IDLE_NOT_CONNECTED"
em_status_to_string Status.connecting = "EM_STATUS_CONNECTING"
em_status_to_string Status.websocket_failed = "EM_STATUS_WEBSOCKET_FAILED"
em_status_to_string Status.negotiating = "EM_STATUS_NEGOTIATING"
em_status_to_string Status.connected_no_data = "EM_STATUS_CONNECTED_NO_DATA"
em_status_to_string Status.connected = "EM_STATUS_CONNECTED"
em_status_to_string Status.disconnected_error = "EM_STATUS_DISCONNECTED_ERROR"
em_status_to_string Status.disconnected_remote_close = "EM_STATUS_DISCONNECTED_REMOTE_CLOSE"

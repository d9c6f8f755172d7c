-- ===== src/Connection/Ledger.antt =====
-- client/src/em/em_connection.c, the build without USE_WEBRTC: the references of a whole session.
use Prim.Native.String.{String}
use electric_maple.Connection.{Connection}
use electric_maple.Connection.Session.{Session}

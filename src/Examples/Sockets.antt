-- ===== src/Examples/Sockets.antt =====
-- The channels that the other examples use.
use rbkit.Prelude.{true, false, []}
use rbkit.Server.Outlets.{Channels}

-- Both sockets and no callbacks.
abbrev pub both_sockets : Channels
both_sockets = record {
  has_publisher = true;
  has_publish_callback = false;
  has_response_socket = true;
  has_respond_callback = false;
  published = [];
  publish_called = [];
  responded = [];
  respond_called = [];
}

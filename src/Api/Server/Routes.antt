-- ===== src/Api/Server/Routes.antt =====
-- The routes with a path of their own of initRouter of app/api/server.go, in the order of their
-- registration. The one with a prefix, /data/, is registered behind them, if dynamic endpoints are
-- loaded: its handler is Api.Server.Dynamic.data_handler.
mod Epochs
mod Identities
mod Addresses
mod Network
pub mod Overlap
pub mod Limits
pub mod Variables
use idena_indexer_api.Prelude.{List, ◌++◌}
use idena_indexer_api.Api.Server.Router.{Route}
use Epochs.{epochs_routes}
use Identities.{identities_routes}
use Addresses.{addresses_routes}
use Network.{network_routes}

abbrev pub routes : List Route
routes = epochs_routes ++ identities_routes ++ addresses_routes ++ network_routes

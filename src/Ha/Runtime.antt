-- ===== src/Ha/Runtime.antt =====
-- `ThatsMatterRuntime` of custom_components/thatsmatter/coordinator.py: the push of the catalog.
pub mod Agrees
use thatsmatter.Base.{
  ◌≡◌, refl, Bool, true, false, List, [], ◌∷◌, Option, none, some, if◌then◌else◌, Result, ok, err,
}
use thatsmatter.Catalog.Model.{Export}
use thatsmatter.Catalog.Persist.{Codec}
use thatsmatter.Ipc.{Backend, AppState}
use thatsmatter.Ipc.Sync.{Change}
use thatsmatter.Ha.Store.{ExportStore, apply_endpoint_ids}
use thatsmatter.Ha.Client.{Link, BridgeClientError, sync_catalog}

pub record Runtime : Type 0 where
  pub store : ExportStore
  pub bridge_connected : Bool
  pub last_error : Option BridgeClientError

-- What follows the synchronisation.
unfoldable pub push_done :
    Result BridgeClientError (List Export) → Runtime → Result BridgeClientError (Unit {0}) × Runtime
unfolding apply_endpoint_ids
push_done (err e) r = (err e, record r { bridge_connected = false; last_error = some e })
push_done (ok remote) r =
    let (exports, changed) = apply_endpoint_ids remote r.store.exports in
    (
      ok tt,
      record {
        store = record { exports = exports; saved = if changed then exports else r.store.saved };
        bridge_connected = true;
        last_error = none;
      },
    )

module _ {V Raw B : Type 0} (backend : Backend V B) (codec : Codec Raw) (link : Change → Link) where
  unfoldable pub async_push_catalog :
      Bool
      → Runtime
      → AppState Raw B
      → Result BridgeClientError (Unit {0}) × Runtime × AppState Raw B
  unfolding push_done
  async_push_catalog listed r s =
      let (result, s') = sync_catalog backend codec link listed r.store.exports s in
      let (outcome, r') = push_done result r in (outcome, r', s')

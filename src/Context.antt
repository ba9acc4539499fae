-- ===== src/Context.antt =====
-- `ProtocolContexts` of src/protocols/mod.rs with the device of a call: what the handlers of the
-- network layer and the link layer change.
use rust_user_net.Base.{ℕ, List, Run, done, ◌>>=◌, Res}
use rust_user_net.Net.{ProtocolType}
use rust_user_net.Ip.Route.{IpRoutes}
use rust_user_net.Arp.Table.{ArpTable}
use rust_user_net.Device.Types.{Env, NetDevice}
use rust_user_net.Device.Dispatch

-- `ip_id_manager` is the number under its mutex.
pub record ProtocolContexts : Type 0 where
  pub arp_table : ArpTable
  pub ip_routes : IpRoutes
  pub ip_id_manager : ℕ

-- The pair `device: &mut NetDevice, contexts: &mut ProtocolContexts` of the handlers.
pub record Host : Type 0 where
  pub device : NetDevice
  pub contexts : ProtocolContexts

-- A call of `NetDevice::transmit` on the host's device.
unfoldable pub transmit : Env → ProtocolType → List ℕ → List ℕ → Host → Run (Res (Unit {0}) × Host)
transmit env proto_type payload dst host = do
  (res, device) ← Dispatch.transmit env host.device proto_type payload dst
  done (res, record host { device = device })

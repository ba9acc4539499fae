-- ===== src/Device/Loopback.antt =====
-- src/devices/loopback.rs: what is transmitted is kept with the interrupt and read back.
use rust_user_net.Base.{
  ℕ, ◌+◌, List, ◌∷◌, [], ◌++◌, Option, some, Run, done, ◌>>=◌, ◌>>◌, check, unwrap, Res, ok, length,
  replicate,
}
use rust_user_net.Net.{ProtocolType, intr_irq_base, new_irq_entry}
use rust_user_net.Device.Types.{
  Env, NetDevice, NetDeviceType, new_device, device_flag_loopback, net_device_addr_len,
}

abbrev pub irq_loopback : ℕ
irq_loopback = intr_irq_base + 5

-- `u16::MAX`.
abbrev loopback_mtu : ℕ
loopback_mtu = 65535

abbrev irq_flag_shared : ℕ
irq_flag_shared = 0x0001

unfoldable pub read_data : NetDevice → Run (Option (ProtocolType × List ℕ × ℕ) × NetDevice)
read_data device = do
  payload ← unwrap device.irq_entry.custom_data
  done (some (ProtocolType.ip, payload, length payload), device)

-- `raise(IRQ_LOOPBACK).unwrap()` panics where the signal cannot be sent.
unfoldable pub transmit : Env → NetDevice → List ℕ → Run (Res (Unit {0}) × NetDevice)
transmit env device payload = do
  check (env.raise_ok irq_loopback)
  done (
    ok tt,
    record device {
      irq_entry = record (device.irq_entry) { custom_data = some payload };
      raised = device.raised ++ irq_loopback ∷ [];
    },
  )

-- `loopback::init`; the name is "lo".
unfoldable pub init : ℕ → NetDevice
unfolding new_device new_irq_entry
init i =
    new_device i NetDeviceType.loopback (108 ∷ 111 ∷ []) loopback_mtu device_flag_loopback 0 0
      (replicate net_device_addr_len 0) (replicate net_device_addr_len 0)
      (new_irq_entry irq_loopback irq_flag_shared)

-- ===== src/Device/Ethernet.antt =====
-- src/devices/ethernet.rs, src/drivers/tap.rs and src/drivers/pcap.rs.
use rust_user_net.Base.{
  ℕ, ◌+◌, ◌-◌, List, [], ◌∷◌, ◌++◌, Option, none, some, ◌&&◌, not, Run, done, panic, ◌>>=◌, ◌>>◌,
  check, unwrap, Res, ok, ltb, leb, if◌then◌else◌, bit_or, length, take, drop, replicate, get_elem?,
}
use rust_user_net.Utils.Byte.{be_to_le_u16, le_to_be_u16, bytes_u16, of_bytes_u16}
use rust_user_net.Net.{
  ProtocolType, protocol_from_u16, protocol_as_u16, intr_irq_base, new_irq_entry,
}
use rust_user_net.Device.Types.{
  Env, NetDevice, NetDeviceType, DriverType, DriverData, bytes_eq, mac_of, eth_addr_len, new_device,
  device_flag_broadcast, device_flag_need_arp, net_device_addr_len,
}

abbrev pub irq_ethernet : ℕ
irq_ethernet = intr_irq_base + 2

abbrev pub eth_hdr_size : ℕ
eth_hdr_size = 14

abbrev pub eth_frame_min : ℕ
eth_frame_min = 60

abbrev pub eth_frame_max : ℕ
eth_frame_max = 1514

abbrev pub eth_payload_min : ℕ
eth_payload_min = 46

abbrev pub eth_payload_max : ℕ
eth_payload_max = 1500

abbrev pub eth_addr_any : List ℕ
eth_addr_any = replicate 6 0

abbrev pub eth_addr_broadcast : List ℕ
eth_addr_broadcast = replicate 6 0xff

pub record EthernetHeader : Type 0 where
  pub dst : List ℕ
  pub src : List ℕ
  pub eth_type : ℕ

-- `to_u8_slice::<EthernetHeader>`.
abbrev pub header_bytes : EthernetHeader → List ℕ
header_bytes hdr = hdr.dst ++ (hdr.src ++ bytes_u16 hdr.eth_type)

-- A byte of a slice whose length was checked.
abbrev pub byte_at : List ℕ → ℕ → ℕ
byte_at bytes i = elim (get_elem? bytes i) [ none ↦ 0 | some b ↦ b ]

-- `bytes_to_struct::<EthernetHeader>` of the driver's buffer, which is long enough.
abbrev pub header_of : List ℕ → EthernetHeader
header_of buf = record {
  dst = take 6 buf;
  src = take 6 (drop 6 buf);
  eth_type = of_bytes_u16 (byte_at buf 12) (byte_at buf 13);
}

-- `tap::open`. The file, its registration and the hardware address come from the kernel.
unfoldable pub tap_open : Env → NetDevice → Run NetDevice
unfolding bytes_eq
tap_open env device = do
  incoming ← unwrap env.tap_file
  let address =
      if bytes_eq (take 6 device.address) eth_addr_any then env.hw_addr else device.address
  done (record device {
    address = address;
    driver_data = some (record { incoming = incoming; written = []; irq = intr_irq_base + 2 });
  })

-- `tap::read_data`: a frame is cut to the buffer. With none there the read waits for one; that it does
-- not return is `panic` here.
take_frame : NetDevice → DriverData → List (List ℕ) → Run (ℕ × List ℕ × NetDevice)
take_frame device driver [] = panic
take_frame device driver (frame ∷ frames) =
    let read = take eth_frame_max frame in
    done (
      length read,
      read ++ replicate (eth_frame_max - length read) 0,
      record device { driver_data = some (record driver { incoming = frames }) },
    )

unfoldable pub tap_read_data : NetDevice → Run (ℕ × List ℕ × NetDevice)
unfolding take_frame
tap_read_data device = do
  driver ← unwrap device.driver_data
  take_frame device driver driver.incoming

-- `tap::write_data`, where the write succeeds; an error, which is logged only, is not modelled.
unfoldable pub tap_write_data : NetDevice → List ℕ → Run (Res (Unit {0}) × NetDevice)
tap_write_data device frame = do
  driver ← unwrap device.driver_data
  done (
    ok tt,
    record device { driver_data = some (record driver { written = driver.written ++ frame ∷ [] }) },
  )

-- `pcap::read_data`.
pub pcap_read_data : NetDevice → Run (ℕ × List ℕ × NetDevice)
pcap_read_data device = done (0, replicate eth_frame_max 0, device)

unfoldable pub open_ethernet : Env → NetDevice → Run (Res (Unit {0}) × NetDevice)
unfolding tap_open
open_ethernet env device = do
  driver ← unwrap device.driver_type
  elim driver [
    | DriverType.tap ↦ (do device' ← tap_open env device; done (ok tt, device'))
    | DriverType.pcap ↦ done (ok tt, device)
  ]

unfoldable pub read_data : NetDevice → Run (Option (ProtocolType × List ℕ × ℕ) × NetDevice)
unfolding tap_read_data pcap_read_data bytes_eq protocol_from_u16
read_data device = do
  driver ← unwrap device.driver_type
  (len, buf, device') ← elim driver [
    | DriverType.tap ↦ tap_read_data device
    | DriverType.pcap ↦ pcap_read_data device
  ]
  check (leb eth_hdr_size len)
  let hdr = header_of buf
  if not (bytes_eq (mac_of device') hdr.dst) && not (bytes_eq eth_addr_broadcast hdr.dst)
      then done (none, device')
      else done (
        some (
          protocol_from_u16 (be_to_le_u16 hdr.eth_type),
          drop eth_hdr_size (take len buf),
          len - eth_hdr_size,
        ),
        device',
      )

-- The bytes of the frame that carries `payload`, with its padding.
unfoldable pub build_frame : NetDevice → ProtocolType → List ℕ → List ℕ → Run (List ℕ)
unfolding protocol_as_u16
build_frame device ether_type payload dst = do
  let hdr : EthernetHeader = record {
    dst = dst;
    src = mac_of device;
    eth_type = le_to_be_u16 (protocol_as_u16 ether_type);
  }
  let hdr_bytes = header_bytes hdr
  let data_len = length payload
  check (leb (length hdr_bytes + data_len) eth_frame_max)
  let frame = hdr_bytes ++ (payload ++ replicate (eth_frame_max - (length hdr_bytes + data_len)) 0)
  let pad_len = if ltb data_len eth_payload_min then eth_payload_min - data_len else 0
  done (take (length hdr_bytes + data_len + pad_len) frame)

unfoldable pub transmit :
    NetDevice → ProtocolType → List ℕ → List ℕ → Run (Res (Unit {0}) × NetDevice)
unfolding tap_write_data
transmit device ether_type payload dst = do
  frame ← build_frame device ether_type payload dst
  driver ← unwrap device.driver_type
  elim driver [
    | DriverType.tap ↦ tap_write_data device frame
    | DriverType.pcap ↦ done (ok tt, device)
  ]

-- `ethernet::init`; the name is "tap0".
unfoldable pub init : ℕ → DriverType → NetDevice
unfolding new_device new_irq_entry
init i driver_type =
    record (new_device i NetDeviceType.ethernet (116 ∷ 97 ∷ 112 ∷ 48 ∷ []) eth_payload_max
      (bit_or device_flag_broadcast device_flag_need_arp) eth_hdr_size eth_addr_len
      (replicate net_device_addr_len 0) (replicate net_device_addr_len 0xff)
      (new_irq_entry irq_ethernet 0)) { driver_type = some driver_type }

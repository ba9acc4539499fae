-- ===== src/Device/Types.antt =====
-- `NetDevice` of src/devices/mod.rs, the drivers of src/drivers, and what a call reads of the
-- world outside. An array of bytes is a list.
use rust_user_net.Base.{
  ℕ, List, [], Option, none, some, Bool, true, false, ◌&&◌, ◌==◌, ◌∷◌, bit_and, ltb, take,
}
use rust_user_net.Net.{IrqEntry, NetInterfaceFamily, family_eq}
use rust_user_net.Ip.Route.{IpInterface}
use rust_user_net.Utils.LinkedList.{LinkedList, new, push, iter}

-- The time of `SystemTime::now()`, in microseconds since the epoch, which stays the same during one
-- call; whether `raise` of the crate signal_hook raises a signal; what opening the TAP device gives.
pub record Env : Type 0 where
  pub now : ℕ
  pub raise_ok : ℕ → Bool
  pub tap_file : Option (List (List ℕ))
  pub hw_addr : List ℕ

abbrev pub device_flag_up : ℕ
device_flag_up = 0x0001

abbrev pub device_flag_loopback : ℕ
device_flag_loopback = 0x0010

abbrev pub device_flag_broadcast : ℕ
device_flag_broadcast = 0x0020

abbrev pub device_flag_need_arp : ℕ
device_flag_need_arp = 0x0100

abbrev pub net_device_addr_len : ℕ
net_device_addr_len = 14

abbrev pub eth_addr_len : ℕ
eth_addr_len = 6

pub data NetDeviceType : Type 0 where
  loopback ethernet : NetDeviceType

unfoldable pub device_type_eq : NetDeviceType → NetDeviceType → Bool
device_type_eq NetDeviceType.loopback NetDeviceType.loopback = true
device_type_eq NetDeviceType.ethernet NetDeviceType.ethernet = true
device_type_eq _ _ = false

pub data DriverType : Type 0 where
  tap pcap : DriverType

-- `file` is the TAP device: the frames that wait to be read, and those that were written, oldest
-- first.
pub record DriverData : Type 0 where
  pub incoming : List (List ℕ)
  pub written : List (List ℕ)
  pub irq : ℕ

-- `raised` holds the signals that the device has sent to its own process, oldest first.
pub record NetDevice : Type 0 where
  pub index : ℕ
  pub device_type : NetDeviceType
  pub name : List ℕ
  pub mtu : ℕ
  pub flags : ℕ
  pub header_len : ℕ
  pub address_len : ℕ
  pub address : List ℕ
  pub broadcast : List ℕ
  pub irq_entry : IrqEntry
  pub interfaces : LinkedList IpInterface
  pub driver_type : Option DriverType
  pub driver_data : Option DriverData
  pub raised : List ℕ

-- `NetDevice::new`.
unfoldable pub new_device :
    ℕ → NetDeviceType → List ℕ → ℕ → ℕ → ℕ → ℕ → List ℕ → List ℕ → IrqEntry → NetDevice
new_device i device_type name mtu flags header_len address_len address broadcast irq_entry =
    record {
      index = i;
      device_type = device_type;
      name = name;
      mtu = mtu;
      flags = flags;
      header_len = header_len;
      address_len = address_len;
      address = address;
      broadcast = broadcast;
      irq_entry = irq_entry;
      interfaces = new;
      driver_type = none;
      driver_data = none;
      raised = [];
    }

unfoldable pub register_interface : NetDevice → IpInterface → NetDevice
register_interface device interface = record device {
  interfaces = push device.interfaces interface;
}

-- The loop of `NetDevice::get_interface`.
pub find_family : NetInterfaceFamily → List IpInterface → Option IpInterface
find_family family [] = none
find_family family (iface ∷ ifaces) = elim (family_eq iface.interface.family family) [
  | true ↦ some iface
  | false ↦ find_family family ifaces
]

unfoldable pub get_interface : NetDevice → NetInterfaceFamily → Option IpInterface
unfolding find_family family_eq
get_interface device family = find_family family (iter device.interfaces)

unfoldable pub is_open : NetDevice → Bool
is_open device = ltb 0 (bit_and device.flags device_flag_up)

-- `==` on arrays and slices of bytes.
unfoldable pub bytes_eq : List ℕ → List ℕ → Bool
bytes_eq [] [] = true
bytes_eq [] (y ∷ ys) = false
bytes_eq (x ∷ xs) [] = false
bytes_eq (x ∷ xs) (y ∷ ys) = x == y && bytes_eq xs ys

-- A device's hardware address is the first six bytes of its array.
abbrev pub mac_of : NetDevice → List ℕ
mac_of device = take eth_addr_len device.address

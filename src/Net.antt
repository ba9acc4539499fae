-- ===== src/Net.antt =====
-- src/net.rs, src/interrupt.rs and the types of src/protocols/mod.rs that every layer names.
-- The `next` fields of `NetInterface`, `IPInterface` and `IRQEntry` are `None` wherever they are
-- made and are read nowhere: they are left out.
use rust_user_net.Base.{
  ℕ, List, [], ◌∷◌, ◌++◌, Option, none, Bool, true, false, ◌==◌, if◌then◌else◌,
}
use rust_user_net.Utils.LinkedList.{LinkedList, Link, nil, node, new, push}

pub data NetInterfaceFamily : Type 0 where
  ip ipv6 : NetInterfaceFamily

-- `==` on families.
unfoldable pub family_eq : NetInterfaceFamily → NetInterfaceFamily → Bool
family_eq NetInterfaceFamily.ip NetInterfaceFamily.ip = true
family_eq NetInterfaceFamily.ipv6 NetInterfaceFamily.ipv6 = true
family_eq _ _ = false

pub record NetInterface : Type 0 where
  pub family : NetInterfaceFamily

abbrev pub intr_irq_base : ℕ
intr_irq_base = 35

pub record IrqEntry : Type 0 where
  pub irq : ℕ
  pub flags : ℕ
  pub custom_data : Option (List ℕ)

-- `IRQEntry::new`.
unfoldable pub new_irq_entry : ℕ → ℕ → IrqEntry
new_irq_entry irq flags = record { irq = irq; flags = flags; custom_data = none }

pub data ProtocolType : Type 0 where
  arp ip unknown : ProtocolType

-- `ProtocolType::from_u16`.
unfoldable pub protocol_from_u16 : ℕ → ProtocolType
protocol_from_u16 value =
    if value == 0x0800
    then ProtocolType.ip
    else if value == 0x0806
    then ProtocolType.arp
    else ProtocolType.unknown

-- `protocol_type as u16`: the discriminant of `Unknown` is the one after that of `IP`.
unfoldable pub protocol_as_u16 : ProtocolType → ℕ
protocol_as_u16 ProtocolType.arp = 0x0806
protocol_as_u16 ProtocolType.ip = 0x0800
protocol_as_u16 ProtocolType.unknown = 0x0801

-- `==` on protocol types.
unfoldable pub protocol_eq : ProtocolType → ProtocolType → Bool
protocol_eq ProtocolType.arp ProtocolType.arp = true
protocol_eq ProtocolType.ip ProtocolType.ip = true
protocol_eq ProtocolType.unknown ProtocolType.unknown = true
protocol_eq _ _ = false

-- `ProtocolData`, `NetProtocol` and `NetProtocols`.
pub record ProtocolData : Type 0 where
  pub irq : ℕ
  pub payload : Option (List ℕ)
  pub len : ℕ

pub record NetProtocol : Type 0 where
  pub protocol_type : ProtocolType
  pub input_head : List ProtocolData

unfoldable pub new_protocol : ProtocolType → NetProtocol
new_protocol t = record { protocol_type = t; input_head = [] }

pub record NetProtocols : Type 0 where
  pub entries : LinkedList NetProtocol

unfoldable pub new_protocols : NetProtocols
new_protocols = record { entries = new }

unfoldable pub register : NetProtocols → NetProtocol → NetProtocols
register protocols protocol = record { entries = push protocols.entries protocol }

-- The loop of `NetDevice::isr`: the first queue of the type takes the data.
unfoldable pub enqueue : ProtocolType → ProtocolData → Link NetProtocol → Link NetProtocol
unfolding protocol_eq
enqueue t entry nil = nil
enqueue t entry (node protocol rest) =
    if protocol_eq protocol.protocol_type t
    then node (record protocol { input_head = protocol.input_head ++ entry ∷ [] }) rest
    else node protocol (enqueue t entry rest)

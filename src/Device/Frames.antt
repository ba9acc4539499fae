-- ===== src/Device/Frames.antt =====
-- Frames of src/devices/ethernet.rs between two devices: what one transmits, as the other reads it.
use rust_user_net.Base.{
  le→leb, ℕ, ◌+◌, ◌-◌, ◌/◌, ◌%◌, ◌≤◌, ◌≡◌, ◌∙◌, refl, ap, ap₂, List, [], ◌∷◌, ◌++◌, Option, none,
  some, Bool, true, false, not, ◌&&◌, Run, done, if◌then◌else◌, ltb, ◌||◌, length, take, drop,
  replicate, length-append, length-replicate, arith, append_assoc, take-append, drop-append,
  take-append_ge, take-all_ge, take-replicate, get_elem?-append,
}
use rust_user_net.Utils.Byte.{bytes_u16, of_bytes_u16, be_to_le_u16, le_to_be_u16, byte_swap_u16}
use rust_user_net.Net.{ProtocolType, protocol_from_u16, protocol_as_u16}
use rust_user_net.Device.Types.{NetDevice, DriverType, DriverData, bytes_eq, mac_of}
use rust_user_net.Device.Ethernet.{
  build_frame, read_data, eth_payload_max, eth_payload_min, eth_hdr_size, eth_frame_max,
  eth_addr_broadcast, byte_at,
}

-- The bytes of a header, with a type in the order of the host, in front of a body.
abbrev pub framed : List ℕ → List ℕ → ProtocolType → List ℕ → List ℕ
framed dst src t body = dst ++ (src ++ (bytes_u16 (le_to_be_u16 (protocol_as_u16 t)) ++ body))

-- The payload, padded to 46 bytes.
abbrev pub padded : List ℕ → List ℕ
padded payload = payload ++ replicate (eth_payload_min - length payload) 0

length-framed :
    (dst src : List ℕ) (t : ProtocolType) (body : List ℕ)
    → length dst ≡ 6
    → length src ≡ 6
    → length (framed dst src t body) ≡ 14 + length body
length-framed dst src t body hd hs = omega (
  arith,
  hd,
  hs,
  length-append dst (src ++ (bytes_u16 (le_to_be_u16 (protocol_as_u16 t)) ++ body)),
  length-append src (bytes_u16 (le_to_be_u16 (protocol_as_u16 t)) ++ body),
)

pub length-padded :
    (payload : List ℕ)
    → length (padded payload) ≡ length payload + (eth_payload_min - length payload)
length-padded payload = omega (
  arith,
  length-append payload (replicate (eth_payload_min - length payload) 0),
  length-replicate {A = ℕ} (eth_payload_min - length payload) 0,
)

header_fits :
    (hdr payload : List ℕ)
    → length hdr ≡ eth_hdr_size
    → length payload ≤ eth_payload_max
    → length hdr + length payload ≤ eth_frame_max
header_fits hdr payload hh hp = omega (arith, hh, hp)

pad_lem : (n : ℕ) → (if ltb n eth_payload_min then eth_payload_min - n else 0) ≡ eth_payload_min - n
pad_lem n = ground arith

frame_take :
    (hdr payload : List ℕ)
    → length hdr ≡ eth_hdr_size
    → length payload ≤ eth_payload_max
    → take
        (length hdr
          + length payload
          + (if ltb (length payload) eth_payload_min then eth_payload_min - length payload else 0))
        (hdr ++ (payload ++ replicate (eth_frame_max - (length hdr + length payload)) 0))
      ≡ hdr ++ padded payload
frame_take hdr payload hh hp =
    take-append_ge _ (length payload + (eth_payload_min - length payload)) hdr _
      (omega (arith, pad_lem (length payload)))
    ∙ ap (◌++◌ hdr) (
        take-append_ge _ (eth_payload_min - length payload) payload _ refl
        ∙ ap (◌++◌ payload) (take-replicate _ _ 0 (omega (arith, hh, hp))))

length-header :
    (dst src : List ℕ) (t : ℕ)
    → length dst ≡ 6
    → length src ≡ 6
    → length (dst ++ (src ++ bytes_u16 t)) ≡ eth_hdr_size
length-header dst src t hd hs =
    omega (arith, hd, hs, length-append dst (src ++ bytes_u16 t), length-append src (bytes_u16 t))

-- The frame of a payload that fits.
pub build_frame_lem :
    (device : NetDevice) (t : ProtocolType) (payload dst : List ℕ)
    → length dst ≡ 6
    → length (mac_of device) ≡ 6
    → length payload ≤ eth_payload_max
    → build_frame device t payload dst ≡ done (framed dst (mac_of device) t (padded payload))
unfolding build_frame
build_frame_lem device t payload dst hd hs hp =
    let h = length-header dst (mac_of device) (le_to_be_u16 (protocol_as_u16 t)) hd hs in
    rw
      (le→leb _ eth_frame_max (
        header_fits (dst ++ (mac_of device ++ bytes_u16 (le_to_be_u16 (protocol_as_u16 t)))) payload
          h hp))
      (ap done (
        frame_take (dst ++ (mac_of device ++ bytes_u16 (le_to_be_u16 (protocol_as_u16 t)))) payload
          h hp
        ∙ (append_assoc dst _ _ ∙ ap (◌++◌ dst) (append_assoc (mac_of device) _ _))))

-- A device on the TAP driver, with the frames that it will read.
abbrev pub with_frames : NetDevice → DriverData → List (List ℕ) → NetDevice
with_frames device driver frames = record device {
  driver_type = some DriverType.tap;
  driver_data = some (record driver { incoming = frames });
}

-- Whether a device takes frames for the address.
abbrev pub takes : NetDevice → List ℕ → Bool
takes device dst = bytes_eq (mac_of device) dst || bytes_eq eth_addr_broadcast dst

-- What `byte_at` reads.
abbrev byte_of : Option ℕ → ℕ
byte_of b = elim b [ none ↦ 0 | some b' ↦ b' ]

-- The bytes of the type.
abbrev type_bytes : ProtocolType → List ℕ
type_bytes t = bytes_u16 (le_to_be_u16 (protocol_as_u16 t))

module _ (dst src body z : List ℕ) (t : ProtocolType) (hd : length dst ≡ 6)
    (hs : length src ≡ 6) where
  framed-append : framed dst src t body ++ z ≡ dst ++ (src ++ (type_bytes t ++ (body ++ z)))
  framed-append = append_assoc dst _ z ∙ ap (◌++◌ dst) (append_assoc src _ z)

  take-framed : take 6 (framed dst src t body ++ z) ≡ dst
  take-framed = rw framed-append (take-append 6 dst _ hd)

  byte-framed :
      (i m : ℕ)
      → m ≡ i + 12
      → byte_at (framed dst src t body ++ z) m ≡ byte_at (type_bytes t ++ (body ++ z)) i
  byte-framed i m h = rw framed-append (
      ap byte_of (
        get_elem?-append 6 (i + 6) m dst _ hd (omega (arith, h))
        ∙ get_elem?-append 6 i (i + 6) src _ hs refl))

  drop-framed : drop 14 (framed dst src t body) ≡ body
  drop-framed = drop-append 6 8 14 dst _ hd refl ∙ drop-append 6 2 8 src _ hs refl

  size-framed : length (framed dst src t body) ≡ 14 + length body
  size-framed = length-framed dst src t body hd hs

type_of : ProtocolType → ProtocolType
unfolding protocol_from_u16 protocol_as_u16 be_to_le_u16 le_to_be_u16 byte_swap_u16
type_of t = protocol_from_u16 (
    be_to_le_u16 (
      of_bytes_u16 (le_to_be_u16 (protocol_as_u16 t) % 256)
        (le_to_be_u16 (protocol_as_u16 t) / 256 % 256)))

type_of_lem : (t : ProtocolType) → type_of t ≡ t
unfolding type_of protocol_from_u16 protocol_as_u16 be_to_le_u16 le_to_be_u16 byte_swap_u16
type_of_lem ProtocolType.arp = refl
type_of_lem ProtocolType.ip = refl
type_of_lem ProtocolType.unknown = refl

abbrev pub taken_if : {A : Type 0} → Bool → A → Option A
taken_if true a = some a
taken_if false a = none

-- The test of `read_data`, in its two forms.
taken_or_not :
    {A B : Type 0} (x y : Bool) (a : A) (b : B)
    → if◌then◌else◌ {A = Run (Option A × B)} (not x && not y) (done (none, b)) (done (some a, b))
      ≡ done (taken_if (x || y) a, b)
taken_or_not true y a b = refl
taken_or_not false true a b = refl
taken_or_not false false a b = refl

-- What is read of a frame with these fields.
pub read_data_lem :
    (reader : NetDevice) (driver : DriverData) (frames : List (List ℕ)) (t : ProtocolType)
    (dst src body : List ℕ)
    → length dst ≡ 6
    → length src ≡ 6
    → length body ≤ eth_payload_max
    → read_data (with_frames reader driver (framed dst src t body ∷ frames))
      ≡ done (taken_if (takes reader dst) (t, body, length body), with_frames reader driver frames)
unfolding read_data type_of
read_data_lem reader driver frames t dst src body hd hs hb =
    rw
      (
        take-all_ge eth_frame_max (framed dst src t body)
            (omega (arith, size-framed dst src body [] t hd hs, hb)),
        le→leb eth_hdr_size (length (framed dst src t body))
            (omega (arith, size-framed dst src body [] t hd hs)),
        take-framed dst src body (replicate (eth_frame_max - length (framed dst src t body)) 0) t hd
            hs,
        byte-framed dst src body (replicate (eth_frame_max - length (framed dst src t body)) 0) t hd
            hs 0 12 refl,
        byte-framed dst src body (replicate (eth_frame_max - length (framed dst src t body)) 0) t hd
            hs 1 13 refl,
        take-append (length (framed dst src t body)) (framed dst src t body)
            (replicate (eth_frame_max - length (framed dst src t body)) 0) refl,
        drop-framed dst src body [] t hd hs,
      )
      (taken_or_not _ _ _ _
        ∙ ap (λ u. done (taken_if (takes reader dst) u, with_frames reader driver frames))
            (ap₂ (λ u n. (u, body, n)) (type_of_lem t)
              (omega (arith, size-framed dst src body [] t hd hs))))

-- A frame that one device builds for a payload of at most 1500 bytes and a hardware address, as
-- another device reads it: with that address or for the broadcast address, the reader gets the type
-- and the payload, padded with zeros to 46 bytes, and their length; any other reader gets nothing.
-- In both cases the frame is no longer there to read.
pub read_data-build_frame :
    (sender reader : NetDevice) (driver : DriverData) (frames : List (List ℕ)) (t : ProtocolType)
    (payload dst : List ℕ)
    → length dst ≡ 6
    → length (mac_of sender) ≡ 6
    → length payload ≤ eth_payload_max
    → (frame : List ℕ) × (build_frame sender t payload dst ≡ done frame)
      × (read_data (with_frames reader driver (frame ∷ frames))
          ≡ done (
            taken_if (takes reader dst) (t, padded payload, length (padded payload)),
            with_frames reader driver frames,
          ))
read_data-build_frame sender reader driver frames t payload dst hd hs hp = (
  framed dst (mac_of sender) t (padded payload),
  build_frame_lem sender t payload dst hd hs hp,
  read_data_lem reader driver frames t dst (mac_of sender) (padded payload) hd hs
      (omega (arith, length-padded payload, hp)),
)

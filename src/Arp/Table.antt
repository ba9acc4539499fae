-- ===== src/Arp/Table.antt =====
-- `ArpTable` of src/protocols/arp.rs. The hash map is a function; a time is in microseconds.
pub mod Age
use rust_user_net.Base.{
  ℕ, ◌-◌, ◌/◌, ◌≤◌, ◌≡◌, ◌≢◌, List, Option, none, some, Run, done, panic, ltb, ◌==◌, if◌then◌else◌,
  arith,
}

abbrev pub arp_cache_timeout_secs : ℕ
arp_cache_timeout_secs = 14400

pub data ArpTableEntryState : Type 0 where
  incomplete resolved static : ArpTableEntryState

pub record ArpTableEntry : Type 0 where
  pub state : ArpTableEntryState
  pub proto_address : ℕ
  pub hw_address : List ℕ
  pub timestamp : ℕ

pub record ArpTable : Type 0 where
  pub entries : ℕ → Option ArpTableEntry

-- `ArpTable::new`.
unfoldable pub new_table : ArpTable
new_table = record { entries = λ ip. none }

abbrev pub insert : (ℕ → Option ArpTableEntry) → ℕ → ArpTableEntry → ℕ → Option ArpTableEntry
insert entries ip entry key = if key == ip then some entry else entries key

abbrev pub remove : (ℕ → Option ArpTableEntry) → ℕ → ℕ → Option ArpTableEntry
remove entries ip key = if key == ip then none else entries key

-- The test of an entry that is there; `elapsed` fails for a time that is still to come.
read_entry : ArpTable → ℕ → ℕ → ArpTableEntry → Run (Option (List ℕ) × ArpTable)
read_entry table now ip entry =
    if ltb now entry.timestamp
    then panic
    else if ltb arp_cache_timeout_secs ((now - entry.timestamp) / 1000000)
    then done (none, record { entries = remove table.entries ip })
    else done (some entry.hw_address, table)

unfoldable pub get : ArpTable → ℕ → ℕ → Run (Option (List ℕ) × ArpTable)
unfolding read_entry
get table now ip = elim (table.entries ip) [
  | none ↦ done (none, table)
  | some entry ↦ read_entry table now ip entry
]

unfoldable pub update : ArpTable → ℕ → ℕ → List ℕ → ArpTable
update table now ip hw_address = record {
  entries =
      insert (elim (table.entries ip) [ none ↦ table.entries | some _ ↦ remove table.entries ip ])
        ip
        (record {
          state = ArpTableEntryState.resolved;
          proto_address = ip;
          hw_address = hw_address;
          timestamp = now;
        });
}

-- What is looked up, by age in whole seconds: up to 14400 of them the table answers with what was put
-- in and keeps it; from 14401 on it answers with nothing, and the entry is gone.
pub get-update :
    (table : ArpTable) (then_ now ip : ℕ) (hw : List ℕ)
    → then_ ≤ now
    → (get (update table then_ ip hw) now ip ≡ (
        if ltb arp_cache_timeout_secs ((now - then_) / 1000000)
        then done (none, record { entries = remove (update table then_ ip hw).entries ip })
        else done (some hw, update table then_ ip hw)))
unfolding get update
get-update table then_ now ip hw h = ground arith

-- An update of one address does not change what is stored for another.
pub entries-update_ne :
    (table : ArpTable) (now ip other : ℕ) (hw : List ℕ)
    → other ≢ ip
    → (update table now ip hw).entries other ≡ table.entries other
unfolding update
entries-update_ne table now ip other hw h = ground arith

-- ===== src/Arp/Table/Age.antt =====
-- How long an entry of `ArpTable` of src/protocols/arp.rs is answered with, among updates of others.
use rust_user_net.Base.{
  ℕ, ◌+◌, ◌-◌, ◌*◌, ◌/◌, ◌≤◌, ◌≡◌, ◌≢◌, ◌∙◌, refl, List, [], ◌∷◌, All, none, some, true, false,
  Bool-cases, inl, inr, done, ltb, if◌then◌else◌, arith, ge→ltb, eq→==, ne→==,
}
use rust_user_net.Arp.Table.{
  ArpTable, ArpTableEntry, ArpTableEntryState, get, update, remove, entries-update_ne,
}

-- An update that the table is given.
pub record Learned : Type 0 where
  pub at : ℕ
  pub address : ℕ
  pub hw_address : List ℕ

abbrev pub updates : ArpTable → List Learned → ArpTable
updates table [] = table
updates table (l ∷ ls) = updates (update table l.at l.address l.hw_address) ls

entries-updates_ne :
    (table : ArpTable) (ls : List Learned) (ip : ℕ)
    → All (λ l. ip ≢ l.address) ls
    → (updates table ls).entries ip ≡ table.entries ip
entries-updates_ne table [] ip h = refl
entries-updates_ne table (l ∷ ls) ip h =
    entries-updates_ne (update table l.at l.address l.hw_address) ls ip h.1
    ∙ entries-update_ne table l.at l.address ip l.hw_address h.0

abbrev pub entry_of : ℕ → ℕ → List ℕ → ArpTableEntry
entry_of then_ ip hw = record {
  state = ArpTableEntryState.resolved;
  proto_address = ip;
  hw_address = hw;
  timestamp = then_;
}

entries-update :
    (table : ArpTable) (then_ ip : ℕ) (hw : List ℕ)
    → (update table then_ ip hw).entries ip ≡ some (entry_of then_ ip hw)
unfolding update
entries-update table then_ ip hw = ground arith

young :
    (then_ now : ℕ)
    → ltb now (then_ + 14401 * 1000000) ≡ true
    → ltb 14400 ((now - then_) / 1000000) ≡ false
young then_ now e = ground arith

old :
    (then_ now : ℕ)
    → ltb now (then_ + 14401 * 1000000) ≡ false
    → ltb 14400 ((now - then_) / 1000000) ≡ true
old then_ now e = ground arith

get-entry :
    (table : ArpTable) (then_ now ip other : ℕ) (hw : List ℕ)
    → table.entries ip ≡ some (entry_of then_ ip hw)
    → then_ ≤ now
    → other ≢ ip
    → (table' : ArpTable) × (get table now ip
        ≡ done ((if ltb now (then_ + 14401 * 1000000) then some hw else none), table'))
      × (table'.entries ip
          ≡ (if ltb now (then_ + 14401 * 1000000) then some (entry_of then_ ip hw) else none))
      × (table'.entries other ≡ table.entries other)
unfolding get
get-entry table then_ now ip other hw there later ne =
    elim (Bool-cases (ltb now (then_ + 14401 * 1000000))) [
      | inl e ↦ (
        table,
        rw (get, there, ge→ltb now then_ later, young then_ now e, e) refl,
        rw e there,
        refl,
      )
      | inr e ↦ (
        record { entries = remove table.entries ip },
        rw (get, there, ge→ltb now then_ later, old then_ now e, e) refl,
        rw (e, eq→== ip ip refl) refl,
        rw (ne→== other ip ne) refl,
      )
    ]

-- After an update of an address and updates of other addresses, whenever they are made, the table
-- answers for the address with what was put in as long as less than 14401 seconds have passed since,
-- and keeps the entry; later it answers with nothing and drops the entry. What it holds for any other
-- address stays.
pub get-updates :
    (table : ArpTable) (then_ now ip other : ℕ) (hw : List ℕ) (ls : List Learned)
    → All (λ l. ip ≢ l.address) ls
    → then_ ≤ now
    → other ≢ ip
    → (table' : ArpTable) × (get (updates (update table then_ ip hw) ls) now ip
        ≡ done ((if ltb now (then_ + 14401 * 1000000) then some hw else none), table'))
      × (table'.entries ip
          ≡ (if ltb now (then_ + 14401 * 1000000) then some (entry_of then_ ip hw) else none))
      × (table'.entries other ≡ (updates (update table then_ ip hw) ls).entries other)
get-updates table then_ now ip other hw ls apart later ne =
    get-entry (updates (update table then_ ip hw) ls) then_ now ip other hw
      (entries-updates_ne (update table then_ ip hw) ls ip apart ∙ entries-update table then_ ip hw)
      later ne

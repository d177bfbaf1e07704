-- ===== src/Models/Tally.antt =====
-- The bounded tally of keys that have not earned a connection yet: pending_index, pending_remove and
-- pending_bump, which stand alike in src/core/protocol/ble/ble_registry.c and
-- src/core/protocol/bredr/bredr_registry.c. The capacity is an argument; the key is the access
-- address there and the lower address part here. The array with its count is a list.
pub mod Laws
use supertooth.Base.{
  ℕ, ◌+◌, ◌-◌, ◌^◌, Option, none, some, List, [], ◌∷◌, ◌++◌, length, get_or, set, ltb, leb,
  if◌then◌else◌, u64,
}
use supertooth.Base.Keys.{find_key}
use supertooth.Base.Keys.Remove.{swap_remove}

pub record Pending : Type 0 where
  pub key : ℕ
  pub count : ℕ
  pub seq : ℕ

pub record Tally : Type 0 where
  pub pending : List Pending
  pub pending_seq : ℕ

abbrev pub key_of : Pending → ℕ
key_of p = p.key

abbrev pub no_pending : Pending
no_pending = record { key = 0; count = 0; seq = 0 }

abbrev pub no_tally : Tally
no_tally = record { pending = []; pending_seq = 0 }

unfoldable pub pending_index : ℕ → List Pending → Option ℕ
unfolding find_key
pending_index key pending = find_key key_of key pending

unfoldable pub pending_remove : ℕ → Tally → Tally
unfolding swap_remove
pending_remove idx r =
    if leb (length r.pending) idx
    then r
    else record r { pending = swap_remove key_of no_pending idx r.pending }

-- The loop that looks for the row that was bumped longest ago, at row `i`.
unfoldable pub victim_loop : ℕ → List Pending → ℕ → ℕ → ℕ
victim_loop i [] victim vseq = victim
victim_loop i (p ∷ ps) victim vseq =
    victim_loop (i + 1) ps (if ltb p.seq vseq then i else victim)
      (if ltb p.seq vseq then p.seq else vseq)

unfoldable pub pending_victim : List Pending → ℕ
unfolding victim_loop
pending_victim pending = victim_loop 0 pending 0 (2 ^ 64 - 1)

unfoldable pub make_room : ℕ → Tally → Tally
unfolding pending_victim pending_remove
make_room room r =
    if leb room (length r.pending) then pending_remove (pending_victim r.pending) r else r

-- A key that is there is counted, and is now the latest.
unfoldable pub bump_at : ℕ → Tally → ℕ × Tally
bump_at idx r =
    let p = get_or r.pending idx no_pending in
    let count = u64 (p.count + 1) in
    let seq = u64 (r.pending_seq + 1) in
    (
      count,
      record {
        pending = set r.pending idx (record p { count = count; seq = seq });
        pending_seq = seq;
      },
    )

unfoldable pub add_pending : ℕ → Tally → ℕ × Tally
add_pending key r =
    let seq = u64 (r.pending_seq + 1) in
    (
      1,
      record {
        pending = r.pending ++ record { key = key; count = 1; seq = seq } ∷ [];
        pending_seq = seq;
      },
    )

-- The new count of the key, and the tally.
unfoldable pub pending_bump : ℕ → ℕ → Tally → ℕ × Tally
unfolding pending_index bump_at make_room add_pending
pending_bump room key r = elim (pending_index key r.pending) [
  | some idx ↦ bump_at idx r
  | none ↦ add_pending key (make_room room r)
]

-- A key that has earned its connection leaves the tally.
unfoldable pub pending_drop : ℕ → Tally → Tally
unfolding pending_index pending_remove
pending_drop key r = elim (pending_index key r.pending) [
  | some idx ↦ pending_remove idx r
  | none ↦ r
]

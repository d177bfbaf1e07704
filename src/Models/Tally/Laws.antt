-- ===== src/Models/Tally/Laws.antt =====
-- What every tally keeps: no key stands twice, and there is room.
use supertooth.Base.{
  ℕ, ◌+◌, ◌-◌, ◌^◌, ◌<◌, ◌≤◌, ◌≡◌, inl, inr, refl, sym, subst, arith, none, some, List, [], ◌∷◌,
  ◌++◌, length, get_or, set, length-append, length-set, ltb, leb, if◌then◌else◌, false, Bool-cases,
  u64,
}
use supertooth.Base.Keys.{
  Fresh, Distinct, Apart, Distinct-snoc, Apart-snoc, keys, keys-snoc, keys-set_same,
  find_key-Search, found, missing, Search, find_key,
}
use supertooth.Base.Keys.Remove.{
  swap_remove, length-swap_remove, swap_remove-Distinct, swap_remove-Fresh, swap_remove-Apart,
  swap_remove-gone,
}
use supertooth.Models.Tally.{
  Pending, Tally, key_of, no_pending, pending_index, pending_remove, victim_loop, pending_victim,
  make_room, bump_at, add_pending, pending_bump, pending_drop,
}

abbrev pub pending_keys : Tally → List ℕ
pending_keys r = keys key_of r.pending

-- The keys of a tally of at most `room` rows are distinct, and none of them is in `taken`.
pub record TallyIsValid (room : ℕ) (taken : List ℕ) (r : Tally) : Type 0 where
  pub distinct : Distinct (pending_keys r)
  pub apart : Apart (pending_keys r) taken
  pub bound : length r.pending ≤ room

victim_loop-lt :
    (i n : ℕ) (ps : List Pending) (victim vseq : ℕ)
    → victim < n
    → i + length ps ≤ n
    → victim_loop i ps victim vseq < n
unfolding victim_loop
victim_loop-lt i n [] victim vseq h k = h
victim_loop-lt i n (p ∷ ps) victim vseq h k =
    victim_loop-lt (i + 1) n ps (if ltb p.seq vseq then i else victim)
      (if ltb p.seq vseq then p.seq else vseq) (ground arith) (omega arith)

pending_victim-lt : (ps : List Pending) → 0 < length ps → pending_victim ps < length ps
unfolding pending_victim
pending_victim-lt ps h = victim_loop-lt 0 (length ps) ps 0 (2 ^ 64 - 1) h (omega arith)

remove_inside :
    (idx : ℕ) (r : Tally)
    → idx < length r.pending
    → pending_remove idx r ≡ record r { pending = swap_remove key_of no_pending idx r.pending }
unfolding pending_remove
remove_inside idx r h = let inside : leb (length r.pending) idx ≡ false = ground arith in rw inside

length-remove :
    (idx : ℕ) (r : Tally)
    → idx < length r.pending
    → length (pending_remove idx r).pending ≡ length r.pending - 1
length-remove idx r h =
    rw (remove_inside idx r h) (length-swap_remove key_of no_pending idx r.pending)

module _ (room : ℕ) (taken : List ℕ) (r : Tally) (v : TallyIsValid room taken r) where
  remove-TallyIsValid :
      (idx : ℕ) → idx < length r.pending → TallyIsValid room taken (pending_remove idx r)
  remove-TallyIsValid idx h =
      subst (TallyIsValid room taken) (sym (remove_inside idx r h)) (record {
        distinct = swap_remove-Distinct key_of no_pending idx r.pending h v.distinct;
        apart = swap_remove-Apart key_of no_pending idx r.pending h taken v.apart;
        bound = omega (arith, v.bound, length-swap_remove key_of no_pending idx r.pending);
      })

  remove-Fresh :
      (idx key : ℕ)
      → idx < length r.pending
      → Fresh key (pending_keys r)
      → Fresh key (pending_keys (pending_remove idx r))
  remove-Fresh idx key h f =
      subst (λ t. Fresh key (pending_keys t)) (sym (remove_inside idx r h))
        (swap_remove-Fresh key_of no_pending idx r.pending h key f)

  -- What stands after room is made.
  roomy :
      (key : ℕ)
      → 0 < room
      → Fresh key (pending_keys r)
      → TallyIsValid room taken (make_room room r)
        × (length (make_room room r).pending < room)
        × Fresh key (pending_keys (make_room room r))
  unfolding make_room
  roomy key h f = elim (Bool-cases (leb room (length r.pending))) [
    | inl full ↦
        let idx = pending_victim r.pending in
        let inside : idx < length r.pending = pending_victim-lt r.pending (ground arith) in
        rw full (
          remove-TallyIsValid idx inside,
          omega (arith, length-remove idx r inside, v.bound),
          remove-Fresh idx key inside f,
        )
    | inr free ↦ rw free (v, ground arith, f)
  ]

  bump_at-TallyIsValid :
      (idx : ℕ) → idx < length r.pending → TallyIsValid room taken (bump_at idx r).1
  unfolding bump_at
  bump_at-TallyIsValid idx h =
      let row = get_or r.pending idx no_pending in
      let row' = record row { count = u64 (row.count + 1); seq = u64 (r.pending_seq + 1) } in
      let same : keys key_of (set r.pending idx row') ≡ pending_keys r =
        keys-set_same key_of idx row' no_pending r.pending refl in
      record {
        distinct = subst Distinct (sym same) v.distinct;
        apart = subst (λ t. Apart t taken) (sym same) v.apart;
        bound = omega (arith, v.bound, length-set r.pending idx row');
      }

add_pending-TallyIsValid :
    (room : ℕ) (taken : List ℕ) (r : Tally) (key : ℕ)
    → TallyIsValid room taken r
    → length r.pending < room
    → Fresh key (pending_keys r)
    → Fresh key taken
    → TallyIsValid room taken (add_pending key r).1
unfolding add_pending
add_pending-TallyIsValid room taken r key v h f g =
    let row : Pending = record { key = key; count = 1; seq = u64 (r.pending_seq + 1) } in
    let more : keys key_of (r.pending ++ row ∷ []) ≡ pending_keys r ++ key ∷ [] =
      keys-snoc key_of row r.pending in
    record {
      distinct = subst Distinct (sym more) (Distinct-snoc key (pending_keys r) f v.distinct);
      apart =
          subst (λ t. Apart t taken) (sym more) (Apart-snoc key (pending_keys r) taken v.apart g);
      bound = omega (arith, length-append r.pending (row ∷ []));
    }

bumped :
    (room key : ℕ) (r : Tally) (i : ℕ)
    → find_key key_of key r.pending ≡ some i
    → pending_bump room key r ≡ bump_at i r
unfolding pending_bump pending_index
bumped room key r i e = ground (arith, e)

new :
    (room key : ℕ) (r : Tally)
    → find_key key_of key r.pending ≡ none
    → pending_bump room key r ≡ add_pending key (make_room room r)
unfolding pending_bump pending_index
new room key r e = ground (arith, e)

drops :
    (key : ℕ) (r : Tally) (i : ℕ)
    → find_key key_of key r.pending ≡ some i
    → pending_drop key r ≡ pending_remove i r
unfolding pending_drop pending_index
drops key r i e = ground (arith, e)

keeps : (key : ℕ) (r : Tally) → find_key key_of key r.pending ≡ none → pending_drop key r ≡ r
unfolding pending_drop pending_index
keeps key r e = ground (arith, e)

-- To count a key that has no connection keeps a tally valid.
pub pending_bump-TallyIsValid :
    (room : ℕ) (taken : List ℕ) (key : ℕ) (r : Tally)
    → 0 < room
    → TallyIsValid room taken r
    → Fresh key taken
    → TallyIsValid room taken (pending_bump room key r).1
pending_bump-TallyIsValid room taken key r h v g =
    counted (find_key-Search key_of key no_pending r.pending)
  where
    counted :
        Search key_of key no_pending r.pending → TallyIsValid room taken (pending_bump room key r).1
    counted (found i e inside same) =
        rw (bumped room key r i e) (bump_at-TallyIsValid room taken r v i inside)
    counted (missing e f) =
        let (w, free, fresh) = roomy room taken r v key h f in
        rw (new room key r e)
          (add_pending-TallyIsValid room taken (make_room room r) key w free fresh g)

-- A key that is dropped is gone, and the tally stays valid.
pub pending_drop-TallyIsValid :
    (room : ℕ) (taken : List ℕ) (key : ℕ) (r : Tally)
    → TallyIsValid room taken r
    → TallyIsValid room taken (pending_drop key r) × Fresh key (pending_keys (pending_drop key r))
pending_drop-TallyIsValid room taken key r v =
    dropped (find_key-Search key_of key no_pending r.pending)
  where
    dropped :
        Search key_of key no_pending r.pending
        → TallyIsValid room taken (pending_drop key r)
          × Fresh key (pending_keys (pending_drop key r))
    dropped (found i e inside same) = rw (drops key r i e) (
      remove-TallyIsValid room taken r v i inside,
      subst (λ t. Fresh key (pending_keys t)) (sym (remove_inside i r inside))
          (swap_remove-gone key_of no_pending i r.pending inside key v.distinct same),
    )
    dropped (missing e f) = rw (keeps key r e) (v, f)

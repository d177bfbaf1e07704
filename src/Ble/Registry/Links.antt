-- ===== src/Ble/Registry/Links.antt =====
-- What every link keeps, and what it learns from the PDUs of its connection.
use supertooth.Base.{
  ℕ, ◌^◌, ◌<◌, ◌≤◌, ◌≡◌, inl, inr, arith, bit_and, true, false, Option, none, some, List, [], ◌∷◌,
  ◌++◌, Bytes, length, drop, length-append, length-drop, ltb, ◌==◌, Bool-cases,
}
use supertooth.Base.Masks.{and-le, mask_ones}
use supertooth.Base.Keys.{Fresh, Distinct, Distinct-snoc}
use supertooth.Ble.CrcInit.{Tables, reverse_init_len2}
use supertooth.Ble.CrcInit.Recover.{Reached, reverse_init_len2-tables}
use supertooth.Ble.Registry.{ConnectionState, collecting, confirmed, Link, max_candidates}
use supertooth.Ble.Registry.Gate.{
  has_candidate, add_candidate, link_add_candidate, link_confirm, crc_fits, first_fit,
  count_accepted, settle, gate_link,
}

-- Numbers of 24 bits.
abbrev pub AllSmall : List ℕ → Type 0
AllSmall [] = Unit {0}
AllSmall (c ∷ cs) = (c < 2 ^ 24) × AllSmall cs

-- At most four initial values are held, all different and of 24 bits.
pub record CandidatesAreValid (cs : List ℕ) : Type 0 where
  pub small : AllSmall cs
  pub distinct : Distinct cs
  pub bound : length cs ≤ 4

pub record LinkIsValid (link : Link) : Type 0 where
  pub candidates_valid : CandidatesAreValid link.candidates
  pub crc_init_bound : link.crc_init < 2 ^ 24

AllSmall-snoc : (c : ℕ) (cs : List ℕ) → c < 2 ^ 24 → AllSmall cs → AllSmall (cs ++ c ∷ [])
AllSmall-snoc c [] h a = (h, tt)
AllSmall-snoc c (x ∷ cs) h a = (a.0, AllSmall-snoc c cs h a.1)

drop_one : (cs : List ℕ) → CandidatesAreValid cs → CandidatesAreValid (drop 1 cs)
drop_one [] v = v
drop_one (c ∷ cs) v = record {
  small = v.small.1;
  distinct = v.distinct.1;
  bound = omega (arith, v.bound);
}

Fresh-has : (c : ℕ) (cs : List ℕ) → has_candidate c cs ≡ false → Fresh c cs
unfolding has_candidate
Fresh-has c [] h = tt
Fresh-has c (x ∷ cs) h = (ground arith, Fresh-has c cs (ground arith))

Fresh-drop : (c : ℕ) (cs : List ℕ) → Fresh c cs → Fresh c (drop 1 cs)
Fresh-drop c [] f = tt
Fresh-drop c (x ∷ cs) f = f.1

snoc_valid :
    (c : ℕ) (cs : List ℕ)
    → c < 2 ^ 24
    → Fresh c cs
    → length cs < 4
    → CandidatesAreValid cs
    → CandidatesAreValid (cs ++ c ∷ [])
snoc_valid c cs h f room v = record {
  small = AllSmall-snoc c cs h v.small;
  distinct = Distinct-snoc c cs f v.distinct;
  bound = omega (arith, length-append cs (c ∷ []));
}

add_candidate_valid :
    (c : ℕ) (cs : List ℕ)
    → c < 2 ^ 24
    → CandidatesAreValid cs
    → CandidatesAreValid (add_candidate c cs)
unfolding add_candidate
add_candidate_valid c cs h v = elim (Bool-cases (has_candidate c cs)) [
  | inl old ↦ rw old v
  | inr new ↦
      let f = Fresh-has c cs new in
      rw new (elim (Bool-cases (ltb (length cs) max_candidates)) [
        | inl room ↦ rw room (snoc_valid c cs h f (ground arith) v)
        | inr full ↦ rw full (
            snoc_valid c (drop 1 cs) h (Fresh-drop c cs f)
              (omega (arith, length-drop 1 cs, v.bound)) (drop_one cs v))
      ])
]

has_candidate-snoc : (c : ℕ) (cs : List ℕ) → has_candidate c (cs ++ c ∷ []) ≡ true
unfolding has_candidate
has_candidate-snoc c [] = ground arith
has_candidate-snoc c (x ∷ cs) = ground (arith, has_candidate-snoc c cs)

-- A candidate that is added is there.
pub has_candidate-add_candidate :
    (c : ℕ) (cs : List ℕ) → has_candidate c (add_candidate c cs) ≡ true
unfolding add_candidate
has_candidate-add_candidate c cs = elim (Bool-cases (has_candidate c cs)) [
  | inl old ↦ rw old old
  | inr new ↦ rw new (elim (Bool-cases (ltb (length cs) max_candidates)) [
    | inl room ↦ rw room (has_candidate-snoc c cs)
    | inr full ↦ rw full (has_candidate-snoc c (drop 1 cs))
  ])
]

masked-lt : (c : ℕ) → bit_and c 0xffffff < 2 ^ 24
masked-lt c = omega (arith, and-le c 0xffffff)

pub mask_small : (c : ℕ) → c < 2 ^ 24 → bit_and c 0xffffff ≡ c
mask_small c h = omega (arith, mask_ones 24 c)

pub link_add_candidate-LinkIsValid :
    (link : Link) (c : ℕ) → LinkIsValid link → LinkIsValid (link_add_candidate link c)
unfolding link_add_candidate
link_add_candidate-LinkIsValid link c v = record {
  candidates_valid =
      add_candidate_valid (bit_and c 0xffffff) link.candidates (masked-lt c) v.candidates_valid;
  crc_init_bound = v.crc_init_bound;
}

pub link_confirm-LinkIsValid : (link : Link) (c : ℕ) → LinkIsValid (link_confirm link c)
unfolding link_confirm
link_confirm-LinkIsValid link c = record {
  candidates_valid = record { small = tt; distinct = tt; bound = omega arith };
  crc_init_bound = masked-lt c;
}

settle-LinkIsValid :
    (used : Option ℕ) (link : Link) → LinkIsValid link → LinkIsValid (settle used link).1
unfolding settle count_accepted
settle-LinkIsValid none link v = v
settle-LinkIsValid (some used) link v =
    let w = link_confirm-LinkIsValid link used in
    record { candidates_valid = w.candidates_valid; crc_init_bound = w.crc_init_bound }

pub gate_link-LinkIsValid :
    (s : ConnectionState) (link : Link) (pdu : Bytes) (n rx_crc : ℕ) (t : Tables)
    → LinkIsValid link
    → LinkIsValid (gate_link s link pdu n rx_crc t).1
unfolding gate_link count_accepted
gate_link-LinkIsValid confirmed link pdu n rx_crc t v =
    elim (Bool-cases (crc_fits pdu n rx_crc link.crc_init)) [
      | inl fits ↦
          rw fits
            (record { candidates_valid = v.candidates_valid; crc_init_bound = v.crc_init_bound })
      | inr fails ↦ rw fails v
    ]
gate_link-LinkIsValid collecting link pdu n rx_crc t v = elim (Bool-cases (n == 2)) [
  | inl empty ↦ rw empty (link_add_candidate-LinkIsValid link (reverse_init_len2 t pdu rx_crc).0 v)
  | inr full ↦ rw full (settle-LinkIsValid (first_fit pdu n rx_crc link.candidates) link v)
]

-- The statics stay those of a program that has built them, or become so.
pub gate_link-Reached :
    (s : ConnectionState) (link : Link) (pdu : Bytes) (n rx_crc : ℕ) (t : Tables)
    → Reached t
    → Reached (gate_link s link pdu n rx_crc t).2
unfolding gate_link
gate_link-Reached confirmed link pdu n rx_crc t h =
    elim (Bool-cases (crc_fits pdu n rx_crc link.crc_init)) [
      | inl fits ↦ rw fits h
      | inr fails ↦ rw fails h
    ]
gate_link-Reached collecting link pdu n rx_crc t h = elim (Bool-cases (n == 2)) [
  | inl empty ↦ rw empty (inr (reverse_init_len2-tables t pdu rx_crc h))
  | inr full ↦ rw full h
]

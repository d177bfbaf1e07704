-- ===== src/Ble/Registry/Victim.antt =====
-- Which connection is given up when the table of src/core/protocol/ble/ble_registry.c is full.
use supertooth.Base.{
  ℕ, zero, suc, ◌+◌, ◌-◌, ◌^◌, ◌<◌, ◌≤◌, ◌≡◌, ◌⊎◌, inl, inr, refl, sym, ap, subst, ◌∙◌, arith, Bool,
  true, false, ◌||◌, not, List, [], ◌∷◌, length, get_or, ltb, ◌==◌, if◌then◌else◌, Bool-cases, u32,
  flag,
}
use supertooth.Ble.Registry.{
  ConnectionState, collecting, confirmed, Link, Connection, no_connection,
}
use supertooth.Ble.Registry.Table.{Best, is_better, weigh, weigh_loop, conn_victim_index}

-- Three numbers are compared one after the other.
abbrev lex_le : ℕ → ℕ → ℕ → ℕ → ℕ → ℕ → Bool
lex_le a b c a' b' c' =
    if ltb a a'
    then true
    else if ltb a' a
    then false
    else if ltb b b'
    then true
    else if ltb b' b
    then false
    else not (ltb c' c)

abbrev has_cand : Link → ℕ
has_cand e = flag (ltb 0 (length e.candidates))

-- A connection has less to lose: no candidates before some, then fewer packets, then longer unused.
abbrev pub NotAfter : Link → Link → Type 0
NotAfter e e' =
    lex_le (has_cand e) (u32 e.packets_seen) e.last_used_seq (has_cand e') (u32 e'.packets_seen)
      e'.last_used_seq
    ≡ true

-- The clock of uses has not come to its last value.
abbrev pub AllUsed : List Connection → Type 0
AllUsed [] = Unit {0}
AllUsed (c ∷ cs) = (c.link.last_used_seq < 2 ^ 64 - 1) × AllUsed cs

-- The locals are at least as good as a link.
abbrev Covers : Best → Link → Type 0
Covers w e =
    (w.best_seq < 2 ^ 64 - 1)
    × (lex_le w.best_has_cand w.best_pkts w.best_seq (has_cand e) (u32 e.packets_seen)
          e.last_used_seq
        ≡ true)

-- The locals before and after.
abbrev Improves : Best → Best → Type 0
Improves v w =
    v.best_seq < 2 ^ 64 - 1
    → (w.best_seq < 2 ^ 64 - 1)
      × (lex_le w.best_has_cand w.best_pkts w.best_seq v.best_has_cand v.best_pkts v.best_seq
          ≡ true)

abbrev BestIsValid : Best → Type 0
BestIsValid v = (v.best_has_cand ≤ 1) × (v.best_seq ≤ 2 ^ 64 - 1)

weigh-Improves :
    (s : ConnectionState) (i : ℕ) (e : Link) (v : Best)
    → BestIsValid v
    → e.last_used_seq < 2 ^ 64 - 1
    → Improves v (weigh s i e v)
unfolding weigh is_better
weigh-Improves confirmed i e v b h = λ k. (k, ground arith)
weigh-Improves collecting i e v b h = λ k. ground arith

weigh-Covers :
    (i : ℕ) (e : Link) (v : Best)
    → BestIsValid v
    → e.last_used_seq < 2 ^ 64 - 1
    → Covers (weigh collecting i e v) e
unfolding weigh is_better
weigh-Covers i e v b h = ground arith

weigh-BestIsValid :
    (s : ConnectionState) (i : ℕ) (e : Link) (v : Best)
    → BestIsValid v
    → e.last_used_seq < 2 ^ 64 - 1
    → BestIsValid (weigh s i e v)
unfolding weigh
weigh-BestIsValid confirmed i e v b h = b
weigh-BestIsValid collecting i e v b h = ground arith

lex_trans :
    (a b c a' b' c' a'' b'' c'' : ℕ)
    → lex_le a b c a' b' c' ≡ true
    → lex_le a' b' c' a'' b'' c'' ≡ true
    → lex_le a b c a'' b'' c'' ≡ true
lex_trans a b c a' b' c' a'' b'' c'' h k = ground arith

-- The locals stand for a link.
record StandsFor (w : Best) (e : Link) : Type 0 where
  is_open : e.state ≡ collecting
  seq_is : w.best_seq ≡ e.last_used_seq
  pkts_is : w.best_pkts ≡ u32 e.packets_seen
  cand_is : w.best_has_cand ≡ has_cand e

abbrev link_at : List Connection → ℕ → Link
link_at cs j = (get_or cs j no_connection).link

-- Where the locals come from.
data Picked (i : ℕ) (cs : List Connection) (v w : Best) : Type 0 where
  kept : w ≡ v → Picked i cs v w
  picked : (j : ℕ) → j < length cs → w.best ≡ i + j → StandsFor w (link_at cs j) → Picked i cs v w

weigh-Picked :
    (s : ConnectionState) (i : ℕ) (e : Link) (v : Best)
    → e.state ≡ s
    → (weigh s i e v ≡ v) ⊎ (((weigh s i e v).best ≡ i) × StandsFor (weigh s i e v) e)
unfolding weigh
weigh-Picked confirmed i e v h = inl refl
weigh-Picked collecting i e v h = elim (Bool-cases (v.best_seq == 2 ^ 64 - 1 || is_better e v)) [
  | inl better ↦
      rw better (inr (refl, record { is_open = h; seq_is = refl; pkts_is = refl; cand_is = refl }))
  | inr worse ↦ rw worse (inl refl)
]

shift_picked :
    (i : ℕ) (c : Connection) (cs : List Connection) (v v' w : Best)
    → (v' ≡ v) ⊎ ((v'.best ≡ i) × StandsFor v' c.link)
    → Picked (i + 1) cs v' w
    → Picked i (c ∷ cs) v w
shift_picked i c cs v v' w step (picked j inside at_j s) =
    picked (suc j) (omega arith) (omega (arith, at_j)) s
shift_picked i c cs v v' w (inl same) (kept e) = kept (e ∙ same)
shift_picked i c cs v v' w (inr (here, s)) (kept e) =
    picked 0 (omega arith) (omega (arith, ap (λ b. b.best) e, here))
      (subst (λ b. StandsFor b c.link) (sym e) s)

weigh_loop-Picked : (i : ℕ) (cs : List Connection) (v : Best) → Picked i cs v (weigh_loop i cs v)
unfolding weigh_loop
weigh_loop-Picked i [] v = kept refl
weigh_loop-Picked i (c ∷ cs) v =
    shift_picked i c cs v (weigh c.link.state i c.link v) _
      (weigh-Picked c.link.state i c.link v refl)
      (weigh_loop-Picked (i + 1) cs (weigh c.link.state i c.link v))

weigh_loop-Improves :
    (i : ℕ) (cs : List Connection) (v : Best)
    → BestIsValid v
    → AllUsed cs
    → Improves v (weigh_loop i cs v)
unfolding weigh_loop
weigh_loop-Improves i [] v b u = λ k. (k, ground arith)
weigh_loop-Improves i (c ∷ cs) v b u = λ k.
    let v' = weigh c.link.state i c.link v in
    let w = weigh_loop (i + 1) cs v' in
    let (k', le) = weigh-Improves c.link.state i c.link v b u.0 k in
    let (k'', le') =
      weigh_loop-Improves (i + 1) cs v' (weigh-BestIsValid c.link.state i c.link v b u.0) u.1 k' in
    (
      k'',
      lex_trans w.best_has_cand w.best_pkts w.best_seq v'.best_has_cand v'.best_pkts v'.best_seq
          v.best_has_cand v.best_pkts v.best_seq le' le,
    )

weigh_loop-Covers :
    (i j : ℕ) (cs : List Connection) (v : Best)
    → BestIsValid v
    → AllUsed cs
    → j < length cs
    → (link_at cs j).state ≡ collecting
    → Covers (weigh_loop i cs v) (link_at cs j)
unfolding weigh_loop
weigh_loop-Covers i j [] v b u h e = absurd (omega arith)
weigh_loop-Covers i zero (c ∷ cs) v b u h e =
    let v' = weigh c.link.state i c.link v in
    let w = weigh_loop (i + 1) cs v' in
    let covers : Covers v' c.link =
      subst (λ s. Covers (weigh s i c.link v) c.link) (sym e) (weigh-Covers i c.link v b u.0) in
    let (k, le) =
      weigh_loop-Improves (i + 1) cs v' (weigh-BestIsValid c.link.state i c.link v b u.0) u.1
        covers.0 in
    (
      k,
      lex_trans w.best_has_cand w.best_pkts w.best_seq v'.best_has_cand v'.best_pkts v'.best_seq
          (has_cand c.link) (u32 c.link.packets_seen) c.link.last_used_seq le covers.1,
    )
weigh_loop-Covers i (suc j) (c ∷ cs) v b u h e =
    weigh_loop-Covers (i + 1) j cs (weigh c.link.state i c.link v)
      (weigh-BestIsValid c.link.state i c.link v b u.0) u.1 (omega arith) e

abbrev first_best : Best
first_best = record { best = 0; best_seq = 2 ^ 64 - 1; best_pkts = 0; best_has_cand = 1 }

-- A confirmed connection is spared: while no use has the last value of the clock of uses, if the
-- table has a connection that is not confirmed, such a one is given up, and no other that is not confirmed has less to lose. One without candidates has less to lose
-- than one with some, then one with fewer packets, then one that was used longer ago.
pub conn_victim_index-spares :
    (cs : List Connection) (j : ℕ)
    → AllUsed cs
    → j < length cs
    → (get_or cs j no_connection).link.state ≡ collecting
    → let victim = (get_or cs (conn_victim_index cs) no_connection).link in
      (victim.state ≡ collecting) × NotAfter victim (get_or cs j no_connection).link
unfolding conn_victim_index
conn_victim_index-spares cs j u h e =
    let w = weigh_loop 0 cs first_best in
    let (set_, le) = weigh_loop-Covers 0 j cs first_best (omega arith, omega arith) u h e in
    let chosen : conn_victim_index cs ≡ w.best = ground (arith, set_) in
    rw chosen (spared w set_ le (weigh_loop-Picked 0 cs first_best))
  where
    spared :
        (w : Best)
        → w.best_seq < 2 ^ 64 - 1
        → lex_le w.best_has_cand w.best_pkts w.best_seq
            (has_cand (link_at cs j))
            (u32 (link_at cs j).packets_seen)
            (link_at cs j).last_used_seq
          ≡ true
        → Picked 0 cs first_best w
        → ((link_at cs w.best).state ≡ collecting) × NotAfter (link_at cs w.best) (link_at cs j)
    spared w set_ le (kept q) = absurd (omega (arith, ap (λ b. b.best_seq) q))
    spared w set_ le (picked k inside at_k s) =
        let here : w.best ≡ k = omega (arith, at_k) in
        rw here (s.is_open, rw (← s.cand_is, ← s.pkts_is, ← s.seq_is) le)

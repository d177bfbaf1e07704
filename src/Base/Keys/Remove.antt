-- ===== src/Base/Keys/Remove.antt =====
-- The removal of a row of a table that moves the last row into the gap, and what it does to the keys.
use Prim.Native.Nat.{ℕ, zero, suc, ◌-◌, ◌<◌, ◌≤◌}
use mathlib.Core.Path.{◌≡◌, refl, sym, ap, subst, ◌∙◌}
use mathlib.Core.List.{List, [], ◌∷◌, ◌++◌}
use native.Mathlib.Omega.{arith}
use supertooth.Base.Lists.{length, get_or, set, take, length-append, length-set, length-take}
use supertooth.Base.Keys.{
  Fresh, Distinct, Apart, Fresh-set, Fresh-append_split, Distinct-set, Distinct_of_snoc,
  Apart-snoc_split, Apart-set_left, gone_from_snoc, keys, keys-set, keys-snoc, length-keys,
  get_or-keys,
}

module _ {A : Type 0} (key : A → ℕ) where
  -- `rows[idx] = rows[count - 1]; count--;`
  unfoldable pub swap_remove : A → ℕ → List A → List A
  swap_remove d i xs = take (length xs - 1) (set xs i (get_or xs (length xs - 1) d))

  pub length-swap_remove :
      (d : A) (i : ℕ) (xs : List A) → length (swap_remove d i xs) ≡ length xs - 1
  unfolding swap_remove
  length-swap_remove d i xs = omega (
    arith,
    length-take (length xs - 1) (set xs i (get_or xs (length xs - 1) d)),
    length-set xs i (get_or xs (length xs - 1) d),
  )

  -- A list with at least one row ends with one.
  last_row : (xs : List A) → 0 < length xs → (ys : List A) × (l : A) × (xs ≡ ys ++ l ∷ [])
  last_row [] h = absurd (omega arith)
  last_row (x ∷ []) h = ([], x, refl)
  last_row (x ∷ y ∷ r) h =
      let (ys, l, e) = last_row (y ∷ r) (omega arith) in (x ∷ ys, l, ap (λ t. x ∷ t) e)

  take-set :
      (ys : List A) (i : ℕ) (l : A)
      → i ≤ length ys
      → take (length ys) (set (ys ++ l ∷ []) i l) ≡ set ys i l
  take-set [] i l h = refl
  take-set (y ∷ ys) zero l h = ap (λ t. l ∷ t) (take_all ys l)
    where
      take_all : (zs : List A) (z : A) → take (length zs) (zs ++ z ∷ []) ≡ zs
      take_all [] z = refl
      take_all (w ∷ zs) z = ap (λ t. w ∷ t) (take_all zs z)
  take-set (y ∷ ys) (suc i) l h = ap (λ t. y ∷ t) (take-set ys i l (omega arith))

  get_last : (ys : List A) (l d : A) → get_or (ys ++ l ∷ []) (length ys) d ≡ l
  get_last [] l d = refl
  get_last (y ∷ ys) l d = get_last ys l d

  swap_remove-snoc :
      (d l : A) (i : ℕ) (ys : List A) → i ≤ length ys → swap_remove d i (ys ++ l ∷ []) ≡ set ys i l
  unfolding swap_remove
  swap_remove-snoc d l i ys h =
      let size : length (ys ++ l ∷ []) - 1 ≡ length ys = omega (arith, length-append ys (l ∷ [])) in
      rw (size, get_last ys l d) (take-set ys i l h)

  module _ (d : A) (i : ℕ) (xs : List A) (inside : i < length xs) where
    -- The keys key are those that were there.
    removal :
        (P Q : List ℕ → Type 0)
        → ((l : A) (ys : List A)
            → i ≤ length ys
            → P (keys key ys ++ key l ∷ [])
            → Q (set (keys key ys) i (key l)))
        → P (keys key xs)
        → Q (keys key (swap_remove d i xs))
    removal P Q step p =
        let (ys, l, e) = last_row xs (omega arith) in
        let size : i ≤ length ys = omega (arith, ap (λ t. length t) e, length-append ys (l ∷ [])) in
        let keys_of : keys key (swap_remove d i xs) ≡ set (keys key ys) i (key l) =
          ap (λ t. keys key (swap_remove d i t)) e
          ∙ ap (λ t. keys key t) (swap_remove-snoc d l i ys size)
          ∙ keys-set key i l ys in
        subst Q (sym keys_of)
          (step l ys size (subst P (ap (λ t. keys key t) e ∙ keys-snoc key l ys) p))

    pub swap_remove-Distinct : Distinct (keys key xs) → Distinct (keys key (swap_remove d i xs))
    swap_remove-Distinct = removal Distinct Distinct λ l ys h p.
        let (a, f) = Distinct_of_snoc (key l) (keys key ys) p in
        Distinct-set (key l) i (keys key ys) f a

    pub swap_remove-Fresh :
        (k : ℕ) → Fresh k (keys key xs) → Fresh k (keys key (swap_remove d i xs))
    swap_remove-Fresh k = removal (Fresh k) (Fresh k) λ l ys h p.
        let (a, f) = Fresh-append_split k (keys key ys) (key l ∷ []) p in
        Fresh-set k (key l) i (keys key ys) f.0 a

    pub swap_remove-Apart :
        (zs : List ℕ) → Apart (keys key xs) zs → Apart (keys key (swap_remove d i xs)) zs
    swap_remove-Apart zs =
        removal (λ t. Apart t zs) (λ t. Apart t zs)
          λ l ys h p.
            let (a, f) = Apart-snoc_split (key l) (keys key ys) zs p in
            Apart-set_left (key l) i (keys key ys) zs a f

    -- A key that stands once is gone with its row.
    pub swap_remove-gone :
        (k : ℕ)
        → Distinct (keys key xs)
        → key (get_or xs i d) ≡ k
        → Fresh k (keys key (swap_remove d i xs))
    swap_remove-gone k distinct here =
        removal (λ t. Distinct t × (get_or t i 0 ≡ k)) (Fresh k)
          (λ l ys h p.
            gone_from_snoc k (key l) i (keys key ys) (omega (arith, length-keys key ys)) p.0 p.1)
          (distinct, get_or-keys key i d xs inside ∙ here)

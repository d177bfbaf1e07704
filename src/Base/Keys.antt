-- ===== src/Base/Keys.antt =====
-- Tables whose rows are found by a number: the loop that looks for a key, and what
-- changes of rows do to the keys.
pub mod Remove
use Prim.Native.Nat.{ℕ, zero, suc, ◌+◌, ◌-◌, ◌<◌, ◌≤◌}
use mathlib.Core.Path.{◌≡◌, refl, sym, ap, subst, ◌∙◌}
use mathlib.Core.Logic.{◌≢◌, ◌⊎◌, inl, inr}
use mathlib.Core.Bool.{true, false}
use mathlib.Core.Option.{Option, none, some}
use mathlib.Core.List.{List, [], ◌∷◌, ◌++◌, map}
use native.Mathlib.Omega.{arith}
use supertooth.Base.Tests.{◌==◌, if◌then◌else◌, Bool-cases}
use supertooth.Base.Lists.{length, get_or, set, take, length-append, length-set, length-take}

-- `key` is not among the keys.
abbrev pub Fresh : ℕ → List ℕ → Type 0
Fresh k [] = Unit {0}
Fresh k (x ∷ xs) = (k ≢ x) × Fresh k xs

abbrev pub Distinct : List ℕ → Type 0
Distinct [] = Unit {0}
Distinct (x ∷ xs) = Fresh x xs × Distinct xs

-- No key of the first list is in the second.
abbrev pub Apart : List ℕ → List ℕ → Type 0
Apart [] ys = Unit {0}
Apart (x ∷ xs) ys = Fresh x ys × Apart xs ys

pub Fresh-set : (k v i : ℕ) (xs : List ℕ) → k ≢ v → Fresh k xs → Fresh k (set xs i v)
Fresh-set k v i [] h f = tt
Fresh-set k v zero (x ∷ xs) h f = (h, f.1)
Fresh-set k v (suc i) (x ∷ xs) h f = (f.0, Fresh-set k v i xs h f.1)

pub Fresh-append : (k : ℕ) (xs ys : List ℕ) → Fresh k xs → Fresh k ys → Fresh k (xs ++ ys)
Fresh-append k [] ys f g = g
Fresh-append k (x ∷ xs) ys f g = (f.0, Fresh-append k xs ys f.1 g)

pub Fresh-append_split : (k : ℕ) (xs ys : List ℕ) → Fresh k (xs ++ ys) → Fresh k xs × Fresh k ys
Fresh-append_split k [] ys f = (tt, f)
Fresh-append_split k (x ∷ xs) ys f = let (a, b) = Fresh-append_split k xs ys f.1 in ((f.0, a), b)

flip_ne : (a b : ℕ) → a ≢ b → b ≢ a
flip_ne a b h e = h (sym e)

pub Distinct-set : (v i : ℕ) (xs : List ℕ) → Fresh v xs → Distinct xs → Distinct (set xs i v)
Distinct-set v i [] f d = tt
Distinct-set v zero (x ∷ xs) f d = (f.1, d.1)
Distinct-set v (suc i) (x ∷ xs) f d =
    (Fresh-set x v i xs (flip_ne v x f.0) d.0, Distinct-set v i xs f.1 d.1)

pub Distinct-snoc : (v : ℕ) (xs : List ℕ) → Fresh v xs → Distinct xs → Distinct (xs ++ v ∷ [])
Distinct-snoc v [] f d = (tt, tt)
Distinct-snoc v (x ∷ xs) f d =
    (Fresh-append x xs (v ∷ []) d.0 (flip_ne v x f.0, tt), Distinct-snoc v xs f.1 d.1)

Distinct_of_snoc : (v : ℕ) (xs : List ℕ) → Distinct (xs ++ v ∷ []) → Distinct xs × Fresh v xs
Distinct_of_snoc v [] d = (tt, tt)
Distinct_of_snoc v (x ∷ xs) d =
    let (a, f) = Distinct_of_snoc v xs d.1 in
    let (g, h) = Fresh-append_split x xs (v ∷ []) d.0 in ((g, a), (flip_ne x v h.0, f))

pub Fresh-get : (ys : List ℕ) (j y : ℕ) → j < length ys → Fresh y ys → get_or ys j 0 ≢ y
Fresh-get [] j y p f = absurd (omega arith)
Fresh-get (z ∷ ys) zero y p f = flip_ne y z f.0
Fresh-get (z ∷ ys) (suc j) y p f = Fresh-get ys j y (omega arith) f.1

-- A key that stands once is gone when its entry is overwritten by another one.
Fresh-set_self :
    (v i : ℕ) (xs : List ℕ)
    → i < length xs
    → get_or xs i 0 ≢ v
    → Distinct xs
    → Fresh (get_or xs i 0) (set xs i v)
Fresh-set_self v i [] h n d = absurd (omega arith)
Fresh-set_self v zero (x ∷ xs) h n d = (n, d.0)
Fresh-set_self v (suc i) (x ∷ xs) h n d =
    (Fresh-get xs i x (omega arith) d.0, Fresh-set_self v i xs (omega arith) n d.1)

pub Apart-Fresh : (v : ℕ) (xs ys : List ℕ) → Apart xs ys → Fresh v xs → Apart xs (ys ++ v ∷ [])
Apart-Fresh v [] ys a f = tt
Apart-Fresh v (x ∷ xs) ys a f =
    (Fresh-append x ys (v ∷ []) a.0 (flip_ne v x f.0, tt), Apart-Fresh v xs ys a.1 f.1)

pub Apart-set_right : (v i : ℕ) (xs ys : List ℕ) → Apart xs ys → Fresh v xs → Apart xs (set ys i v)
Apart-set_right v i [] ys a f = tt
Apart-set_right v i (x ∷ xs) ys a f =
    (Fresh-set x v i ys (flip_ne v x f.0) a.0, Apart-set_right v i xs ys a.1 f.1)

pub Apart-snoc : (v : ℕ) (xs ys : List ℕ) → Apart xs ys → Fresh v ys → Apart (xs ++ v ∷ []) ys
Apart-snoc v [] ys a f = (f, tt)
Apart-snoc v (x ∷ xs) ys a f = (a.0, Apart-snoc v xs ys a.1 f)

Apart-snoc_split : (v : ℕ) (xs ys : List ℕ) → Apart (xs ++ v ∷ []) ys → Apart xs ys × Fresh v ys
Apart-snoc_split v [] ys a = (tt, a.0)
Apart-snoc_split v (x ∷ xs) ys a = let (b, f) = Apart-snoc_split v xs ys a.1 in ((a.0, b), f)

Apart-set_left : (v i : ℕ) (xs ys : List ℕ) → Apart xs ys → Fresh v ys → Apart (set xs i v) ys
Apart-set_left v i [] ys a f = tt
Apart-set_left v zero (x ∷ xs) ys a f = (f, a.1)
Apart-set_left v (suc i) (x ∷ xs) ys a f = (a.0, Apart-set_left v i xs ys a.1 f)

gone_from_snoc :
    (k l i : ℕ) (xs : List ℕ)
    → i ≤ length xs
    → Distinct (xs ++ l ∷ [])
    → get_or (xs ++ l ∷ []) i 0 ≡ k
    → Fresh k (set xs i l)
gone_from_snoc k l zero [] h d e = tt
gone_from_snoc k l (suc i) [] h d e = absurd (omega arith)
gone_from_snoc k l zero (x ∷ xs) h d e =
    let (f, g) = Fresh-append_split x xs (l ∷ []) d.0 in subst (λ t. Fresh t (l ∷ xs)) e (g.0, f)
gone_from_snoc k l (suc i) (x ∷ xs) h d e =
    (later xs i (omega arith) d.0 e, gone_from_snoc k l i xs (omega arith) d.1 e)
  where
    later :
        (ys : List ℕ) (j : ℕ)
        → j ≤ length ys
        → Fresh x (ys ++ l ∷ [])
        → get_or (ys ++ l ∷ []) j 0 ≡ k
        → k ≢ x
    later ys j p f at_j same =
        Fresh-get (ys ++ l ∷ []) j x (omega (arith, length-append ys (l ∷ []))) f (at_j ∙ same)

abbrev pub next_index : Option ℕ → Option ℕ
next_index none = none
next_index (some i) = some (i + 1)

module _ {A : Type 0} (key : A → ℕ) where
  abbrev pub keys : List A → List ℕ
  keys xs = map key xs

  -- The loop that returns the index of the first row with the key.
  unfoldable pub find_key : ℕ → List A → Option ℕ
  find_key k [] = none
  find_key k (x ∷ xs) = if key x == k then some 0 else next_index (find_key k xs)

  -- What it finds.
  pub data Search (k : ℕ) (d : A) (xs : List A) : Type 0 where
    found :
        (i : ℕ) → find_key k xs ≡ some i → i < length xs → key (get_or xs i d) ≡ k → Search k d xs
    missing : find_key k xs ≡ none → Fresh k (keys xs) → Search k d xs

  pub find_key-Search : (k : ℕ) (d : A) (xs : List A) → Search k d xs
  unfolding find_key
  find_key-Search k d [] = missing refl tt
  find_key-Search k d (x ∷ xs) = step (Bool-cases (key x == k)) (find_key-Search k d xs)
    where
      step : ((key x == k) ≡ true) ⊎ ((key x == k) ≡ false) → Search k d xs → Search k d (x ∷ xs)
      step (inl here) s = found 0 (rw here) (omega arith) (ground arith)
      step (inr later) (found i e h p) = found (suc i) (ground arith) (omega arith) p
      step (inr later) (missing e f) = missing (ground arith) (ground arith, f)

  pub find_key-Fresh : (k : ℕ) (xs : List A) → Fresh k (keys xs) → find_key k xs ≡ none
  unfolding find_key
  find_key-Fresh k [] f = refl
  find_key-Fresh k (x ∷ xs) f = ground (arith, f.0, find_key-Fresh k xs f.1)

  pub keys-set : (i : ℕ) (v : A) (xs : List A) → keys (set xs i v) ≡ set (keys xs) i (key v)
  keys-set i v [] = refl
  keys-set zero v (x ∷ xs) = refl
  keys-set (suc i) v (x ∷ xs) = ap (λ t. key x ∷ t) (keys-set i v xs)

  -- A row that keeps its key.
  pub keys-set_same :
      (i : ℕ) (v d : A) (xs : List A) → key v ≡ key (get_or xs i d) → keys (set xs i v) ≡ keys xs
  keys-set_same i v d [] e = refl
  keys-set_same zero v d (x ∷ xs) e = ap (λ t. t ∷ keys xs) e
  keys-set_same (suc i) v d (x ∷ xs) e = ap (λ t. key x ∷ t) (keys-set_same i v d xs e)

  pub find_key-set_same :
      (k i : ℕ) (v d : A) (xs : List A)
      → key v ≡ key (get_or xs i d)
      → find_key k (set xs i v) ≡ find_key k xs
  unfolding find_key
  find_key-set_same k i v d [] e = refl
  find_key-set_same k zero v d (x ∷ xs) e =
      ap (λ t. if t == k then some 0 else next_index (find_key k xs)) e
  find_key-set_same k (suc i) v d (x ∷ xs) e =
      ap (λ t. if key x == k then some 0 else next_index t) (find_key-set_same k i v d xs e)

  pub length-keys : (xs : List A) → length (keys xs) ≡ length xs
  length-keys [] = refl
  length-keys (x ∷ xs) = ap suc (length-keys xs)

  pub get_or-keys :
      (i : ℕ) (d : A) (xs : List A) → i < length xs → get_or (keys xs) i 0 ≡ key (get_or xs i d)
  get_or-keys i d [] h = absurd (omega arith)
  get_or-keys zero d (x ∷ xs) h = refl
  get_or-keys (suc i) d (x ∷ xs) h = get_or-keys i d xs (omega arith)

  -- Where keys are distinct, the row with a key is the one that is found.
  pub find_key-Distinct :
      (i : ℕ) (d : A) (xs : List A)
      → i < length xs
      → Distinct (keys xs)
      → find_key (key (get_or xs i d)) xs ≡ some i
  unfolding find_key
  find_key-Distinct i d [] h c = absurd (omega arith)
  find_key-Distinct zero d (x ∷ xs) h c = ground arith
  find_key-Distinct (suc i) d (x ∷ xs) h c =
      let other : get_or (keys xs) i 0 ≢ key x =
        Fresh-get (keys xs) i (key x) (omega (arith, length-keys xs)) c.0 in
      let at_i = get_or-keys i d xs (omega arith) in
      ground (arith, other, at_i, find_key-Distinct i d xs (omega arith) c.1)

  pub keys-snoc : (v : A) (xs : List A) → keys (xs ++ v ∷ []) ≡ keys xs ++ key v ∷ []
  keys-snoc v [] = refl
  keys-snoc v (x ∷ xs) = ap (λ t. key x ∷ t) (keys-snoc v xs)

  pub find_key-some :
      (k i : ℕ) (d : A) (xs : List A)
      → find_key k xs ≡ some i
      → (i < length xs) × (key (get_or xs i d) ≡ k)
  find_key-some k i d xs h = shown (find_key-Search k d xs)
    where
      shown : Search k d xs → (i < length xs) × (key (get_or xs i d) ≡ k)
      shown (found j e inside same) =
          let q : j ≡ i = ground (arith, e, h) in
          subst (λ t. (t < length xs) × (key (get_or xs t d) ≡ k)) q (inside, same)
      shown (missing e f) = absurd (ground (arith, e, h))

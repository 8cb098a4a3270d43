-- ===== src/Sorting.antt =====
-- `ORDER BY` of the database and Python's `heapq.merge`, by a key that is a point of time.
use mathlib.Core.List.{
  Mem, Perm, Pairwise, Pairwise-singleton, Pairwise-cons, mem-append, mem-cons_self,
  forall_mem-cons, perm_middle, append-nil, Mem-prop, mem-cons, mem-cons_of_mem, not-mem-nil,
}
use mathlib.Core.List.Perm
use mathlib.Core.Logic.Or
use native.Mathlib.Bridge.{le_prop}
use laa_inquests_api.Prelude.{
  ◌≡◌, Bool, true, false, List, [], ◌∷◌, ◌++◌, map, select, All, subst, sym, if◌then◌else◌, arith,
  Bool-cases, inl, inr,
}
use laa_inquests_api.Prelude.Int.{ℤ, leb_ℤ, ◌≤ℤ◌}

module _ {ℓ} {A : Type ℓ} (key : A → ℤ) where
  -- The later of two rows with the same key stays behind.
  insert_by : A → List A → List A
  insert_by a [] = a ∷ []
  insert_by a (b ∷ bs) =
      let rest = insert_by a bs in if leb_ℤ (key a) (key b) then a ∷ b ∷ bs else b ∷ rest

  -- `ORDER BY key`, for rows in the order of their ids
  unfoldable pub order_by : List A → List A
  unfolding insert_by
  order_by [] = []
  order_by (a ∷ l) = insert_by a (order_by l)

  -- `heapq.merge(l, r, key=key)`
  unfoldable pub merge : List A → List A → List A
  merge [] r = r
  merge (x ∷ l) [] = x ∷ l
  merge (x ∷ l) (y ∷ r) = elim (leb_ℤ (key x) (key y)) [
    | true ↦ x ∷ merge l (y ∷ r)
    | false ↦ y ∷ merge (x ∷ l) r
  ]

  abbrev pub InOrder : A → A → Type 0
  InOrder a b = key a ≤ℤ key b

  abbrev pub IsSorted : List A → Type ℓ
  IsSorted = Pairwise InOrder

  abbrev IsBelow : A → List A → Type ℓ
  IsBelow a l = (x : A) → Mem x l → InOrder a x

  IsBelow-cons : (a : A) {b : A} {l : List A} → InOrder a b → IsBelow a l → IsBelow a (b ∷ l)
  IsBelow-cons a p h = (forall_mem-cons (λ x. le_prop)).1 (p, h)

  IsBelow-append : (a : A) {l r : List A} → IsBelow a l → IsBelow a r → IsBelow a (l ++ r)
  IsBelow-append a hl hr x m = Or.elim le_prop (mem-append.0 m) (hl x) (hr x)

  IsBelow-perm : (a : A) {l r : List A} → Perm l r → IsBelow a r → IsBelow a l
  IsBelow-perm a p h x m = h x ((Perm.mem_iff p).0 m)

  IsBelow-head : (a : A) {b : A} {l : List A} → InOrder a b → IsSorted (b ∷ l) → IsBelow a (b ∷ l)
  IsBelow-head a p (Pairwise.cons h _) = IsBelow-cons a p λ x m. omega (arith, h x m)

  insert_by-perm : (a : A) (l : List A) → Perm (insert_by a l) (a ∷ l)
  unfolding insert_by
  insert_by-perm a [] = Perm.rfl
  insert_by-perm a (b ∷ bs) = elim (Bool-cases (leb_ℤ (key a) (key b))) [
    | inl e ↦ rw (e) Perm.rfl
    | inr e ↦ rw (e) (Perm.trans (Perm.cons b (insert_by-perm a bs)) (Perm.swap a b bs))
  ]

  insert_by-IsSorted : (a : A) {l : List A} → IsSorted l → IsSorted (insert_by a l)
  unfolding insert_by
  insert_by-IsSorted a Pairwise.nil = Pairwise-singleton _ a
  insert_by-IsSorted a (Pairwise.cons {a = b} {l = bs} below s) =
      elim (Bool-cases (leb_ℤ (key a) (key b))) [
        | inl e ↦ rw (e) (
            Pairwise.cons (IsBelow-head a (ground arith) (Pairwise.cons below s))
              (Pairwise.cons below s))
        | inr e ↦ rw (e) (
            Pairwise.cons
              (IsBelow-perm b (insert_by-perm a bs) (IsBelow-cons b (ground arith) below))
              (insert_by-IsSorted a s))
      ]

  pub order_by-perm : (l : List A) → Perm (order_by l) l
  unfolding order_by
  order_by-perm [] = Perm.rfl
  order_by-perm (a ∷ l) = Perm.trans (insert_by-perm a (order_by l)) (Perm.cons a (order_by-perm l))

  pub order_by-IsSorted : (l : List A) → IsSorted (order_by l)
  unfolding order_by
  order_by-IsSorted [] = Pairwise.nil
  order_by-IsSorted (a ∷ l) = insert_by-IsSorted a (order_by-IsSorted l)

  merge_left :
      (x y : A) (l r : List A)
      → leb_ℤ (key x) (key y) ≡ true
      → merge (x ∷ l) (y ∷ r) ≡ x ∷ merge l (y ∷ r)
  unfolding merge
  merge_left x y l r e = ground arith

  merge_right :
      (x y : A) (l r : List A)
      → leb_ℤ (key x) (key y) ≡ false
      → merge (x ∷ l) (y ∷ r) ≡ y ∷ merge (x ∷ l) r
  unfolding merge
  merge_right x y l r e = ground arith

  pub merge-perm : (l r : List A) → Perm (merge l r) (l ++ r)
  unfolding merge
  merge-perm [] r = Perm.rfl
  merge-perm (x ∷ l) [] = rw (append-nil l) Perm.rfl
  merge-perm (x ∷ l) (y ∷ r) = elim (Bool-cases (leb_ℤ (key x) (key y))) [
    | inl e ↦ rw (merge_left x y l r e) (Perm.cons x (merge-perm l (y ∷ r)))
    | inr e ↦
        rw (merge_right x y l r e)
          (Perm.trans (Perm.cons y (merge-perm (x ∷ l) r)) (Perm.symm (perm_middle (x ∷ l) r)))
  ]

  pub merge-IsSorted : (l r : List A) → IsSorted l → IsSorted r → IsSorted (merge l r)
  unfolding merge
  merge-IsSorted [] r sl sr = sr
  merge-IsSorted (x ∷ l) [] sl sr = sl
  merge-IsSorted (x ∷ l) (y ∷ r) sl sr =
      let (below_l, tail_l) = Pairwise-cons.0 sl in
      let (below_r, tail_r) = Pairwise-cons.0 sr in
      elim (Bool-cases (leb_ℤ (key x) (key y))) [
        | inl e ↦ rw (merge_left x y l r e) (
            Pairwise.cons
              (IsBelow-perm x (merge-perm l (y ∷ r))
                (IsBelow-append x below_l (IsBelow-head x (ground arith) sr)))
              (merge-IsSorted l (y ∷ r) tail_l sr))
        | inr e ↦ rw (merge_right x y l r e) (
            Pairwise.cons
              (IsBelow-perm y (merge-perm (x ∷ l) r)
                (IsBelow-append y (IsBelow-head y (ground arith) sl) below_r))
              (merge-IsSorted (x ∷ l) r sl tail_r))
      ]

module _ {ℓ κ} {A : Type ℓ} {B : Type κ} (key : A → ℤ) (other : B → ℤ) (f : A → B) where
  -- The images of rows in the order of their keys are in that order.
  pub map-IsSorted :
      {l : List A}
      → ((a : A) → Mem a l → other (f a) ≤ℤ key a)
      → ((a : A) → Mem a l → key a ≤ℤ other (f a))
      → IsSorted key l
      → IsSorted other (map f l)
  map-IsSorted low high Pairwise.nil = Pairwise.nil
  map-IsSorted {l = a ∷ l} low high (Pairwise.cons below s) =
      Pairwise.cons (images l (λ b m. high b (mem-cons_of_mem a m)) below)
        (map-IsSorted (λ b m. low b (mem-cons_of_mem a m)) (λ b m. high b (mem-cons_of_mem a m)) s)
    where
      images :
          (l : List A)
          → ((b : A) → Mem b l → key b ≤ℤ other (f b))
          → ((b : A) → Mem b l → key a ≤ℤ key b)
          → (y : B) → Mem y (map f l)
          → other (f a) ≤ℤ other y
      images [] high below y m = absurd (not-mem-nil m)
      images (b ∷ l) high below y m =
          Or.elim le_prop (mem-cons.0 m)
            (λ e.
              rw (e)
                (omega (arith, low a mem-cons_self, below b mem-cons_self, high b mem-cons_self)))
            (images l (λ c n. high c (mem-cons_of_mem b n)) (λ c n. below c (mem-cons_of_mem b n))
              y)

module _ {ℓ} {A : Type ℓ} where
  pub mem-select : (p : A → Bool) (a : A) (l : List A) → Mem a (select p l) → Mem a l
  mem-select p a [] m = m
  mem-select p a (x ∷ l) m = elim (Bool-cases (p x)) [
    | inl e ↦
        Or.elim Mem-prop (mem-cons.0 (rw (e) at m)) (λ same. rw (same) mem-cons_self)
          (λ n. mem-cons_of_mem x (mem-select p a l n))
    | inr e ↦ mem-cons_of_mem x (mem-select p a l (rw (e) at m))
  ]

  module _ {κ} {P : A → Type κ} where
    pub All-mem : ((a : A) → IsProp (P a)) → (l : List A) → All P l → (a : A) → Mem a l → P a
    All-mem prop [] h a m = absurd (not-mem-nil m)
    All-mem prop (x ∷ l) h a m =
        Or.elim (prop a) (mem-cons.0 m) (λ e. subst P (sym e) h.0) (All-mem prop l h.1 a)

    pub All-imp {ι} : {Q : A → Type ι} → ((a : A) → P a → Q a) → (l : List A) → All P l → All Q l
    All-imp imp [] h = tt
    All-imp imp (x ∷ l) h = (imp x h.0, All-imp imp l h.1)

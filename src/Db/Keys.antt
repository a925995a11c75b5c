-- ===== src/Db/Keys.antt =====
-- Tables with a primary key and a CHECK constraint: what the queries of Db/Tables keep.
use cedana.Base.{
  String, str_eq, eq_iff, eq_refl, ◌≡◌, refl, sym, ◌∙◌, Bool, true, false, none, some, List, [],
  ◌∷◌, ◌++◌, if◌then◌else◌, All, All-append, arith, Bool-cases, inl, inr, ◌⊎◌,
}
use cedana.Db.Tables.{has, insert, replace, update, remove, select, row_of, one_of}

module _ {R : Type 0} (key : R → String) where
  -- No key twice.
  abbrev pub Unique : List R → Type 0
  Unique [] = Unit
  Unique (r ∷ rs) = (has key (key r) rs ≡ false) × Unique rs

  has-append :
      (k : String) (xs ys : List R)
      → has key k (xs ++ ys) ≡ (if has key k xs then true else has key k ys)
  unfolding has
  has-append k [] ys = refl
  has-append k (x ∷ xs) ys = ground (arith, has-append k xs ys)

  has-replace : (k : String) (r : R) (xs : List R) → has key k (replace key r xs) ≡ has key k xs
  unfolding has replace
  has-replace k r [] = refl
  has-replace k r (x ∷ xs) = ground (arith, has-replace k r xs, eq_iff (key x) (key r))

  has-remove :
      (k j : String) (xs : List R) → has key k xs ≡ false → has key k (remove key j xs) ≡ false
  unfolding has remove
  has-remove k j [] h = refl
  has-remove k j (x ∷ xs) h = ground (arith, has-remove k j xs)

  row_of-append :
      (k : String) (xs ys : List R)
      → has key k xs ≡ false
      → row_of key k (xs ++ ys) ≡ row_of key k ys
  unfolding has row_of
  row_of-append k [] ys h = refl
  row_of-append k (x ∷ xs) ys h = ground (arith, row_of-append k xs ys)

  row_of-replace :
      (r : R) (xs : List R)
      → has key (key r) xs ≡ true
      → row_of key (key r) (replace key r xs) ≡ some r
  unfolding has replace row_of
  row_of-replace r [] h = ground arith
  row_of-replace r (x ∷ xs) h = ground (arith, row_of-replace r xs, eq_refl (key r))

  has-none : (k : String) (xs : List R) → has key k xs ≡ false → row_of key k xs ≡ none
  unfolding has row_of
  has-none k [] h = refl
  has-none k (x ∷ xs) h = ground (arith, has-none k xs)

  row_of-first : (r : R) (xs : List R) → row_of key (key r) (r ∷ xs) ≡ some r
  unfolding row_of
  row_of-first r xs = rw (eq_refl (key r)) refl

  Unique-append :
      (xs : List R) (r : R) → has key (key r) xs ≡ false → Unique xs → Unique (xs ++ r ∷ [])
  unfolding has
  Unique-append [] r h u = (refl, tt)
  Unique-append (x ∷ xs) r h u = (
    ground (arith, has-append (key x) xs (r ∷ []), eq_iff (key x) (key r), eq_iff (key r) (key x)),
    Unique-append xs r (ground arith) u.1,
  )

  Unique-replace : (r : R) (xs : List R) → Unique xs → Unique (replace key r xs)
  unfolding replace
  Unique-replace r [] u = tt
  Unique-replace r (x ∷ xs) u = elim (Bool-cases (str_eq (key x) (key r))) [
    | inl e ↦
        rw e (
          ground (arith, has-replace (key r) r xs, eq_iff (key x) (key r)),
          Unique-replace r xs u.1,
        )
    | inr e ↦ rw e (ground (arith, has-replace (key x) r xs), Unique-replace r xs u.1)
  ]

  Unique-remove : (k : String) (xs : List R) → Unique xs → Unique (remove key k xs)
  unfolding remove
  Unique-remove k [] u = tt
  Unique-remove k (x ∷ xs) u = elim (Bool-cases (str_eq (key x) k)) [
    | inl e ↦ rw e (Unique-remove k xs u.1)
    | inr e ↦ rw e (has-remove (key x) k xs u.0, Unique-remove k xs u.1)
  ]

  select-none : (k : String) (xs : List R) → has key k xs ≡ false → select key (k ∷ []) xs ≡ []
  unfolding has select
  select-none k [] h = refl
  select-none k (x ∷ xs) h = ground (arith, select-none k xs, eq_iff (key x) k, eq_iff k (key x))

  -- A query for one key gives the row of it, or nothing.
  pub select-row_of :
      (k : String) (xs : List R)
      → Unique xs
      → select key (k ∷ []) xs ≡ elim (row_of key k xs) [ none ↦ [] | some r ↦ r ∷ [] ]
  unfolding select row_of one_of
  select-row_of k [] u = refl
  select-row_of k (x ∷ xs) u =
      ground
        (arith, select-row_of k xs u.1, select-none k xs, u.0, eq_iff (key x) k, eq_iff k (key x))

  pub row_of-has :
      (k : String) (xs : List R) (r : R) → row_of key k xs ≡ some r → has key k xs ≡ true
  unfolding has row_of
  row_of-has k [] r h = ground arith
  row_of-has k (x ∷ xs) r h = ground (arith, row_of-has k xs r)

  pub row_of-none : (k : String) (xs : List R) → row_of key k xs ≡ none → has key k xs ≡ false
  unfolding has row_of
  row_of-none k [] h = refl
  row_of-none k (x ∷ xs) h = ground (arith, row_of-none k xs)

  module _ (check : R → Bool) where
    pub row_of-check :
        (k : String) (xs : List R) (r : R)
        → All (λ x. check x ≡ true) xs
        → row_of key k xs ≡ some r
        → check r ≡ true
    unfolding row_of
    row_of-check k [] r h e = ground arith
    row_of-check k (x ∷ xs) r h e = elim (Bool-cases (str_eq (key x) k)) [
      | inl q ↦ ground (arith, q, h.0)
      | inr q ↦ row_of-check k xs r h.1 (rw q at e)
    ]

    -- The keys differ, and every row passes the CHECK.
    abbrev pub IsTable : List R → Type 0
    IsTable rs = Unique rs × All (λ r. check r ≡ true) rs

    pub All-replace :
        (r : R) (xs : List R)
        → check r ≡ true
        → All (λ x. check x ≡ true) xs
        → All (λ x. check x ≡ true) (replace key r xs)
    unfolding replace
    All-replace r [] c h = tt
    All-replace r (x ∷ xs) c h = elim (Bool-cases (str_eq (key x) (key r))) [
      | inl e ↦ rw e (c, All-replace r xs c h.1)
      | inr e ↦ rw e (h.0, All-replace r xs c h.1)
    ]

    pub All-remove :
        (k : String) (xs : List R)
        → All (λ x. check x ≡ true) xs
        → All (λ x. check x ≡ true) (remove key k xs)
    unfolding remove
    All-remove k [] h = tt
    All-remove k (x ∷ xs) h = elim (Bool-cases (str_eq (key x) k)) [
      | inl e ↦ rw e (All-remove k xs h.1)
      | inr e ↦ rw e (h.0, All-remove k xs h.1)
    ]

    pub remove-IsTable : (k : String) (xs : List R) → IsTable xs → IsTable (remove key k xs)
    remove-IsTable k xs t = (Unique-remove k xs t.0, All-remove k xs t.1)

    -- What a successful insert needs, and what it does.
    insert_lem :
        (r : R) (xs ys : List R)
        → insert key check r xs ≡ some ys
        → (has key (key r) xs ≡ false) × (check r ≡ true) × (ys ≡ xs ++ r ∷ [])
    unfolding insert
    insert_lem r xs ys e = ground arith

    update_lem :
        (r : R) (xs ys : List R)
        → update key check r xs ≡ some ys
        → ((has key (key r) xs ≡ false) × (ys ≡ xs))
          ⊎ ((has key (key r) xs ≡ true) × (check r ≡ true) × (ys ≡ replace key r xs))
    unfolding update
    update_lem r xs ys e = ground arith

    insert-IsTable :
        (r : R) (xs ys : List R)
        → insert key check r xs ≡ some ys
        → IsTable xs
        → IsTable ys × (row_of key (key r) ys ≡ some r)
    insert-IsTable r xs ys e t =
        let (new, c, q) = insert_lem r xs ys e in
        rw q (
          (Unique-append xs r new t.0, All-append (λ x. check x ≡ true) xs (r ∷ []) t.1 (c, tt)),
          row_of-append (key r) xs (r ∷ []) new ∙ row_of-first r [],
        )

    update-IsTable :
        (r : R) (xs ys : List R)
        → update key check r xs ≡ some ys
        → IsTable xs
        → IsTable ys × (has key (key r) xs ≡ true → row_of key (key r) ys ≡ some r)
    update-IsTable r xs ys e t = elim (update_lem r xs ys e) [
      | inl (new, q) ↦ rw q (t, λ h. ground arith)
      | inr (old, c, q) ↦
          rw q ((Unique-replace r xs t.0, All-replace r xs c t.1), row_of-replace r xs)
    ]

    -- What a method writes: an UPDATE if it has found the row, and an INSERT otherwise.
    pub put-IsTable :
        (old : Bool) (r : R) (xs ys : List R)
        → (if old then update key check r xs else insert key check r xs) ≡ some ys
        → IsTable xs
        → IsTable ys
    put-IsTable true r xs ys e t = (update-IsTable r xs ys e t).0
    put-IsTable false r xs ys e t = (insert-IsTable r xs ys e t).0

    -- A row that is written, and not lost because an UPDATE does not find it, is the row of its key.
    pub put-row_of :
        (old : Bool) (r : R) (xs ys : List R)
        → (old ≡ true → has key (key r) xs ≡ true)
        → (if old then update key check r xs else insert key check r xs) ≡ some ys
        → IsTable xs
        → row_of key (key r) ys ≡ some r
    put-row_of true r xs ys h e t = (update-IsTable r xs ys e t).1 (h refl)
    put-row_of false r xs ys h e t = (insert-IsTable r xs ys e t).1

  -- The rows of other keys.
  row_of-append_other :
      (k : String) (r : R) (xs : List R)
      → str_eq (key r) k ≡ false
      → row_of key k (xs ++ r ∷ []) ≡ row_of key k xs
  unfolding row_of
  row_of-append_other k r [] n = ground (arith, n)
  row_of-append_other k r (x ∷ xs) n = rw (row_of-append_other k r xs n) refl

  row_of-replace_other :
      (k : String) (r : R) (xs : List R)
      → str_eq (key r) k ≡ false
      → row_of key k (replace key r xs) ≡ row_of key k xs
  unfolding row_of replace
  row_of-replace_other k r [] n = refl
  row_of-replace_other k r (x ∷ xs) n =
      ground (arith, n, row_of-replace_other k r xs n, eq_iff (key x) (key r), eq_iff (key x) k)

  pub row_of-remove :
      (k j : String) (xs : List R)
      → row_of key k (remove key j xs) ≡ (if str_eq j k then none else row_of key k xs)
  unfolding row_of remove
  row_of-remove k j [] = ground arith
  row_of-remove k j (x ∷ xs) =
      ground (arith, row_of-remove k j xs, eq_iff (key x) j, eq_iff j k, eq_iff (key x) k)

  -- The table with a row written: in place of the row of its key, or at the end.
  abbrev pub written : R → List R → List R
  written r xs = if has key (key r) xs then replace key r xs else xs ++ r ∷ []

  pub row_of-written :
      (r : R) (xs : List R) (k : String)
      → row_of key k (written r xs) ≡ (if str_eq (key r) k then some r else row_of key k xs)
  row_of-written r xs k = elim (Bool-cases (has key (key r) xs)) [
    | inl h ↦ rw h (elim (Bool-cases (str_eq (key r) k)) [
      | inl e ↦ rw e (rw (sym ((eq_iff (key r) k).0 e)) (row_of-replace r xs h))
      | inr n ↦ rw n (row_of-replace_other k r xs n)
    ])
    | inr h ↦ rw h (elim (Bool-cases (str_eq (key r) k)) [
      | inl e ↦ rw e (
          rw (sym ((eq_iff (key r) k).0 e))
            (row_of-append (key r) xs (r ∷ []) h ∙ row_of-first r []))
      | inr n ↦ rw n (row_of-append_other k r xs n)
    ])
  ]

  pub All-written :
      (check : R → Bool) (r : R) (xs : List R)
      → check r ≡ true
      → All (λ x. check x ≡ true) xs
      → All (λ x. check x ≡ true) (written r xs)
  All-written check r xs c h = elim (Bool-cases (has key (key r) xs)) [
    | inl e ↦ rw e (All-replace check r xs c h)
    | inr e ↦ rw e (All-append (λ x. check x ≡ true) xs (r ∷ []) h (c, tt))
  ]

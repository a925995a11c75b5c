-- ===== src/Process/Rows.antt =====
-- Lists of processes with their parents: distinct PIDs, and how many processes wait for their parent.
use cedana.Base.{
  ℕ, suc, ◌+◌, ◌≤◌, ◌==◌, ◌≡◌, refl, ap, sym, ◌∙◌, subst, Bool, false, ◌||◌, List, [], ◌∷◌, ◌++◌,
  In, inl, inr, In-append_cases, length, arith, if◌then◌else◌, Bool-cases,
}
use cedana.Process.Table.{pids_of, In-pids_of}

abbrev pub member : ℕ → List ℕ → Bool
member x [] = false
member x (y ∷ ys) = (y == x) || member x ys

pub member-not : (x : ℕ) (xs : List ℕ) → ¬ In x xs → member x xs ≡ false
member-not x [] n = refl
member-not x (y ∷ ys) n = ground (arith, n, member-not x ys)

-- No element occurs twice.
abbrev pub Distinct : {A : Type 0} → List A → Type 0
Distinct [] = Unit
Distinct (x ∷ xs) = ¬ In x xs × Distinct xs

-- The rows whose parent has not been taken from the queue.
unfoldable pub owed : List ℕ → List (ℕ × ℕ) → ℕ
owed seen [] = 0
owed seen ((c, p) ∷ rows) = let rest = owed seen rows in if member p seen then rest else suc rest

pub owed-le : (seen : List ℕ) (rows : List (ℕ × ℕ)) → owed seen rows ≤ length rows
unfolding owed
owed-le seen [] = omega arith
owed-le seen (r ∷ rows) = ground (arith, owed-le seen rows)

-- Taking a process from the queue pays for its children.
pub owed-take :
    (p : ℕ) (seen : List ℕ) (rows : List (ℕ × ℕ))
    → member p seen ≡ false
    → owed (p ∷ seen) rows + length (pids_of p rows) ≡ owed seen rows
unfolding owed pids_of
owed-take p seen [] e = refl
owed-take p seen ((c, q) ∷ rows) e =
    let rest = owed-take p seen rows e in
    elim (Bool-cases (q == p)) [
      | inl u ↦ let same : q ≡ p = ground (arith, u) in rw same (ground (arith, rest, e))
      | inr u ↦ ground (arith, rest, u)
    ]

pub Distinct-append :
    {A : Type 0} (xs ys : List A)
    → Distinct xs
    → Distinct ys
    → ((y : A) → In y xs → ¬ In y ys)
    → Distinct (xs ++ ys)
Distinct-append [] ys d e apart = e
Distinct-append (x ∷ xs) ys d e apart = (
  λ i. elim (In-append_cases x xs ys i) [ inl l ↦ d.0 l | inr r ↦ apart x (inl refl) r ],
  Distinct-append xs ys d.1 e (λ y i. apart y (inr i)),
)

abbrev pub pids : List (ℕ × ℕ) → List ℕ
pids [] = []
pids (r ∷ rows) = r.0 ∷ pids rows

In-pids : (c p : ℕ) (rows : List (ℕ × ℕ)) → In (c, p) rows → In c (pids rows)
In-pids c p [] i = i
In-pids c p (r ∷ rows) (inl e) = inl (ap (λ r. r.0) e)
In-pids c p (r ∷ rows) (inr i) = inr (In-pids c p rows i)

pub Distinct-pids_of :
    (p : ℕ) (rows : List (ℕ × ℕ)) → Distinct (pids rows) → Distinct (pids_of p rows)
unfolding pids_of
Distinct-pids_of p [] d = tt
Distinct-pids_of p ((c, q) ∷ rows) d =
    let new : ¬ In c (pids_of p rows) = λ i. d.0 (In-pids c p rows (In-pids_of c p rows i)) in
    elim (Bool-cases (q == p)) [
      | inl e ↦ rw e (new, Distinct-pids_of p rows d.1)
      | inr e ↦ rw e (Distinct-pids_of p rows d.1)
    ]

-- A PID has one parent.
pub one_parent :
    (c p q : ℕ) (rows : List (ℕ × ℕ))
    → Distinct (pids rows)
    → In (c, p) rows
    → In (c, q) rows
    → p ≡ q
one_parent c p q [] d i j = absurd i
one_parent c p q (r ∷ rows) d (inl e) (inl f) = ap (λ r. r.1) (e ∙ sym f)
one_parent c p q (r ∷ rows) d (inl e) (inr j) =
    absurd (d.0 (subst (λ x. In x (pids rows)) (ap (λ r. r.0) e) (In-pids c q rows j)))
one_parent c p q (r ∷ rows) d (inr i) (inl f) =
    absurd (d.0 (subst (λ x. In x (pids rows)) (ap (λ r. r.0) f) (In-pids c p rows i)))
one_parent c p q (r ∷ rows) d (inr i) (inr j) = one_parent c p q rows d.1 i j

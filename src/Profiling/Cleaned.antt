-- ===== src/Profiling/Cleaned.antt =====
-- What Clean makes of the tree of timings.
use cedana.Base.{
  ◌≡◌, refl, ap, sym, ◌∙◌, Bool, not, List, [], ◌∷◌, ◌++◌, filter_by, Bool-cases, inl, inr, arith,
}
use mathlib.Core.List.{append_assoc}
use cedana.Profiling.{
  Info, Data, data_of, Components, none_left, next, components, append, is_wrapper, clean,
  clean_all,
}

-- The components of a tree, in preorder.
unfoldable mutual
  pub infos : Data → List Info
  infos (data_of i cs) = i ∷ infos_all cs

  pub infos_all : Components → List Info
  infos_all none_left = []
  infos_all (next c cs) = infos c ++ infos_all cs

infos_all-append : (cs ds : Components) → infos_all (append cs ds) ≡ infos_all cs ++ infos_all ds
unfolding infos
infos_all-append none_left ds = refl
infos_all-append (next c cs) ds =
    ap (λ xs. infos c ++ xs) (infos_all-append cs ds)
    ∙ sym (append_assoc (infos c) (infos_all cs) (infos_all ds))

filter_by-append :
    {A : Type 0} (p : A → Bool) (xs ys : List A)
    → filter_by p (xs ++ ys) ≡ filter_by p xs ++ filter_by p ys
unfolding filter_by
filter_by-append p [] ys = refl
filter_by-append p (x ∷ xs) ys = ground (arith, filter_by-append p xs ys)

abbrev pub is_real : Info → Bool
is_real i = not (is_wrapper i)

mutual
  unfolding infos clean filter_by

  clean-infos :
      (d : Data) → infos_all (components (clean d)) ≡ filter_by is_real (infos_all (components d))
  clean-infos (data_of i cs) = clean_all-infos cs

  clean_all-infos : (cs : Components) → infos_all (clean_all cs) ≡ filter_by is_real (infos_all cs)
  clean_all-infos none_left = refl
  clean_all-infos (next (data_of i ds) cs) =
      let here = clean_all-infos ds in
      let rest = clean_all-infos cs in
      let split = filter_by-append is_real (infos_all ds) (infos_all cs) in
      elim (Bool-cases (is_wrapper i)) [
        | inl e ↦
            rw (e, split) (infos_all-append (clean_all ds) (clean_all cs) ∙ rw (here, rest) refl)
        | inr e ↦ rw (e, split) (ap (λ xs. i ∷ xs) (rw (here, rest) refl))
      ]

-- Clean leaves, below the top, exactly the components that are not empty wrappers, in the order
-- of a walk from the top.
pub clean_lem :
    (d : Data) → infos_all (components (clean d)) ≡ filter_by is_real (infos_all (components d))
clean_lem d = clean-infos d

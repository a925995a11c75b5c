-- ===== src/Gpu/Inherited.antt =====
-- What InheritFilesForRestore passes on: under each key the descriptor of the file that was opened for
-- it; nothing for a container; and where it ends early without an error.
use mathlib.Core.List.{append_assoc, append-nil}
use cedana.Base.{
  ℕ, suc, ◌+◌, ◌≡◌, refl, ap, sym, ◌∙◌, subst, ◌⊎◌, inl, inr, String, Bool, true, none, List, [],
  ◌∷◌, ◌++◌, In, In-append_cases, length, length-append, is_some, load, store, load-store, Dict,
  eq_refl, arith, Bool-cases, Option-cases,
}
use cedana.Process.Rows.{Distinct, Distinct-append}
use cedana.Gpu.Inherit.{Inherit, register}

-- Files that were opened for keys, and the numbers that they get in a list of inherited files.
abbrev pub Opened : Type 0
Opened = List (String × String)

unfoldable pub numbered : ℕ → Opened → List (String × ℕ)
numbered n [] = []
numbered n ((k, p) ∷ os) = (k, n) ∷ numbered (suc n) os

abbrev pub keys : Opened → List String
keys [] = []
keys ((k, p) ∷ os) = k ∷ keys os

abbrev pub opened_paths : Opened → List String
opened_paths [] = []
opened_paths ((k, p) ∷ os) = p ∷ opened_paths os

-- From `s` on, files have been opened under distinct keys that were not in the map, they have been
-- appended to the files that are passed on, and the numbers under their keys are their positions there.
pub record Passes (s u : Inherit) : Type 0 where
  pub opened : Opened
  pub files : u.extra_files ≡ s.extra_files ++ opened_paths opened
  pub numbers : u.inherit_fds ≡ s.inherit_fds ++ numbered (3 + length s.extra_files) opened
  pub distinct : Distinct (keys opened)
  pub new_keys : (k : String) → In k (keys opened) → load k s.inherit_fd_map ≡ none
  pub noted : (k : String) → In k (keys opened) → is_some (load k u.inherit_fd_map) ≡ true
  pub kept :
      (k : String)
      → is_some (load k s.inherit_fd_map) ≡ true
      → is_some (load k u.inherit_fd_map) ≡ true

pub Passes-refl : (s : Inherit) → Passes s s
unfolding numbered
Passes-refl s = record {
  opened = [];
  files = sym (append-nil s.extra_files);
  numbers = sym (append-nil s.inherit_fds);
  distinct = tt;
  new_keys = λ k i. absurd i;
  noted = λ k i. absurd i;
  kept = λ k i. i;
}

numbered-append :
    (n : ℕ) (os : Opened) (k p : String)
    → numbered n (os ++ (k, p) ∷ []) ≡ numbered n os ++ (k, n + length os) ∷ []
unfolding numbered
numbered-append n [] k p = ap (λ m. (k, m) ∷ []) (omega arith)
numbered-append n ((j, q) ∷ os) k p =
    ap (λ xs. (j, n) ∷ xs)
      (numbered-append (suc n) os k p ∙ ap (λ m. numbered (suc n) os ++ (k, m) ∷ []) (omega arith))

keys-append : (os : Opened) (k p : String) → keys (os ++ (k, p) ∷ []) ≡ keys os ++ k ∷ []
keys-append [] k p = refl
keys-append ((j, q) ∷ os) k p = ap (λ ks. j ∷ ks) (keys-append os k p)

opened_paths-append :
    (os : Opened) (k p : String) → opened_paths (os ++ (k, p) ∷ []) ≡ opened_paths os ++ p ∷ []
opened_paths-append [] k p = refl
opened_paths-append ((j, q) ∷ os) k p = ap (λ ps. q ∷ ps) (opened_paths-append os k p)

length-opened_paths : (os : Opened) → length (opened_paths os) ≡ length os
length-opened_paths [] = refl
length-opened_paths ((j, q) ∷ os) = ap suc (length-opened_paths os)

kept-store :
    (key k : String) (fd : ℕ) (m : Dict ℕ)
    → is_some (load k m) ≡ true
    → is_some (load k (store key fd m)) ≡ true
kept-store key k fd m h = ground (arith, load-store key k fd m)

noted-store : (key : String) (fd : ℕ) (m : Dict ℕ) → is_some (load key (store key fd m)) ≡ true
noted-store key fd m = ground (arith, load-store key key fd m, eq_refl key)

-- A key that is not in the map was not in it at first.
fresh_key :
    (s u : Inherit) (key : String)
    → Passes s u
    → load key u.inherit_fd_map ≡ none
    → load key s.inherit_fd_map ≡ none
fresh_key s u key p e = elim (Option-cases (load key s.inherit_fd_map)) [
  | inl f ↦ f
  | inr (fd, f) ↦ ground (arith, p.kept key (rw f refl), e)
]

pass_container :
    (s u : Inherit) (key : String) (fd : ℕ)
    → Passes s u
    → Passes s (record u { inherit_fd_map = store key fd u.inherit_fd_map })
pass_container s u key fd p = record {
  opened = p.opened;
  files = p.files;
  numbers = p.numbers;
  distinct = p.distinct;
  new_keys = p.new_keys;
  noted = λ k i. kept-store key k fd u.inherit_fd_map (p.noted k i);
  kept = λ k i. kept-store key k fd u.inherit_fd_map (p.kept k i);
}

abbrev with_file : String → String → Inherit → Inherit
with_file key path u = record u {
  inherit_fd_map = store key (3 + length u.extra_files) u.inherit_fd_map;
  extra_files = u.extra_files ++ path ∷ [];
  inherit_fds = u.inherit_fds ++ (key, 3 + length u.extra_files) ∷ [];
}

pass_file :
    (s u : Inherit) (key path : String)
    → Passes s u
    → load key u.inherit_fd_map ≡ none
    → Passes s (with_file key path u)
pass_file s u key path p e =
    let n : ℕ = 3 + length s.extra_files in
    let fd : ℕ = 3 + length u.extra_files in
    let here : fd ≡ n + length p.opened = omega (
      arith,
      ap length p.files,
      length-append s.extra_files (opened_paths p.opened),
      length-opened_paths p.opened,
    ) in
    let names = keys-append p.opened key path in
    let cases : (k : String)
        → In k (keys (p.opened ++ (key, path) ∷ []))
        → In k (keys p.opened) ⊎ (k ≡ key) =
      λ k i. elim (In-append_cases k (keys p.opened) (key ∷ []) (subst (In k) names i)) [
        | inl l ↦ inl l
        | inr (inl f) ↦ inr f
        | inr (inr f) ↦ absurd f
      ] in
    record {
      opened = p.opened ++ (key, path) ∷ [];
      files =
          rw (p.files, opened_paths-append p.opened key path)
            (append_assoc s.extra_files (opened_paths p.opened) (path ∷ []));
      numbers =
          rw (numbered-append n p.opened key path, here, p.numbers)
            (append_assoc s.inherit_fds (numbered n p.opened) ((key, n + length p.opened) ∷ []));
      distinct = rw names (
          Distinct-append (keys p.opened) (key ∷ []) p.distinct (λ i. i, tt)
            (λ k i j. elim j [
              | inl f ↦ ground (arith, p.noted k i, ap (λ x. load x u.inherit_fd_map) f, e)
              | inr f ↦ f
            ]));
      new_keys =
          λ k i. elim (cases k i) [ inl l ↦ p.new_keys k l | inr f ↦ rw f (fresh_key s u key p e) ];
      noted = λ k i. elim (cases k i) [
        | inl l ↦ kept-store key k fd u.inherit_fd_map (p.noted k l)
        | inr f ↦ rw f (noted-store key fd u.inherit_fd_map)
      ];
      kept = λ k i. kept-store key k fd u.inherit_fd_map (p.kept k i);
    }

-- Opening one more file.
pub Passes-register :
    (s : Inherit) (c : Bool) (u : Inherit) (key path : String)
    → Passes s u
    → Passes s (register c key path u)
unfolding register
Passes-register s c u key path p = elim (Option-cases (load key u.inherit_fd_map)) [
  | inr (fd, e) ↦ rw e p
  | inl e ↦ elim (Bool-cases c) [
    | inl f ↦ rw (e, f) (pass_container s u key (3 + length u.extra_files) p)
    | inr f ↦ rw (e, f) (pass_file s u key path p e)
  ]
]

pub Passes-same :
    (s u v : Inherit)
    → Passes s u
    → v.extra_files ≡ u.extra_files
    → v.inherit_fds ≡ u.inherit_fds
    → v.inherit_fd_map ≡ u.inherit_fd_map
    → Passes s v
Passes-same s u v p files numbers map = record {
  opened = p.opened;
  files = files ∙ p.files;
  numbers = numbers ∙ p.numbers;
  distinct = p.distinct;
  new_keys = p.new_keys;
  noted = λ k i. rw map (p.noted k i);
  kept = λ k i. rw map (p.kept k i);
}

-- ===== src/Streamer/Listing.antt =====
-- Readdirnames of internal/cedana/streamer/file.go, called until it answers with the end.
use cedana.Base.{
  ℕ, zero, suc, ◌+◌, ◌-◌, ◌≤◌, String, ◌≡◌, refl, Bool, true, false, Option, none, some, List, [],
  if◌then◌else◌, sym, ◌∷◌, ◌++◌, arith, Dict, length, drop, leb, ltb, Bool-cases, Option-cases, inl,
  inr, load, store,
}
use cedana.Streamer.Fs.{read_only, File, glob, is_root}
use cedana.Streamer.File.{take, Names, names, eof, failed, load_names, readdirnames}

abbrev and_then : Names → List String × Bool → List String × Bool
and_then (names xs) (rest, end) = (xs ++ rest, end)
and_then eof r = ([], true)
and_then failed r = ([], false)

-- All the names that calls with the count `suc n` give, up to the end; the fuel counts calls. Whether the end came.
unfoldable pub list_all :
    ℕ → ℕ → Option (List String) → Dict (List String) → File → List String × Bool
list_all zero n answer cache f = ([], false)
list_all (suc k) n answer cache f =
    let (cache', f', r) = readdirnames (suc n) answer cache f in
    and_then r (list_all k n answer cache' f')

list_all-step :
    (k n : ℕ) (answer : Option (List String)) (cache : Dict (List String)) (f : File)
    → list_all (suc k) n answer cache f
      ≡ and_then (readdirnames (suc n) answer cache f).2 (
          list_all k n answer
            (readdirnames (suc n) answer cache f).0
            (readdirnames (suc n) answer cache f).1)
unfolding list_all
list_all-step k n answer cache f = refl

take-drop : (k : ℕ) (xs : List String) → take k xs ++ drop k xs ≡ xs
unfolding take
take-drop zero xs = refl
take-drop (suc k) [] = refl
take-drop (suc k) (x ∷ xs) = rw (take-drop k xs) refl

drop-drop : (a b c : ℕ) (xs : List String) → a + b ≡ c → drop b (drop a xs) ≡ drop c xs
drop-drop zero b c xs h = rw (let e : b ≡ c = omega (arith, h) in e) refl
drop-drop (suc a) b zero xs h = absurd (omega (arith, h))
drop-drop (suc a) zero (suc c) [] h = refl
drop-drop (suc a) (suc b) (suc c) [] h = refl
drop-drop (suc a) b (suc c) (x ∷ xs) h = drop-drop a b c xs (omega (arith, h))

drop-all : (k : ℕ) (xs : List String) → length xs ≤ k → drop k xs ≡ []
drop-all zero [] h = refl
drop-all zero (x ∷ xs) h = absurd (omega arith)
drop-all (suc k) [] h = refl
drop-all (suc k) (x ∷ xs) h = drop-all k xs (omega (arith, h))

-- A file for the root, with a listing that is loaded.
abbrev pub listed : String → List String → ℕ → File
listed name ns o = record {
  name = name;
  mode = read_only;
  pipe_fd = none;
  dir_names = ns;
  dir_offset = o;
}

module _ (n : ℕ) (answer : Option (List String)) (cache : Dict (List String)) (name : String)
    (root : is_root name ≡ true) (x : String) (xs : List String) where
  readdirnames-eof :
      (o : ℕ)
      → leb (length (x ∷ xs)) o ≡ true
      → readdirnames (suc n) answer cache (listed name (x ∷ xs) o)
        ≡ (cache, listed name (x ∷ xs) o, eof)
  unfolding readdirnames
  readdirnames-eof o h = rw (root, h) refl

  readdirnames-names :
      (o end : ℕ)
      → leb (length (x ∷ xs)) o ≡ false
      → (if ltb (o + suc n) (length (x ∷ xs)) then o + suc n else length (x ∷ xs)) ≡ end
      → readdirnames (suc n) answer cache (listed name (x ∷ xs) o)
        ≡ (cache, listed name (x ∷ xs) end, names (take (end - o) (drop o (x ∷ xs))))
  unfolding readdirnames
  readdirnames-names o end h e = rw (root, h, e) refl

  list_all-end :
      (k o : ℕ)
      → leb (length (x ∷ xs)) o ≡ true
      → list_all (suc k) n answer cache (listed name (x ∷ xs) o) ≡ (drop o (x ∷ xs), true)
  list_all-end k o h =
      rw
        (
          list_all-step k n answer cache (listed name (x ∷ xs) o),
          readdirnames-eof o h,
          drop-all o (x ∷ xs) (ground (arith, h)),
        )
        refl

  list_all-rest :
      (k o : ℕ)
      → length (x ∷ xs) ≤ o + k
      → list_all (suc k) n answer cache (listed name (x ∷ xs) o) ≡ (drop o (x ∷ xs), true)
  list_all-rest zero o h = list_all-end zero o (ground (arith, h))
  list_all-rest (suc k) o h = elim (Bool-cases (leb (length (x ∷ xs)) o)) [
    | inl e ↦ list_all-end (suc k) o e
    | inr e ↦
        let end = if ltb (o + suc n) (length (x ∷ xs)) then o + suc n else length (x ∷ xs) in
        rw
          (
            list_all-step (suc k) n answer cache (listed name (x ∷ xs) o),
            readdirnames-names o end e refl,
            list_all-rest k end (ground (arith, h, e)),
            sym (drop-drop o (end - o) end (x ∷ xs) (ground (arith, h, e))),
            take-drop (end - o) (drop o (x ∷ xs)),
          )
          refl
  ]

module _ (n : ℕ) (answer : Option (List String)) (cache cache' : Dict (List String)) (name : String)
    (root : is_root name ≡ true) where
  readdirnames-loaded :
      (x : String) (xs : List String)
      → load_names answer cache (listed name [] 0) ≡ (cache', listed name (x ∷ xs) 0, true)
      → readdirnames (suc n) answer cache (listed name [] 0)
        ≡ readdirnames (suc n) answer cache' (listed name (x ∷ xs) 0)
  unfolding readdirnames
  readdirnames-loaded x xs e = rw (root, e) refl

  readdirnames-none :
      load_names answer cache (listed name [] 0) ≡ (cache', listed name [] 0, true)
      → (readdirnames (suc n) answer cache (listed name [] 0)).2 ≡ eof
  unfolding readdirnames
  readdirnames-none e = rw (root, e) refl

  list_all-loaded :
      (ns : List String)
      → load_names answer cache (listed name [] 0) ≡ (cache', listed name ns 0, true)
      → list_all (suc (length ns)) n answer cache (listed name [] 0) ≡ (ns, true)
  list_all-loaded [] e =
      rw (list_all-step 0 n answer cache (listed name [] 0), readdirnames-none e) refl
  list_all-loaded (x ∷ xs) e =
      rw
        (
          list_all-step (length (x ∷ xs)) n answer cache (listed name [] 0),
          readdirnames-loaded x xs e,
          sym (list_all-step (length (x ∷ xs)) n answer cache' (listed name (x ∷ xs) 0)),
        )
        (list_all-rest n answer cache' name root x xs (length (x ∷ xs)) 0 (omega arith))

load_names-new :
    (cache : Dict (List String)) (name : String) (ns : List String)
    → load "*" cache ≡ none
    → load_names (some ns) cache (listed name [] 0) ≡ (store "*" ns cache, listed name ns 0, true)
unfolding load_names
load_names-new cache name ns new = rw (new, glob, load_names) refl

load_names-cached :
    (cache : Dict (List String)) (name : String) (answer : Option (List String)) (ns : List String)
    → load "*" cache ≡ some ns
    → load_names answer cache (listed name [] 0) ≡ (cache, listed name ns 0, true)
unfolding load_names
load_names-cached cache name answer ns old = rw (old, glob, load_names) refl

-- The names that a root is listed with: those in the cache, if it has them, and otherwise the answer.
abbrev pub listing : Option (List String) → List String → List String
listing none ns = ns
listing (some ms) ns = ms

-- On a file system for reading, a file for the root that is opened anew and read by calls of
-- Readdirnames with any positive count gives, each once and in order, the names that an earlier listing
-- has left in the cache, or if there are none those that the streamer answers with, and then the end,
-- in at most one call more than there are names.
pub list_all_lem :
    (n : ℕ) (cache : Dict (List String)) (name : String) (ns : List String)
    → is_root name ≡ true
    → let all = listing (load "*" cache) ns in
      list_all (suc (length all)) n (some ns) cache (listed name [] 0) ≡ (all, true)
list_all_lem n cache name ns root = elim (Option-cases (load "*" cache)) [
  | inl e ↦ rw e (
      list_all-loaded n (some ns) cache (store "*" ns cache) name root ns
        (load_names-new cache name ns e))
  | inr (ms, e) ↦ rw e (
      list_all-loaded n (some ns) cache cache name root ms
        (load_names-cached cache name (some ns) ms e))
]

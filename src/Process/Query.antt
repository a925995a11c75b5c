-- ===== src/Process/Query.antt =====
-- The other functions of pkg/utils/process.go that decide something: WaitForPid, WaitForPidCtx, PidExists,
-- PidRunning, CloseCommonFds and Getenv. Environment variables are lists of bytes.
use cedana.Base.{
  ℕ, zero, suc, ◌+◌, ◌<◌, ◌==◌, ◌≡◌, refl, ap, ◌∙◌, subst, String, str_eq, Bool, true, false, not,
  ◌&&◌, ◌||◌, Option, none, some, List, [], ◌∷◌, ◌++◌, All, arith, Bool-cases, inl, inr,
  if◌then◌else◌,
}

-- What gopsutil answers for a PID: that there is no process, that its status cannot be read, or its status.
pub data Poll : Type 0 where
  missing no_status : Poll
  statuses : List String → Poll

-- slices.Contains.
unfoldable pub contains : String → List String → Bool
contains s [] = false
contains s (t ∷ ts) = str_eq t s || contains s ts

unfoldable pub pid_exists : Poll → Bool
pid_exists missing = false
pid_exists no_status = false
pid_exists (statuses ss) = true

unfoldable pub pid_running : Poll → Bool
unfolding contains
pid_running missing = false
pid_running no_status = false
pid_running (statuses ss) = not (contains "zombie" ss)

-- One turn of the loop of WaitForPid: whether it ends.
unfoldable pub has_exited : Poll → Bool
unfolding contains
has_exited missing = true
has_exited no_status = true
has_exited (statuses ss) = contains "zombie" ss

-- WaitForPid, with the answers of its polls: the poll at which it ends, if it does in a number of turns.
unfoldable pub wait_for_pid : (ℕ → Poll) → ℕ → ℕ → Option ℕ
unfolding has_exited
wait_for_pid polls zero k = none
wait_for_pid polls (suc turns) k =
    let later = wait_for_pid polls turns (suc k) in if has_exited (polls k) then some k else later

-- WaitForPidCtx, with a context that may be done at a turn.
unfoldable pub wait_for_pid_ctx : (ℕ → Bool) → (ℕ → Poll) → ℕ → ℕ → Option ℕ
unfolding has_exited
wait_for_pid_ctx expired polls zero k = none
wait_for_pid_ctx expired polls (suc turns) k =
    let later = wait_for_pid_ctx expired polls turns (suc k) in
    if expired k || has_exited (polls k) then some k else later

-- CloseCommonFds, once the files of both processes are listed, as pairs of a path and a descriptor: the
-- descriptors that it closes, and whether it returns nil; `is_pid_file` is strings.Contains(path, ".pid").
unfoldable pub close_matching :
    (String → Bool) → (ℕ → Bool) → String → List (String × ℕ) → List ℕ × Bool
close_matching is_pid_file can_close path [] = ([], true)
close_matching is_pid_file can_close path ((p, fd) ∷ fs) =
    let (closed, good) = close_matching is_pid_file can_close path fs in
    if str_eq path p && is_pid_file path
    then if can_close fd then (fd ∷ closed, good) else ([], false)
    else (closed, good)

unfoldable pub close_common_fds :
    (String → Bool) → (ℕ → Bool) → List (String × ℕ) → List (String × ℕ) → List ℕ × Bool
unfolding close_matching
close_common_fds is_pid_file can_close [] child = ([], true)
close_common_fds is_pid_file can_close ((p, fd) ∷ parent) child =
    let (closed, good) = close_matching is_pid_file can_close p child in
    let (more, fine) = close_common_fds is_pid_file can_close parent child in
    if good then (closed ++ more, fine) else (closed, false)

-- strings.CutPrefix.
unfoldable pub cut_prefix : List ℕ → List ℕ → Option (List ℕ)
cut_prefix [] ys = some ys
cut_prefix (x ∷ xs) [] = none
cut_prefix (x ∷ xs) (y ∷ ys) = let rest = cut_prefix xs ys in if x == y then rest else none

-- The loop of Getenv, from the end of the environment.
unfoldable pub last_with : List ℕ → List (List ℕ) → Option (List ℕ)
unfolding cut_prefix
last_with prefix [] = none
last_with prefix (e ∷ es) = elim (last_with prefix es) [
  | some v ↦ some v
  | none ↦ cut_prefix prefix e
]

abbrev first_or_empty : List (List ℕ) → List ℕ
first_or_empty [] = []
first_or_empty (d ∷ ds) = d

unfoldable pub getenv : List (List ℕ) → List ℕ → List (List ℕ) → List ℕ
unfolding last_with
getenv env key defaults = elim (last_with (key ++ 61 ∷ []) env) [
  | some v ↦ v
  | none ↦ first_or_empty defaults
]

has_exited-running : (p : Poll) → has_exited p ≡ not (pid_running p)
unfolding has_exited pid_running
has_exited-running missing = refl
has_exited-running no_status = refl
has_exited-running (statuses ss) = elim (Bool-cases (contains "zombie" ss)) [
  | inl e ↦ rw e refl
  | inr e ↦ rw e refl
]

-- The wait ends at the first poll at which PidRunning is false.
wait_for_pid-running :
    (polls : ℕ → Poll) (n k : ℕ)
    → ((i : ℕ) → i < n → pid_running (polls (k + i)) ≡ true)
    → pid_running (polls (k + n)) ≡ false
    → wait_for_pid polls (suc n) k ≡ some (k + n)
unfolding wait_for_pid
wait_for_pid-running polls zero k alive gone =
    let here : k + 0 ≡ k = omega arith in
    let done : has_exited (polls k) ≡ true =
      has_exited-running (polls k)
      ∙ ap not (subst (λ j. pid_running (polls j) ≡ false) here gone) in
    rw (done, here) refl
wait_for_pid-running polls (suc n) k alive gone =
    let here : k + 0 ≡ k = omega arith in
    let next : (i : ℕ) → k + suc i ≡ suc k + i = λ i. omega arith in
    let on : has_exited (polls k) ≡ false =
      has_exited-running (polls k)
      ∙ ap not (subst (λ j. pid_running (polls j) ≡ true) here (alive 0 (omega arith))) in
    let rest : wait_for_pid polls (suc n) (suc k) ≡ some (suc k + n) =
      wait_for_pid-running polls n (suc k)
        (λ i l.
          subst (λ j. pid_running (polls j) ≡ true) (next i) (alive (suc i) (omega (arith, l))))
        (subst (λ j. pid_running (polls j) ≡ false) (next n) gone) in
    rw (on, next n) rest

cut_prefix-append : (xs ys : List ℕ) → cut_prefix xs (xs ++ ys) ≡ some ys
unfolding cut_prefix
cut_prefix-append [] ys = refl
cut_prefix-append (x ∷ xs) ys = ground (arith, cut_prefix-append xs ys)

last_with-none :
    (prefix : List ℕ) (es : List (List ℕ))
    → All (λ e. cut_prefix prefix e ≡ none) es
    → last_with prefix es ≡ none
unfolding last_with
last_with-none prefix [] h = refl
last_with-none prefix (e ∷ es) h = rw (last_with-none prefix es h.1, h.0) refl

last_with-append :
    (prefix v : List ℕ) (xs ys : List (List ℕ))
    → All (λ e. cut_prefix prefix e ≡ none) ys
    → last_with prefix (xs ++ (prefix ++ v) ∷ ys) ≡ some v
unfolding last_with
last_with-append prefix v [] ys h = rw (last_with-none prefix ys h, cut_prefix-append prefix v) refl
last_with-append prefix v (x ∷ xs) ys h = rw (last_with-append prefix v xs ys h) refl

-- Getenv answers the value of the last variable with the key.
pub getenv-append :
    (key v : List ℕ) (xs ys defaults : List (List ℕ))
    → All (λ e. cut_prefix (key ++ 61 ∷ []) e ≡ none) ys
    → getenv (xs ++ ((key ++ 61 ∷ []) ++ v) ∷ ys) key defaults ≡ v
unfolding getenv
getenv-append key v xs ys defaults h = rw (last_with-append (key ++ 61 ∷ []) v xs ys h, getenv) refl

-- ===== src/Job/Stat.antt =====
-- parseStatPIDPPID of pkg/utils/process.go: the PID and the parent's PID in a line of
-- /proc/<pid>/stat. A line is a list of bytes; it is taken to be ASCII where strings.Fields reads it,
-- as the kernel writes it after the command's name.
use mathlib.Core.List.{append-nil, append_assoc}
use cedana.Base.{
  after_last, before_first, Lacks, after_last-append, before_first-append, sym, ℕ, ◌+◌, ◌-◌, ◌*◌,
  ◌^◌, ◌==◌, ltb, leb, Bool, false, not, ◌&&◌, ◌||◌, ◌≡◌, refl, ◌∙◌, ap, Option, none, some, List,
  [], ◌∷◌, ◌++◌, All, arith, length, drop, if◌then◌else◌,
}

abbrev pub paren : ℕ
paren = 41

abbrev pub space : ℕ
space = 32

-- The end of the function: two numbers, `ok` being false, or a slice out of range.
pub data Parsed : Type 0 where
  parsed : ℕ → ℕ → Parsed
  rejected panicked : Parsed

-- The ASCII characters that strings.Fields splits at: tab, line feed, vertical tab, form feed,
-- carriage return and space.
abbrev pub is_space : ℕ → Bool
is_space c = c == space || (leb 9 c && leb c 13)

abbrev pub put_word : List ℕ → List (List ℕ) → List (List ℕ)
put_word [] ws = ws
put_word (c ∷ cs) ws = (c ∷ cs) ∷ ws

-- strings.Fields, after the bytes `word` of a field that is not over.
unfoldable pub fields_from : List ℕ → List ℕ → List (List ℕ)
fields_from word [] = put_word word []
fields_from word (c ∷ cs) =
    let on = fields_from [] cs in
    let longer = fields_from (word ++ c ∷ []) cs in if is_space c then put_word word on else longer

-- strconv.ParseUint with base 10 and 32 bits, after digits of the value `n`.
unfoldable pub parse_digits : ℕ → List ℕ → Option ℕ
parse_digits n [] = some n
parse_digits n (c ∷ cs) =
    let m = n * 10 + (c - 48) in
    let on = parse_digits m cs in
    if not (leb 48 c && leb c 57) then none else if ltb m (2 ^ 32) then on else none

unfoldable pub parse_uint : List ℕ → Option ℕ
unfolding parse_digits
parse_uint [] = none
parse_uint (c ∷ cs) = parse_digits 0 (c ∷ cs)

abbrev pub second : List (List ℕ) → Option (List ℕ)
second [] = none
second (w ∷ []) = none
second (w ∷ v ∷ ws) = some v

abbrev pub pair_up : Option ℕ → Option ℕ → Parsed
pair_up none q = rejected
pair_up (some p) none = rejected
pair_up (some p) (some q) = parsed p q

abbrev pub parse_second : Option (List ℕ) → Option ℕ
parse_second none = none
parse_second (some w) = parse_uint w

unfoldable pub parse_stat : List ℕ → Parsed
unfolding after_last before_first fields_from parse_uint
parse_stat s = elim (after_last paren s) [
  | none ↦ rejected
  | some tail ↦ if leb (length tail) 1 then rejected else elim (before_first space s) [
    | none ↦ panicked
    | some head ↦ pair_up (parse_uint head) (parse_second (second (fields_from [] (drop 1 tail))))
  ]
]

abbrev pub NoSpace : List ℕ → Type 0
NoSpace = All (λ c. is_space c ≡ false)

fields_from-append :
    (word xs ys : List ℕ)
    → NoSpace xs
    → fields_from word (xs ++ space ∷ ys) ≡ put_word (word ++ xs) (fields_from [] ys)
unfolding fields_from
fields_from-append word [] ys h = rw (append-nil word) refl
fields_from-append word (x ∷ xs) ys h = rw h.0 (
    fields_from-append (word ++ x ∷ []) xs ys h.1
    ∙ ap (λ w. put_word w (fields_from [] ys)) (append_assoc word (x ∷ []) xs))

-- The fields after the command's name: the state, the parent's PID and the rest.
abbrev pub fields_of : ℕ → List ℕ → List ℕ → List ℕ
fields_of state ppid rest = state ∷ space ∷ (ppid ++ space ∷ rest)

-- A line of the kernel: the PID, the name of the command in parentheses, and the other fields.
abbrev pub stat_line : List ℕ → List ℕ → List ℕ → List ℕ
stat_line pid comm fields = pid ++ space ∷ 40 ∷ (comm ++ paren ∷ space ∷ fields)

second_field :
    (state d : ℕ) (ds rest : List ℕ)
    → is_space state ≡ false
    → NoSpace (d ∷ ds)
    → second (fields_from [] (fields_of state (d ∷ ds) rest)) ≡ some (d ∷ ds)
second_field state d ds rest s n =
    rw
      (
        fields_from-append [] (state ∷ []) ((d ∷ ds) ++ space ∷ rest) (s, tt),
        fields_from-append [] (d ∷ ds) rest n,
      )
      refl

tail_of :
    (pid comm fields : List ℕ)
    → Lacks paren fields
    → after_last paren (stat_line pid comm fields) ≡ some (space ∷ fields)
tail_of pid comm fields h =
    ap (after_last paren) (sym (append_assoc pid (space ∷ 40 ∷ comm) (paren ∷ space ∷ fields)))
    ∙ after_last-append paren (pid ++ space ∷ 40 ∷ comm) (space ∷ fields) (refl, h)

-- Of a line that the kernel writes, the function parses the first field and the fourth, whatever
-- bytes the command's name has, parentheses and spaces included: it succeeds exactly if both are
-- decimal numbers of 32 bits. (The PID has no space, the state and the parent's PID are not empty and
-- have none, and no field after the name has a closing parenthesis.)
pub parse_stat-line :
    (pid comm : List ℕ) (state d : ℕ) (ds rest : List ℕ)
    → Lacks space pid
    → is_space state ≡ false
    → NoSpace (d ∷ ds)
    → Lacks paren (fields_of state (d ∷ ds) rest)
    → parse_stat (stat_line pid comm (fields_of state (d ∷ ds) rest))
      ≡ pair_up (parse_uint pid) (parse_uint (d ∷ ds))
unfolding parse_stat
parse_stat-line pid comm state d ds rest p s n l =
    rw
      (
        tail_of pid comm (fields_of state (d ∷ ds) rest) l,
        long space state (space ∷ ((d ∷ ds) ++ space ∷ rest)),
        before_first-append space pid (40 ∷ (comm ++ paren ∷ space ∷ fields_of state (d ∷ ds) rest))
            p,
        second_field state d ds rest s n,
        parse_stat,
      )
      refl
  where
    long : (a b : ℕ) (xs : List ℕ) → leb (length (a ∷ b ∷ xs)) 1 ≡ false
    long a b xs = ground arith

-- ===== src/Db/Ids.antt =====
-- pkg/utils/slice.go (Uint32ToStringSlice, StringToUint32Slice), with strings.Join and strings.Split
-- on commas: the texts that the database keeps lists of user and group ids as.
use cedana.Base.{
  ℕ, ◌^◌, ◌<◌, ◌==◌, ltb, ◌≡◌, refl, true, false, List, [], ◌∷◌, ◌++◌, if◌then◌else◌, All, All-map,
  arith, decimal, decimal-value, decimal-digits, value_from, is_digit, Lacks,
}

abbrev pub comma : ℕ
comma = 44

unfoldable pub to_strings : List ℕ → List (List ℕ)
unfolding decimal
to_strings [] = []
to_strings (n ∷ ns) = decimal n ∷ to_strings ns

-- strings.Join.
unfoldable pub joined : List (List ℕ) → List ℕ
joined [] = []
joined (x ∷ []) = x
joined (x ∷ y ∷ ys) = x ++ comma ∷ joined (y ∷ ys)

abbrev extend : ℕ → List (List ℕ) → List (List ℕ)
extend c [] = (c ∷ []) ∷ []
extend c (x ∷ xs) = (c ∷ x) ∷ xs

-- strings.Split: an empty text is one empty part.
unfoldable pub parts : List ℕ → List (List ℕ)
parts [] = [] ∷ []
parts (c ∷ cs) = let rest = parts cs in if c == comma then [] ∷ rest else extend c rest

-- The digits that a text starts with.
unfoldable pub leading_digits : List ℕ → List ℕ
leading_digits [] = []
leading_digits (c ∷ cs) = let rest = leading_digits cs in if is_digit c then c ∷ rest else []

-- Sscanf with %d into a uint32 that is 0, on a text without blanks: the number that it starts with;
-- without one, or with one that does not fit, an error, which is ignored, and 0.
unfoldable pub scan_uint32 : List ℕ → ℕ
unfolding leading_digits value_from
scan_uint32 cs = let n = value_from 0 (leading_digits cs) in if ltb n (2 ^ 32) then n else 0

unfoldable pub to_uint32s : List (List ℕ) → List ℕ
unfolding scan_uint32
to_uint32s [] = []
to_uint32s (x ∷ xs) = scan_uint32 x ∷ to_uint32s xs

-- How PutJob stores a list, and how fromDBJobRow reads it.
unfoldable pub encode_ids : List ℕ → List ℕ
unfolding joined to_strings
encode_ids ns = joined (to_strings ns)

unfoldable pub decode_ids : List ℕ → List ℕ
unfolding parts to_uint32s
decode_ids text = to_uint32s (parts text)

-- What becomes of a list that is stored: an empty one comes back as one id, the root user's or group's.
abbrev pub stored_ids : List ℕ → List ℕ
stored_ids [] = 0 ∷ []
stored_ids (n ∷ ns) = n ∷ ns

abbrev pub IsUint32 : ℕ → Type 0
IsUint32 n = n < 2 ^ 32

parts-Lacks : (x : List ℕ) → Lacks comma x → parts x ≡ x ∷ []
unfolding parts
parts-Lacks [] h = refl
parts-Lacks (c ∷ cs) h = rw (h.0, parts-Lacks cs h.1) refl

parts-append : (x ys : List ℕ) → Lacks comma x → parts (x ++ comma ∷ ys) ≡ x ∷ parts ys
unfolding parts
parts-append [] ys h = refl
parts-append (c ∷ cs) ys h = rw (h.0, parts-append cs ys h.1) refl

decimal-Lacks : (n : ℕ) → Lacks comma (decimal n)
decimal-Lacks n =
    All-map (λ c. is_digit c ≡ true) (λ c. (c == comma) ≡ false) (λ c d. ground arith) (decimal n)
      (decimal-digits n)

parts-encode : (n : ℕ) (ns : List ℕ) → parts (encode_ids (n ∷ ns)) ≡ to_strings (n ∷ ns)
unfolding encode_ids to_strings joined
parts-encode n [] = parts-Lacks (decimal n) (decimal-Lacks n)
parts-encode n (m ∷ ns) =
    rw (parts-append (decimal n) (encode_ids (m ∷ ns)) (decimal-Lacks n), parts-encode m ns) refl

leading_digits-All : (cs : List ℕ) → All (λ c. is_digit c ≡ true) cs → leading_digits cs ≡ cs
unfolding leading_digits
leading_digits-All [] h = refl
leading_digits-All (c ∷ cs) h = rw (h.0, leading_digits-All cs h.1) refl

scan-decimal : (n : ℕ) → n < 2 ^ 32 → scan_uint32 (decimal n) ≡ n
unfolding scan_uint32
scan-decimal n h =
    rw (leading_digits-All (decimal n) (decimal-digits n), decimal-value n) (ground arith)

to_uint32s-to_strings : (ns : List ℕ) → All IsUint32 ns → to_uint32s (to_strings ns) ≡ ns
unfolding to_uint32s to_strings
to_uint32s-to_strings [] h = refl
to_uint32s-to_strings (n ∷ ns) h = rw (scan-decimal n h.0, to_uint32s-to_strings ns h.1) refl

decode_ids-nil : decode_ids (encode_ids []) ≡ 0 ∷ []
unfolding decode_ids encode_ids
decode_ids-nil = refl

-- A list of 32-bit ids is read back from the text it is stored as, but an empty list as the list of
-- the id 0.
pub decode_ids-encode_ids :
    (ns : List ℕ) → All IsUint32 ns → decode_ids (encode_ids ns) ≡ stored_ids ns
unfolding decode_ids
decode_ids-encode_ids [] h = decode_ids-nil
decode_ids-encode_ids (n ∷ ns) h = rw (parts-encode n ns, to_uint32s-to_strings (n ∷ ns) h) refl

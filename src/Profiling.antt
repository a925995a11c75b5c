-- ===== src/Profiling.antt =====
-- pkg/profiling/data.go: the tree of timings of a request, which is cleaned and flattened before it is
-- sent to the client, and the totals that the client prints. Durations and sizes are int64: their bit
-- patterns stand here, and they wrap at 2^64.
pub mod Cleaned
pub mod Flat
pub mod Trailer
use Prim.Native.String.{◌++◌ as text_append}
use cedana.Base.{
  ℕ, ◌+◌, ◌-◌, ◌%◌, ◌^◌, ◌==◌, String, str_eq, Bool, true, false, not, ◌&&◌, ◌||◌, if◌then◌else◌,
}

-- The fields of Data, but for the components.
pub record Info : Type 0 where
  pub name : String
  pub duration : ℕ
  pub io : ℕ
  pub parallel : Bool
  pub redundant : Bool
  pub io_redundant : Bool

mutual
  pub data Data : Type 0 where
    data_of : Info → Components → Data

  pub data Components : Type 0 where
    none_left : Components
    next : Data → Components → Components

abbrev pub info : Data → Info
info (data_of i cs) = i

abbrev pub components : Data → Components
components (data_of i cs) = cs

abbrev pub append : Components → Components → Components
append none_left ds = ds
append (next c cs) ds = next c (append cs ds)

-- Subtraction of int64.
abbrev pub sub64 : ℕ → ℕ → ℕ
sub64 a b = (a + (2 ^ 64 - b)) % 2 ^ 64

-- Whether a component counts towards durations.
abbrev pub is_serial : Info → Bool
is_serial i = not (i.parallel || i.redundant)

-- data.Duration -= component.Duration, of serial components.
unfoldable pub take_off : Info → Info → Info
take_off c i = if is_serial c then record i { duration = sub64 i.duration c.duration } else i

-- component.Components = nil.
abbrev pub leaf : Data → Data
leaf (data_of i cs) = data_of i none_left

-- The names of the components after a category.
unfoldable pub prefix_all : String → Components → Components
prefix_all name none_left = none_left
prefix_all name (next (data_of i cs) ds) =
    next (data_of (record i { name = text_append name (text_append ":" i.name) }) cs)
      (prefix_all name ds)

unfoldable pub rename : Data → Data
unfolding prefix_all
rename (data_of i cs) =
    if i.duration == 0 && not (str_eq i.name "")
    then data_of i (prefix_all i.name cs)
    else data_of i cs

-- Flatten, and its loop, after components that have become the list `done`.
unfoldable mutual
  unfolding rename take_off

  pub flatten : Data → Data
  flatten (data_of i cs) = rename (flatten_all i none_left cs)

  pub flatten_all : Info → Components → Components → Data
  flatten_all i done none_left = data_of i done
  flatten_all i done (next c cs) =
      let d : Data = flatten c in
      flatten_all (take_off (info c) i) (append done (next (leaf d) (components d))) cs

-- Whether a component is collapsed.
abbrev pub is_wrapper : Info → Bool
is_wrapper i = i.duration == 0 && i.io == 0 && str_eq i.name ""

abbrev pub put_clean : Data → Components → Components
put_clean c rest = if is_wrapper (info c) then append (components c) rest else next c rest

-- Clean.
unfoldable mutual
  pub clean : Data → Data
  clean (data_of i cs) = data_of i (clean_all cs)

  pub clean_all : Components → Components
  clean_all none_left = none_left
  clean_all (next c cs) = put_clean (clean c) (clean_all cs)

-- The loop of Print, as far as the totals: of durations, and of IO.
unfoldable pub print_duration : ℕ → Components → ℕ
print_duration total none_left = total
print_duration total (next c cs) =
    let i : Info = info c in
    let skipped : Bool = i.duration == 0 && i.io == 0 in
    let n : ℕ = if i.parallel || i.redundant then 0 else i.duration in
    print_duration (if skipped then total else (total + n) % 2 ^ 64) cs

unfoldable pub print_io : ℕ → Components → ℕ
print_io total none_left = total
print_io total (next c cs) =
    let i : Info = info c in
    let skipped : Bool = i.duration == 0 && i.io == 0 in
    let n : ℕ = if i.redundant || i.io_redundant then 0 else i.io in
    print_io (if skipped then total else (total + n) % 2 ^ 64) cs

-- What AttachTrailer makes of the data.
unfoldable pub attach_trailer : Data → Data
unfolding clean flatten
attach_trailer d = flatten (clean d)

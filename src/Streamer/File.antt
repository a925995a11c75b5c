-- ===== src/Streamer/File.antt =====
-- internal/cedana/streamer/file.go: the methods of File.
use cedana.Base.{
  ℕ, zero, suc, ◌+◌, ◌-◌, String, ltb, leb, Bool, true, false, not, Option, none, some, List, [],
  ◌∷◌, ◌++◌, if◌then◌else◌, Dict, length, drop,
}
use cedana.Streamer.Fs.{write_only, File, is_root, is_reading, glob, close}

-- The first elements, at most `n`.
unfoldable pub take : {A : Type 0} → ℕ → List A → List A
take zero xs = []
take (suc n) [] = []
take (suc n) (x ∷ xs) = x ∷ take n xs

-- The loop of Write over what the calls of write answer: how many bytes, or an error. The bytes that
-- went into the pipe, and whether Write succeeds. Where the answers end, it waits.
unfoldable pub write_loop : List ℕ → List (Option ℕ) → List ℕ × Bool
unfolding take
write_loop [] rs = ([], true)
write_loop (c ∷ cs) [] = ([], false)
write_loop (c ∷ cs) (none ∷ rs) = ([], false)
write_loop (c ∷ cs) (some k ∷ rs) =
    let (out, good) = write_loop (drop k (c ∷ cs)) rs in (take k (c ∷ cs) ++ out, good)

unfoldable pub write : File → List ℕ → List (Option ℕ) → List ℕ × Bool
unfolding write_loop
write f p rs = elim f.mode [ write_only ↦ write_loop p rs | _ ↦ ([], false) ]

-- Close, with whether the call of close succeeds: the open descriptors and the file.
unfoldable pub close_file : Bool → File → List ℕ → List ℕ × File × Bool
unfolding close
close_file good f fds = elim f.pipe_fd [
  | none ↦ (fds, f, true)
  | some fd ↦ if good then (close fd fds, record f { pipe_fd = none }, true) else (fds, f, false)
]

pub data Names : Type 0 where
  names : List String → Names
  eof failed : Names

-- Readdirnames once the listing is there; 0 stands for any count that is not positive.
unfoldable pub next_names : ℕ → File → File × Names
unfolding take
next_names zero f =
    let left = drop f.dir_offset f.dir_names in
    (record f { dir_offset = length f.dir_names }, elim left [ [] ↦ eof | x ∷ xs ↦ names (x ∷ xs) ])
next_names (suc n) f =
    let end =
      if ltb (f.dir_offset + suc n) (length f.dir_names)
      then f.dir_offset + suc n
      else length f.dir_names in
    if leb (length f.dir_names) f.dir_offset then (f, eof) else (
      record f { dir_offset = end },
      names (take (end - f.dir_offset) (drop f.dir_offset f.dir_names)),
    )

abbrev loaded : File → Dict (List String) × Option (List String) → Dict (List String) × File × Bool
loaded f (cache, none) = (cache, f, false)
loaded f (cache, some ns) = (cache, record f { dir_names = ns; dir_offset = 0 }, true)

-- The listing is loaded once; an empty one counts as not loaded.
unfoldable pub load_names :
    Option (List String) → Dict (List String) → File → Dict (List String) × File × Bool
unfolding glob
load_names answer cache f = elim f.dir_names [
  | x ∷ xs ↦ (cache, f, true)
  | [] ↦ loaded f (glob f.mode "*" answer cache)
]

unfoldable pub readdirnames :
    ℕ → Option (List String) → Dict (List String) → File → Dict (List String) × File × Names
unfolding load_names next_names is_root
readdirnames n answer cache f =
    let (cache', f', good) = load_names answer cache f in
    let (f'', ns) = next_names n f' in
    if not (is_reading f.mode)
    then (cache, f, failed)
    else if not (is_root f.name)
    then (cache, f, failed)
    else if good
    then (cache', f'', ns)
    else (cache', f', failed)

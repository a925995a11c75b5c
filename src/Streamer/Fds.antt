-- ===== src/Streamer/Fds.antt =====
-- The descriptors of openFd, Create, Open and Close of internal/cedana/streamer: what is open after them.
use cedana.Base.{
  ℕ, String, ◌==◌, ◌≡◌, refl, Bool, true, false, ◌&&◌, Option, none, some, List, [], ◌∷◌, arith,
  if◌then◌else◌, Lacks, Bool-cases, Option-cases, is_some, inl, inr,
}
use cedana.Streamer.Fs.{
  Mode, read_only, write_only, invalid, Socket, close, request_ok, send_fd, request, settle,
  open_fd, file_of, File, open_file, create, is_reading, is_root,
}
use cedana.Streamer.File.{close_file}

close-Lacks : (fd : ℕ) (xs : List ℕ) → Lacks fd xs → close fd xs ≡ xs
unfolding close
close-Lacks fd [] h = refl
close-Lacks fd (x ∷ xs) h = rw (h.0, close-Lacks fd xs h.1) refl

close-cons : (fd : ℕ) (xs : List ℕ) → Lacks fd xs → close fd (fd ∷ xs) ≡ xs
unfolding close
close-cons fd xs h = ground (arith, close-Lacks fd xs h)

close-other : (fd x : ℕ) (xs : List ℕ) → (x == fd) ≡ false → close fd (x ∷ xs) ≡ x ∷ close fd xs
unfolding close
close-other fd x xs h = rw h refl

-- The end that the process keeps.
abbrev our_end : Mode → ℕ → ℕ → ℕ
our_end read_only r w = r
our_end _ r w = w

abbrev is_valid : Mode → Bool
is_valid (invalid m) = false
is_valid _ = true

-- The descriptors that are open after the file, if there is one, is closed.
abbrev pub after_close : List ℕ × Option File → List ℕ
after_close (fds, none) = fds
after_close (fds, some f) = (close_file true f fds).0

close-file_of :
    (name : String) (mode : Mode) (fd : ℕ) (fds : List ℕ)
    → Lacks fd fds
    → (good : Bool)
    → after_close (file_of name mode (if good then (fd ∷ fds, some fd) else (fds, none))) ≡ fds
unfolding file_of close_file
close-file_of name mode fd fds new true = close-cons fd fds new
close-file_of name mode fd fds new false = refl

-- Whether openFd comes to its last return, once the pipe is there.
abbrev returns_ours : Mode → Socket → Bool
returns_ours mode s = request_ok mode s && is_some s.sock_file && s.fd_sent

-- A descriptor that conn.File makes is none of those that are open.
abbrev pub SockIsNew : Option ℕ → List ℕ → Type 0
SockIsNew none fds = Unit
SockIsNew (some sock) fds = Lacks sock fds

send_fd_lem :
    (s : Socket) (fds : List ℕ)
    → SockIsNew s.sock_file fds
    → send_fd s fds ≡ (fds, is_some s.sock_file && s.fd_sent)
unfolding send_fd
send_fd_lem s fds new = elim (Option-cases s.sock_file) [
  | inl e ↦ rw (e, send_fd) refl
  | inr (sock, e) ↦ rw (e, send_fd) (rw (close-cons sock fds (rw e at new)) refl)
]

request_lem :
    (mode : Mode) (s : Socket) (fds : List ℕ)
    → SockIsNew s.sock_file fds
    → request mode s fds ≡ (fds, returns_ours mode s)
unfolding request
request_lem mode s fds new = elim (Bool-cases (request_ok mode s)) [
  | inl e ↦ rw e (send_fd_lem s fds new)
  | inr e ↦ rw e refl
]

module _ (r w : ℕ) (fds : List ℕ) (apart : (r == w) ≡ false) (new_r : Lacks r fds)
    (new_w : Lacks w fds) where
  settle-reading :
      (good : Bool)
      → settle w r (r ∷ w ∷ fds, good) ≡ (if good then (r ∷ fds, some r) else (fds, none))
  unfolding settle
  settle-reading true = rw (close-other w r (w ∷ fds) apart, close-cons w fds new_w) refl
  settle-reading false =
      rw (close-other w r (w ∷ fds) apart, close-cons w fds new_w, close-cons r fds new_r) refl

  close-pair : close r (r ∷ w ∷ fds) ≡ w ∷ fds
  close-pair = close-cons r (w ∷ fds) (ground (arith, apart), new_r)

  settle-writing :
      (good : Bool)
      → settle r w (r ∷ w ∷ fds, good) ≡ (if good then (w ∷ fds, some w) else (fds, none))
  unfolding settle
  settle-writing true = rw close-pair refl
  settle-writing false = rw (close-pair, close-cons w fds new_w) refl

  -- Where the pipe is made of two new descriptors, and that of conn.File is new too, openFd leaves open
  -- the end that it returns, and no other new descriptor on any error.
  pub open_fd_lem :
      (mode : Mode) (s : Socket)
      → is_valid mode ≡ true
      → s.pipe ≡ some (r, w)
      → SockIsNew s.sock_file (r ∷ w ∷ fds)
      → open_fd mode s fds ≡ (
          if returns_ours mode s
          then (our_end mode r w ∷ fds, some (our_end mode r w))
          else (fds, none))
  unfolding open_fd
  open_fd_lem read_only s v p new =
      rw (p, request_lem read_only s (r ∷ w ∷ fds) new) (settle-reading (returns_ours read_only s))
  open_fd_lem write_only s v p new =
      rw (p, request_lem write_only s (r ∷ w ∷ fds) new)
        (settle-writing (returns_ours write_only s))
  open_fd_lem (invalid m) s v p new = ground arith

  our_end-new : (mode : Mode) → Lacks (our_end mode r w) fds
  our_end-new read_only = new_r
  our_end-new write_only = new_w
  our_end-new (invalid m) = new_w

  -- For a file system for reading or for writing, an Open that fails, and an Open whose file is
  -- closed, leave the descriptors that were open before, where the pipe is made of two new ones, and
  -- the descriptor that conn.File makes of the socket's, if it makes one, is new too.
  pub open_file-close_file :
      (mode : Mode) (name : String) (s : Socket)
      → is_valid mode ≡ true
      → s.pipe ≡ some (r, w)
      → SockIsNew s.sock_file (r ∷ w ∷ fds)
      → after_close (open_file mode name s fds) ≡ fds
  unfolding open_file close_file
  open_file-close_file mode name s v p new = elim (Bool-cases (is_root name && is_reading mode)) [
    | inl e ↦ rw e refl
    | inr e ↦
        rw (e, open_fd_lem mode s v p new)
          (close-file_of name mode (our_end mode r w) fds (our_end-new mode) (returns_ours mode s))
  ]

  -- The same of Create, also where it refuses a file system for reading.
  create-close_file :
      (mode : Mode) (name : String) (s : Socket)
      → s.pipe ≡ some (r, w)
      → SockIsNew s.sock_file (r ∷ w ∷ fds)
      → after_close (create mode name s fds) ≡ fds
  unfolding create
  create-close_file read_only name s p new = refl
  create-close_file write_only name s p new =
      rw (open_fd_lem write_only s refl p new)
        (close-file_of name write_only w fds new_w (returns_ours write_only s))
  create-close_file (invalid m) name s p new = refl

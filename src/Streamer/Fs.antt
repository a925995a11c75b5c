-- ===== src/Streamer/Fs.antt =====
-- internal/cedana/streamer/fs.go: the methods of Fs. The socket to the image streamer enters as what
-- the calls on it do; open file descriptors of the process are a list of numbers.
use cedana.Base.{
  ℕ, String, ◌==◌, str_eq, Bool, true, false, ◌&&◌, ◌||◌, not, Option, none, some, List, [], ◌∷◌,
  if◌then◌else◌, Dict, load, store,
}

pub data Mode : Type 0 where
  read_only write_only : Mode
  invalid : ℕ → Mode

-- A reading of waitForStreamerReady from the socket: a call that fails (or a message that is cut or
-- not decodable), an answer without a status, which has `exists`, or an answer with a status. An answer without a
-- status, for a file that exists, does not end the loop.
pub data Reply : Type 0 where
  failed : Reply
  plain : Bool → Reply
  does_not_exist not_ready ready other_status : Reply

-- The loop of waitForStreamerReady: whether the file is there. A socket that has no more to say is a
-- call that fails.
unfoldable pub wait_ready : List Reply → Bool
wait_ready [] = false
wait_ready (failed ∷ rs) = false
wait_ready (plain false ∷ rs) = false
wait_ready (plain true ∷ rs) = wait_ready rs
wait_ready (does_not_exist ∷ rs) = false
wait_ready (not_ready ∷ rs) = wait_ready rs
wait_ready (ready ∷ rs) = true
wait_ready (other_status ∷ rs) = false

-- What openFd meets: the ends of the pipe (for reading, for writing), whether the request is encoded
-- and written, the answers, the descriptor that conn.File makes of the socket's, if it works, and whether
-- the message with the streamer's end is sent.
pub record Socket : Type 0 where
  pub pipe : Option (ℕ × ℕ)
  pub encoded : Bool
  pub size_written : Bool
  pub name_written : Bool
  pub replies : List Reply
  pub sock_file : Option ℕ
  pub fd_sent : Bool

unfoldable pub close : ℕ → List ℕ → List ℕ
close fd [] = []
close fd (x ∷ xs) = let rest = close fd xs in if x == fd then rest else x ∷ rest

-- Whether the request is written, and for reading the file is there.
unfoldable pub request_ok : Mode → Socket → Bool
unfolding wait_ready
request_ok mode s =
    s.encoded
    && s.size_written
    && s.name_written
    && (elim mode [ read_only ↦ wait_ready s.replies | _ ↦ true ])

-- From conn.File on: its descriptor is open while the streamer's end is sent, and then closed.
unfoldable pub send_fd : Socket → List ℕ → List ℕ × Bool
unfolding close
send_fd s fds = elim s.sock_file [
  | none ↦ (fds, false)
  | some sock ↦ (close sock (sock ∷ fds), s.fd_sent)
]

unfoldable pub request : Mode → Socket → List ℕ → List ℕ × Bool
unfolding request_ok send_fd
request mode s fds = if request_ok mode s then send_fd s fds else (fds, false)

-- The deferred calls: the streamer's end is closed, and ours too on an error.
unfoldable pub settle : ℕ → ℕ → List ℕ × Bool → List ℕ × Option ℕ
unfolding close
settle streamer_fd our_fd (fds, good) =
    let rest = close streamer_fd fds in
    if good then (rest, some our_fd) else (close our_fd rest, none)

-- openFd: the open descriptors, and the one that is returned.
unfoldable pub open_fd : Mode → Socket → List ℕ → List ℕ × Option ℕ
unfolding request settle
open_fd mode s fds = elim s.pipe [
  | none ↦ (fds, none)
  | some (r, w) ↦ elim mode [
    | read_only ↦ settle w r (request read_only s (r ∷ w ∷ fds))
    | write_only ↦ settle r w (request write_only s (r ∷ w ∷ fds))
    | invalid n ↦ (r ∷ w ∷ fds, none)
  ]
]

-- A File: its name, its mode, its descriptor (`none` for the -1 of a directory or a closed file), and
-- the listing with the position in it.
pub record File : Type 0 where
  pub name : String
  pub mode : Mode
  pub pipe_fd : Option ℕ
  pub dir_names : List String
  pub dir_offset : ℕ

abbrev pub new_file : String → Mode → Option ℕ → File
new_file name mode fd = record {
  name = name;
  mode = mode;
  pipe_fd = fd;
  dir_names = [];
  dir_offset = 0;
}

-- The file of a descriptor, where there is one.
unfoldable pub file_of : String → Mode → List ℕ × Option ℕ → List ℕ × Option File
file_of name mode (fds, none) = (fds, none)
file_of name mode (fds, some fd) = (fds, some (new_file name mode (some fd)))

unfoldable pub create : Mode → String → Socket → List ℕ → List ℕ × Option File
unfolding open_fd file_of
create write_only name s fds = file_of name write_only (open_fd write_only s fds)
create mode name s fds = (fds, none)

unfoldable pub is_root : String → Bool
is_root name = str_eq name "." || str_eq name "/" || str_eq name ""

abbrev pub is_reading : Mode → Bool
is_reading read_only = true
is_reading _ = false

unfoldable pub open_file : Mode → String → Socket → List ℕ → List ℕ × Option File
unfolding open_fd is_root file_of
open_file mode name s fds =
    if is_root name && is_reading mode
    then (fds, some (new_file name mode none))
    else file_of name mode (open_fd mode s fds)

-- Stat: only the root of a file system for reading can be looked at.
unfoldable pub stat : Mode → String → Bool
unfolding is_root
stat mode name = is_root name && is_reading mode

-- glob, with what the streamer answers; an answer is kept in the cache.
unfoldable pub glob :
    Mode
    → String
    → Option (List String)
    → Dict (List String)
    → Dict (List String) × Option (List String)
glob mode pattern answer cache =
    if not (is_reading mode) then (cache, none) else elim (load pattern cache) [
      | some names ↦ (cache, some names)
      | none ↦ elim answer [
        | none ↦ (cache, none)
        | some names ↦ (store pattern names cache, some names)
      ]
    ]

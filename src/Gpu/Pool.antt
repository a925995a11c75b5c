-- ===== src/Gpu/Pool.antt =====
-- internal/cedana/gpu/controller.go: the pool of controllers.
use cedana.Base.{
  ℕ, String, ◌==◌, str_eq, Bool, true, false, not, Option, none, some, List, [], ◌∷◌, if◌then◌else◌,
  Dict, load, store, delete, values,
}
use cedana.Gpu.Controller.{
  Controller, Status, stale, free, busy, Reason, Info, Env, status, book, refresh, refresh_counted,
}

abbrev pub Pool : Type 0
Pool = Dict Controller

unfoldable pub get : String → Pool → Option Controller
get id p = load id p

unfoldable pub find_in : ℕ → List Controller → Option Controller
find_in pid [] = none
find_in pid (c ∷ cs) = if c.attached_pid == pid then some c else find_in pid cs

-- Find: a controller that is attached to the PID.
unfoldable pub find : ℕ → Pool → Option Controller
unfolding find_in
find pid p = find_in pid (values p)

pub record Groups : Type 0 where
  pub free_ones : List Controller
  pub busy_ones : List Controller
  pub stale_ones : List Controller
  pub reasons : List Reason

abbrev pub no_groups : Groups
no_groups = record { free_ones = []; busy_ones = []; stale_ones = []; reasons = [] }

-- The place of a controller in the lists, by its lock and its status.
unfoldable pub place : Controller → Bool → Status → Reason → Groups → Groups
place c true s r g = record g { busy_ones = c ∷ g.busy_ones }
place c false free r g = record g { free_ones = c ∷ g.free_ones }
place c false busy r g = record g { busy_ones = c ∷ g.busy_ones }
place c false stale r g = record g { stale_ones = c ∷ g.stale_ones; reasons = r ∷ g.reasons }

unfoldable pub put : Env → Controller → Groups → Groups
unfolding place
put env c g = place c c.booking.held_here (status env c).0 (status env c).1 g

unfoldable pub list_in : Env → List Controller → Groups
unfolding put
list_in env [] = no_groups
list_in env (c ∷ cs) = put env c (list_in env cs)

-- List: the controllers grouped by free, busy and stale.
unfoldable pub list : Env → Pool → Groups
unfolding list_in
list env p = list_in env (values p)

-- A socket in the directory of sockets: the id in its name, the owner that os.Stat shows, and what
-- the controller behind it answers.
pub record Entry : Type 0 where
  pub entry_id : String
  pub owner : Option (ℕ × ℕ)
  pub answer : Option Info

unfoldable pub fresh : Entry → ℕ × ℕ → Controller
fresh e (u, g) = record {
  id = e.entry_id;
  pid = 0;
  parent_pid = 0;
  attached_pid = 0;
  shm_size = 0;
  uid = u;
  gid = g;
  booking = record { held_here = false; held_elsewhere = false };
  terminating = false;
  sync_fails = 0;
}

-- One round of Sync, for a controller that is known or was just made.
unfoldable pub sync_known : Entry → Controller → Pool → Pool
unfolding refresh_counted
sync_known e c p =
    if c.booking.held_here then p else store e.entry_id (refresh_counted e.answer c) p

unfoldable pub sync_one : Entry → Pool → Pool
unfolding get sync_known fresh
sync_one e p = if str_eq e.entry_id "" then p else elim (get e.entry_id p) [
  | some c ↦ sync_known e c p
  | none ↦ elim e.owner [ none ↦ p | some o ↦ sync_known e (fresh e o) p ]
]

-- Sync over the sockets found; the rounds that talk to controllers run at once, each on an id of its
-- own.
unfoldable pub sync : List Entry → Pool → Pool
unfolding sync_one
sync [] p = p
sync (e ∷ es) p = sync es (sync_one e p)

-- The loop of Book over the free controllers: the first that can be booked.
unfoldable pub book_in : Env → List Controller → Pool → Pool × Option Controller
unfolding book
book_in env [] p = (p, none)
book_in env (c ∷ cs) p =
    let (c', booked) = book env c in
    let later = book_in env cs (store c.id c' p) in
    if booked then (store c.id c' p, some c') else later

unfoldable pub book_free : Env → Pool → Pool × Option Controller
unfolding list book_in
book_free env p = book_in env (list env p).free_ones p

-- Terminate: nothing if there is no such controller or it is being terminated; otherwise the
-- controller leaves the pool (after its process was signalled and waited for).
unfoldable pub terminate : String → Pool → Pool
unfolding get
terminate id p = elim (get id p) [ none ↦ p | some c ↦ if c.terminating then p else delete id p ]

-- What Spawn meets: the new id, whether its lock could be taken, the PID of the process if it
-- starts, and the first answer of the controller.
pub record Spawned : Type 0 where
  pub new_id : String
  pub lock_taken : Bool
  pub started : Option ℕ
  pub first_answer : Option Info

unfoldable pub newborn : Env → Spawned → Controller
newborn env s = record {
  id = s.new_id;
  pid = 0;
  parent_pid = 0;
  attached_pid = 0;
  shm_size = 0;
  uid = env.own_uid;
  gid = env.own_gid;
  booking = record { held_here = true; held_elsewhere = false };
  terminating = false;
  sync_fails = 0;
}

-- The end of Spawn: a failure after the controller was stored terminates it again.
unfoldable pub keep_new : String → Controller → Bool → Pool → Pool × Option Controller
unfolding terminate
keep_new id c true p = (store id c p, some c)
keep_new id c false p = (terminate id (store id c p), none)

-- Spawn: a new controller, booked.
unfoldable pub spawn : Env → Spawned → Pool → Pool × Option Controller
unfolding newborn refresh keep_new
spawn env s p =
    let c = newborn env s in
    if not s.lock_taken then (p, none) else elim s.started [
      | none ↦ keep_new s.new_id c false p
      | some pid ↦
          let r = refresh s.first_answer (record c { pid = pid; parent_pid = env.own_pid }) in
          keep_new s.new_id r.0 r.1 p
    ]

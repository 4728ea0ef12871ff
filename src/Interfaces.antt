-- ===== src/Interfaces.antt =====
-- What the server calls and does not implement: the sockets of the operating system, the events of
-- libevent, and the hash table of libcuckoo. They are parameters of the model; the laws that
-- theorems need are stated here, and `Reference` meets them.
pub mod Reference
pub mod Line
use multiport_network.Base.{ℕ, ◌≤◌, ◌<◌, ◌≡◌, ◌≢◌, Bool, List, ◌++◌, Option, some, length, take}

-- `read` returns some bytes (none at the end of the stream), or -1 and sets `errno`.
pub data ReadReply : Type 0 where
  got : List ℕ → ReadReply
  failed : (errno : ℕ) → ReadReply

-- `count` is the return value of `write`, 0 also where it returns -1: the server only tests
-- `ret <= 0` and then looks at `errno`.
pub record WriteReply : Type 0 where
  pub count : ℕ
  pub errno : ℕ

-- `Net` is the state of the sockets and of the event loop.
pub record Os (Net : Type 0) : Type 0 where
  pub read : Net → ℕ → ℕ → ReadReply × Net
  pub write : Net → ℕ → List ℕ → WriteReply × Net
  pub event_del : Net → ℕ → Net
  pub close : Net → ℕ → Net

-- A call moves at most as many bytes as it was asked to.
pub record OsLaws {Net : Type 0} (os : Os Net) : Type 0 where
  pub read_bound :
      (n : Net) (fd count : ℕ) (bytes : List ℕ)
      → (os.read n fd count).0 ≡ got bytes
      → length bytes ≤ count
  pub write_bound :
      (n : Net) (fd : ℕ) (bytes : List ℕ) → (os.write n fd bytes).0.count ≤ length bytes

-- libcuckoo::cuckoohash_map<std::string, std::string>; `find` copies the value if it is there.
pub record HashTable (Map : Type 0) : Type 0 where
  pub insert_or_assign : Map → List ℕ → List ℕ → Map
  pub find : Map → List ℕ → Option (List ℕ)

pub record HashTableLaws {Map : Type 0} (ht : HashTable Map) : Type 0 where
  pub find-insert_self : (m : Map) (k v : List ℕ) → ht.find (ht.insert_or_assign m k v) k ≡ some v
  pub find-insert_ne :
      (m : Map) (k j v : List ℕ) → k ≢ j → ht.find (ht.insert_or_assign m k v) j ≡ ht.find m j

-- errno values of Linux (EWOULDBLOCK is EAGAIN), and the signal number that the code compares with.
abbrev pub eagain : ℕ
eagain = 11

abbrev pub ewouldblock : ℕ
ewouldblock = 11

abbrev pub sigpipe : ℕ
sigpipe = 13

abbrev pub emfile : ℕ
emfile = 24

-- The sockets as the clients use them: `none` where `write` or `read` returns -1.
pub record Sockets (Net : Type 0) : Type 0 where
  pub write : Net → ℕ → List ℕ → Option ℕ × Net
  pub read : Net → ℕ → ℕ → Option (List ℕ) × Net

-- How the clients open a connection: `socket` returns `none` for -1, `connect` takes address and
-- port in network byte order, and `false` stands for -1.
pub record Dialer (Net : Type 0) : Type 0 where
  pub socket : Net → Option ℕ × Net
  pub connect : Net → ℕ → (ip port : ℕ) → Bool × Net
  pub set_nonblocking : Net → ℕ → Bool × Net
  pub close : Net → ℕ → Net

-- A non-blocking connection that moves on: `write` appends what it takes to what was sent on that
-- descriptor, and where it takes nothing of some bytes, it is for want of room, and the peer will
-- have made room after at most as many refusals as `stalls` says.
pub record Moves {Net : Type 0} (os : Os Net) (sent : Net → ℕ → List ℕ) (stalls : Net → ℕ)
    : Type 0 where
  pub write_self :
      (n : Net) (fd : ℕ) (bytes : List ℕ)
      → sent (os.write n fd bytes).1 fd ≡ sent n fd ++ take (os.write n fd bytes).0.count bytes
  pub write_other :
      (n : Net) (fd other : ℕ) (bytes : List ℕ)
      → other ≢ fd
      → sent (os.write n fd bytes).1 other ≡ sent n other
  pub write_waits :
      (n : Net) (fd : ℕ) (bytes : List ℕ)
      → 0 < length bytes
      → (os.write n fd bytes).0.count ≡ 0
      → ((os.write n fd bytes).0.errno ≡ eagain) × (stalls (os.write n fd bytes).1 < stalls n)
  pub write_moves :
      (n : Net) (fd : ℕ) (bytes : List ℕ)
      → 0 < (os.write n fd bytes).0.count
      → stalls (os.write n fd bytes).1 ≤ stalls n

-- What a peer has on the way: a read of some bytes takes at least one off the front of what is
-- `incoming` on that descriptor, while there is any; a read sends nothing, and a write reads
-- nothing.
pub record Feeds {Net : Type 0} (os : Os Net) (incoming sent : Net → ℕ → List ℕ) : Type 0 where
  pub read_some :
      (n : Net) (fd count : ℕ)
      → 0 < count
      → 0 < length (incoming n fd)
      → (bytes : List ℕ) × ((os.read n fd count).0 ≡ got bytes)
        × (0 < length bytes)
        × (incoming n fd ≡ bytes ++ incoming (os.read n fd count).1 fd)
  pub read_quiet : (n : Net) (fd count : ℕ) → sent (os.read n fd count).1 fd ≡ sent n fd
  pub write_quiet :
      (n : Net) (fd : ℕ) (bytes : List ℕ) → incoming (os.write n fd bytes).1 fd ≡ incoming n fd

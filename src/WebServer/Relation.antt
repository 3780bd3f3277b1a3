-- ===== src/WebServer/Relation.antt =====
-- When a state of WebServerDemo shows the same as one of reactor.c, and outcomes that agree.
use networking_programming.Base.{
  ℕ, ◌≤◌, ◌≡◌, refl, ap, ◌∙◌, Bool, true, Option, none, some, length, arith, ◌==◌, Bool-cases, inl,
  inr, ==_iff, length-take, drop,
}
use native.Mathlib.Decide.{dec_le}
use networking_programming.Base.Int.{ℤ, pos}
use networking_programming.Base.Counting.{put}
use networking_programming.Memory.{Bytes, ok, slice, patch, splice}
use networking_programming.Memory.Agree.{Agree}
use networking_programming.Memory.Laws.{patch-ok, patch-fault, slice-inv}
use networking_programming.Reactor
use networking_programming.Reactor.{accept_cb, recv_cb, send_cb}
use networking_programming.WebServer.{ConnItem, State, Kind, listens, receives}

-- What a write of the same bytes into two arrays makes of them.
abbrev pub Spliced : Bytes → Bytes → Bytes → Bytes → Bytes → Type 0
Spliced b c xs b' c' =
    (b' ≡ splice b 0 xs) × (c' ≡ splice c 0 xs) × (length xs ≤ length b) × (length xs ≤ length c)

pub patch-Agree :
    (b c xs : Bytes) → length b ≡ length c → Agree (Spliced b c xs) (patch b 0 xs) (patch c 0 xs)
patch-Agree b c xs e = elim (dec_le (length xs) (length c)) [
  | yes fits ↦
      rw (patch-ok b 0 xs (omega arith), patch-ok c 0 xs (omega arith))
        (refl, refl, omega arith, fits)
  | no big ↦ rw (patch-fault b 0 xs (omega arith), patch-fault c 0 xs (omega arith)) tt
]

-- A slice that is known has the length asked for.
pub length-slice : (b xs : Bytes) (n : ℕ) → slice b 0 n ≡ ok xs → length xs ≡ n
length-slice b xs n e =
    let (fits, same) = slice-inv b 0 n e in ap length same ∙ length-take n (drop 0 b) (omega arith)

-- What both servers would send from the entry.
abbrev pub SameOutput : ℤ → Bytes → Bytes → Type 0
SameOutput wlen b c = (n : ℕ) → wlen ≡ pos n → slice b 0 n ≡ slice c 0 n

-- The two entries of a descriptor that has an object, by the object's class. The descriptors in
-- `listening` may have a listening socket.
abbrev pub SameItem : (ℕ → Bool) → ℕ → Reactor.ConnItem → Kind → ConnItem → Type 0
SameItem listening fd r listens c =
    (r.recv_t ≡ some accept_cb) × (c.fd ≡ fd) × (listening fd ≡ true)
SameItem listening fd r receives c =
    (r.recv_t ≡ some recv_cb)
    × (r.send_callback ≡ some send_cb)
    × (c.fd ≡ fd)
    × (r.rbuffer ≡ c.rbuffer)
    × (r.rlen ≡ c.rlen)
    × (r.wlen ≡ c.wlen)
    × (length c.wbuffer ≡ 512)
    × SameOutput r.wlen r.wbuffer c.wbuffer

abbrev pub SameEntry : (ℕ → Bool) → ℕ → Reactor.ConnItem → Option ConnItem → Type 0
SameEntry listening fd r none = (r.recv_t ≡ none) × (r.send_callback ≡ none)
SameEntry listening fd r (some c) = SameItem listening fd r c.kind c

pub record Same {W : Type 0} (listening : ℕ → Bool) (s : Reactor.State W) (t : State W)
    : Type 0 where
  pub world : s.world ≡ t.world
  pub room : (fd : ℕ) → length (s.connlist fd).wbuffer ≡ 512
  pub entry : (fd : ℕ) → SameEntry listening fd (s.connlist fd) (t.conn_list fd)

-- The same change on both sides.
pub put-Same :
    {W : Type 0} {listening : ℕ → Bool} {s : Reactor.State W} {t : State W} (fd : ℕ)
    (r : Reactor.ConnItem) (c : Option ConnItem) {v w : W}
    → Same listening s t
    → v ≡ w
    → length r.wbuffer ≡ 512
    → SameEntry listening fd r c
    → Same listening
        (record { connlist = Reactor.store s.connlist fd r; world = v })
        (record { conn_list = put t.conn_list fd c; world = w })
put-Same {W} {listening} {s} {t} fd r c same worlds long entry = record {
  world = worlds;
  room = λ j. elim (Bool-cases (fd == j)) [
    | inl here ↦ rw here long
    | inr other ↦ rw other (same.room j)
  ];
  entry = λ j. elim (Bool-cases (fd == j)) [
    | inl here ↦ rw here (rw ((==_iff fd j).0 here) at entry)
    | inr other ↦ rw other (same.entry j)
  ];
}

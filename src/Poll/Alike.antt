-- ===== src/Poll/Alike.antt =====
-- When POLL_MODE and SELECT_MODE of multi-io.c watch the same descriptors.
use networking_programming.Base.{
  ℕ, ◌<◌, ◌≡◌, refl, ap, ◌∙◌, Bool, true, false, ◌==◌, ==_iff, Bool-cases, inl, inr,
}
use networking_programming.Base.Int.{ℤ, pos, negsuc}
use networking_programming.Select
use networking_programming.Select.{buffer_size, select_round}
use networking_programming.Poll.{PollFd, State, fds_len, at_start}

-- `poll` looks at an entry for POLLIN if its descriptor is not negative.
abbrev pub watched_of : ℤ → Bool → Bool
watched_of (pos n) events = events
watched_of (negsuc n) events = false

abbrev pub is_watched : PollFd → Bool
is_watched entry = watched_of entry.fd entry.events

pub is_watched-is_watched :
    (a b : PollFd) → a.fd ≡ b.fd → a.events ≡ b.events → is_watched a ≡ is_watched b
is_watched-is_watched a b f e =
    ap (λ (z : ℤ). watched_of z a.events) f ∙ ap (λ (x : Bool). watched_of b.fd x) e

-- Both servers watch the same descriptors, each in its own entry of the array.
pub record Alike {W : Type 0} (s : Select.State W) (t : State W) : Type 0 where
  pub world : s.world ≡ t.world
  pub maxfd : s.maxfd ≡ t.maxfd
  pub range : t.maxfd < fds_len
  pub same_watch : (j : ℕ) → s.rfds j ≡ is_watched (t.fds j)
  pub named : (j : ℕ) → is_watched (t.fds j) ≡ true → (t.fds j).fd ≡ pos j

-- In a round, they also find the same descriptors ready.
abbrev pub Alert : {W : Type 0} → (ℕ → Bool) → Select.State W → State W → Type 0
Alert rset s t = Alike s t × ((j : ℕ) → rset j ≡ (t.fds j).revents)

pub world-Alert :
    {W : Type 0} {rset : ℕ → Bool} {s : Select.State W} {t : State W} (v w : W)
    → Alert rset s t
    → v ≡ w
    → Alert rset (record s { world = v }) (record t { world = w })
world-Alert v w (same, ready) e = (
  record {
    world = e;
    maxfd = same.maxfd;
    range = same.range;
    same_watch = same.same_watch;
    named = same.named;
  },
  ready,
)

-- Before the loops, both watch the listening socket.
pub at_start-Alike :
    {W : Type 0} (sockfd : ℕ) (w : W)
    → sockfd < fds_len
    → Alike (record { rfds = λ j. sockfd == j; maxfd = sockfd; world = w }) (at_start sockfd w)
at_start-Alike sockfd w low = record {
  world = refl;
  maxfd = refl;
  range = low;
  same_watch =
      λ j. elim (Bool-cases (sockfd == j)) [ inl new ↦ rw new refl | inr old ↦ rw old refl ];
  named = λ j e. elim (Bool-cases (sockfd == j)) [
    | inl new ↦ rw new (ap pos ((==_iff sockfd j).0 new))
    | inr old ↦ cc (rw old at e)
  ];
}

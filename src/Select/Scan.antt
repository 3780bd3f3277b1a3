-- ===== src/Select/Scan.antt =====
-- The loop of `multi-io.c` over the descriptors that `select` has found ready.
use networking_programming.Base.{
  ℕ, zero, suc, ◌+◌, ◌≤◌, ◌<◌, ◌≡◌, ◌≢◌, refl, ◌∙◌, ap, Bool, true, false, length, arith, replicate,
  Bool-cases, inl, inr, length-replicate,
}
use native.Mathlib.Decide.{dec_lt}
use networking_programming.Base.Int.{ℤ, pos, negsuc}
use networking_programming.Memory.{Bytes, ok}
use networking_programming.Memory.Laws.{slice-splice, patch-ok}
use networking_programming.Memory.Text.{cstr-short}
use networking_programming.Net.{Os, OsLaws}
use networking_programming.Select.{State, buffer_size, fd_put, received, visit, scan}

-- What the loop over the descriptors from `i` to below `stop` may change of what is watched.
pub record Scanned {W : Type 0} (i stop : ℕ) (rset : ℕ → Bool) (s t : State W) : Type 0 where
  pub maxfd : t.maxfd ≡ s.maxfd
  pub none_added : (j : ℕ) → t.rfds j ≡ true → s.rfds j ≡ true
  pub not_ready : (j : ℕ) → rset j ≡ false → t.rfds j ≡ s.rfds j
  pub below : (j : ℕ) → j < i → t.rfds j ≡ s.rfds j
  pub above : (j : ℕ) → stop ≤ j → t.rfds j ≡ s.rfds j

unchanged :
    {W : Type 0} (i stop : ℕ) (rset : ℕ → Bool) (s : State W) (w : W)
    → Scanned i stop rset s (record s { world = w })
unchanged i stop rset s w = record {
  maxfd = refl;
  none_added = λ j h. h;
  not_ready = λ j h. refl;
  below = λ j h. refl;
  above = λ j h. refl;
}

cleared : (rfds : ℕ → Bool) (i j : ℕ) → fd_put rfds i false j ≡ true → rfds j ≡ true
cleared rfds i j h = ground arith

put_other : (rfds : ℕ → Bool) (i j : ℕ) (b : Bool) → i ≢ j → fd_put rfds i b j ≡ rfds j
put_other rfds i j b h = ground arith

apart : (rset : ℕ → Bool) (i j : ℕ) → rset i ≡ true → rset j ≡ false → i ≢ j
apart rset i j p q e = cc

removed :
    {W : Type 0} (i : ℕ) (rset : ℕ → Bool) (s : State W) (w : W)
    → rset i ≡ true
    → Scanned i (i + 1) rset s (record s { rfds = fd_put s.rfds i false; world = w })
removed i rset s w ready = record {
  maxfd = refl;
  none_added = cleared s.rfds i;
  not_ready = λ j h. put_other s.rfds i j false (apart rset i j ready h);
  below = λ j h. put_other s.rfds i j false (omega arith);
  above = λ j h. put_other s.rfds i j false (omega arith);
}

chain :
    {W : Type 0} (i stop : ℕ) (rset : ℕ → Bool) {s t u : State W}
    → i < stop
    → Scanned i (i + 1) rset s t
    → Scanned (i + 1) stop rset t u
    → Scanned i stop rset s u
chain i stop rset lt p q = record {
  maxfd = q.maxfd ∙ p.maxfd;
  none_added = λ j h. p.none_added j (q.none_added j h);
  not_ready = λ j h. q.not_ready j h ∙ p.not_ready j h;
  below = λ j h. q.below j (omega arith) ∙ p.below j h;
  above = λ j h. q.above j h ∙ p.above j (omega arith);
}

less :
    (bytes : Bytes) (k : ℕ)
    → length bytes ≡ suc k
    → suc k ≤ buffer_size
    → pos (suc k) ≢ pos buffer_size
    → length bytes < buffer_size
less bytes k len fits small = elim (dec_lt (suc k) buffer_size) [
  | yes below ↦ omega arith
  | no above ↦ absurd (small (ap pos (omega arith)))
]

module _ (os : Os) (laws : OsLaws os)
    (alive : (fd n : ℕ) (w : os.World) (k : ℕ) → (os.recv fd n w).0 ≢ negsuc k)
    (short : (fd : ℕ) (w : os.World) → (os.recv fd buffer_size w).0 ≢ pos buffer_size) where
  open os use {World}

  received-Scanned :
      (i : ℕ) (rset : ℕ → Bool) (cnt : ℤ) (bytes : Bytes) (s : State World)
      → rset i ≡ true
      → ((k : ℕ) → cnt ≡ pos k → (length bytes ≡ k) × (k ≤ buffer_size))
      → ((k : ℕ) → cnt ≢ negsuc k)
      → cnt ≢ pos buffer_size
      → (t : State World) × (received os i cnt bytes s ≡ ok t) × Scanned i (i + 1) rset s t
  unfolding received
  received-Scanned i rset (negsuc n) bytes s ready size live small = absurd (live n refl)
  received-Scanned i rset (pos zero) bytes s ready size live small =
      (_, refl, removed i rset s (os.close i s.world) ready)
  received-Scanned i rset (pos (suc k)) bytes s ready size live small =
      let (len, fits) = size (suc k) refl in
      let (text, printed) = cstr-short buffer_size bytes (less bytes k len fits small) in
      (
        record s { world = (os.send i bytes s.world).1 },
        rw (
          patch-ok (replicate buffer_size 0) 0 bytes
              (omega (arith, length-replicate {A = ℕ} buffer_size 0)),
          slice-splice (replicate buffer_size 0) bytes len
              (omega (arith, length-replicate {A = ℕ} buffer_size 0)),
          printed,
        ),
        unchanged i (i + 1) rset s _,
      )

  visit-Scanned :
      (i : ℕ) (rset : ℕ → Bool) (s : State World)
      → (t : State World) × (visit os i rset s ≡ ok t) × Scanned i (i + 1) rset s t
  unfolding visit
  visit-Scanned i rset s = elim (Bool-cases (rset i)) [
    | inl ready ↦
        let (t, e, p) =
          received-Scanned i rset (os.recv i buffer_size s.world).0
            (os.recv i buffer_size s.world).1
            (record s { world = (os.recv i buffer_size s.world).2 }) ready
            (laws.recv_count i buffer_size s.world) (alive i buffer_size s.world)
            (short i s.world) in
        (t, rw ready e, chain_world p)
    | inr idle ↦ (s, rw idle, unchanged i (i + 1) rset s s.world)
  ]
    where
      chain_world :
          {t : State World}
          → Scanned i (i + 1) rset (record s { world = (os.recv i buffer_size s.world).2 }) t
          → Scanned i (i + 1) rset s t
      chain_world p = record {
        maxfd = p.maxfd;
        none_added = p.none_added;
        not_ready = p.not_ready;
        below = p.below;
        above = p.above;
      }

  -- If no `recv` fails, and none fills its array, the loop over `left` descriptors from `i` on ends without undefined
  -- behaviour. It leaves `maxfd`, adds no descriptor to `rfds`, and removes none that is not ready
  -- or not among those `left` descriptors.
  pub scan-Scanned :
      (left i : ℕ) (rset : ℕ → Bool) (s : State World)
      → (t : State World) × (scan os left i rset s ≡ ok t) × Scanned i (i + left) rset s t
  unfolding scan
  scan-Scanned zero i rset s = (s, refl, unchanged i (i + 0) rset s s.world)
  scan-Scanned (suc left) i rset s =
      let (t, e, p) = visit-Scanned i rset s in
      let (u, e', q) = scan-Scanned left (i + 1) rset t in
      (u, rw e e', chain i (i + suc left) rset (omega arith) p (subst_stop q))
    where
      subst_stop :
          {t u : State World}
          → Scanned (i + 1) (i + 1 + left) rset t u
          → Scanned (i + 1) (i + suc left) rset t u
      subst_stop q = record {
        maxfd = q.maxfd;
        none_added = q.none_added;
        not_ready = q.not_ready;
        below = q.below;
        above = λ j h. q.above j (omega arith);
      }

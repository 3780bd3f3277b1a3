-- ===== src/Dns/Client/Owned.antt =====
-- Which blocks and sockets the pointers that epoll holds stand for, and that a commit keeps it so.
use networking_programming.Base.{
  ℕ, ◌+◌, ◌-◌, ◌<◌, ◌≡◌, refl, sym, ap, ◌≢◌, ◌∙◌, Bool, true, false, Option, none, some, ◌==◌,
  arith, Bool-cases, inl, inr, ==_iff,
}
use native.Mathlib.Decide.{dec_le}
use networking_programming.Base.Int.{ℤ, pos, negsuc}
use networking_programming.Base.Counting.{put}
use networking_programming.Memory.{Bytes, IfOk}
use networking_programming.Memory.Post.{IfOk-IfOk}
use networking_programming.Dns.Client.{
  Client, ep_arg, EpArg, Udp, result_callback, register, committed,
}
use networking_programming.Dns.Client.Free.{Fresh}
use networking_programming.Dns.Client.Grown.{Grown, query-Grown}

-- The pointers that epoll holds after a commit that returned the first argument.
abbrev pub watched : ℤ → ℕ → (ℕ → Bool) → ℕ → Bool
watched (pos n) next pending = put pending (next - 1) true
watched (negsuc n) next pending = pending

-- Every pointer that epoll holds is that of an `ep_arg` on the heap with the callback of `main`. Its
-- socket is open, and no other's.
pub record IsOwned {W : Type 0} (pending : ℕ → Bool) (s : Client W) : Type 0 where
  pub fresh : Fresh s.next s.heap
  pub arg :
      (p : ℕ)
      → pending p ≡ true
      → (a : EpArg) × (s.heap p ≡ some (ep_arg a))
        × (a.cb ≡ result_callback)
        × (s.is_open a.sockfd ≡ true)
  pub apart :
      (p q : ℕ) (a b : EpArg)
      → pending p ≡ true
      → pending q ≡ true
      → s.heap p ≡ some (ep_arg a)
      → s.heap q ≡ some (ep_arg b)
      → a.sockfd ≡ b.sockfd
      → p ≡ q

module _ (os : Udp) where
  open os use {World}

  -- A pointer that epoll holds is not that of a later block.
  pub below_next :
      {pending : ℕ → Bool} {s : Client World} (p : ℕ)
      → IsOwned pending s
      → pending p ≡ true
      → p < s.next
  below_next {pending} {s} p owned held = elim (dec_le s.next p) [
    | yes above ↦
        let (a, at, is, opened) = owned.arg p held in
        let free : s.heap p ≡ none = owned.fresh p above in cc
    | no under ↦ omega arith
  ]

  -- A query, and a descriptor that opens, take nothing from the pointers.
  Grown-IsOwned :
      (pending : ℕ → Bool) (s t : Client World) (sockfd : ℕ)
      → IsOwned pending s
      → Grown (record s { is_open = put s.is_open sockfd true }) t
      → IsOwned pending t
  Grown-IsOwned pending s t sockfd owned grown = record {
    fresh = grown.fresh owned.fresh;
    arg = λ p held.
        let (a, at, is, opened) = owned.arg p held in
        (a, grown.kept p (below_next p owned held) ∙ at, is, rw grown.same_open (ground arith));
    apart = λ p q a b hp hq atp atq same.
        owned.apart p q a b hp hq (sym (grown.kept p (below_next p owned hp)) ∙ atp)
          (sym (grown.kept q (below_next q owned hq)) ∙ atq) same;
  }

  -- No pointer that epoll holds is for this socket.
  abbrev Unused : ℕ → (ℕ → Bool) → Client World → Type 0
  Unused sockfd pending s =
      (p : ℕ) (a : EpArg) → pending p ≡ true → s.heap p ≡ some (ep_arg a) → a.sockfd ≢ sockfd

  Grown-Unused :
      (pending : ℕ → Bool) (s t : Client World) (sockfd : ℕ)
      → IsOwned pending s
      → s.is_open sockfd ≡ false
      → Grown (record s { is_open = put s.is_open sockfd true }) t
      → Unused sockfd pending t
  Grown-Unused pending s t sockfd owned closed grown p a held at same =
      let (b, at', is, opened) = owned.arg p held in
      let kept : t.heap p ≡ s.heap p = grown.kept p (below_next p owned held) in
      let one : s.heap p ≡ some (ep_arg a) = sym kept ∙ at in
      let here : a ≡ b = cc in
      let fd : b.sockfd ≡ sockfd = ap (λ (x : EpArg). x.sockfd) (sym here) ∙ same in
      let both : s.is_open sockfd ≡ true = rw fd at opened in cc

  -- The heap with a new `ep_arg` for the socket, which epoll holds or does not.
  abbrev added : ℕ → Client World → World → Client World
  added sockfd s w = record s {
    heap = put s.heap s.next (some (ep_arg (record { sockfd = sockfd; cb = result_callback })));
    next = s.next + 1;
    world = w;
  }

  still_pending :
      (pending : ℕ → Bool) (n p : ℕ)
      → put pending (n + 1 - 1) true p ≡ true
      → (n == p) ≡ false
      → pending p ≡ true
  still_pending pending n p held other =
      let same : n + 1 - 1 ≡ n = omega arith in rw (same, other) at held

  new_arg :
      (s : Client World) (sockfd p : ℕ) (w : World) (a : EpArg)
      → (s.next == p) ≡ true
      → (added sockfd s w).heap p ≡ some (ep_arg a)
      → a.sockfd ≡ sockfd
  new_arg s sockfd p w a here at =
      let is : some (ep_arg (record { sockfd = sockfd; cb = result_callback })) ≡ some (ep_arg a) =
        rw here at at in
      let same : record { sockfd = sockfd; cb = result_callback } ≡ a = cc in
      sym (ap (λ (x : EpArg). x.sockfd) same)

  added-IsOwned :
      (pending : ℕ → Bool) (s : Client World) (sockfd : ℕ) (w : World) (ret : ℤ)
      → IsOwned pending s
      → Unused sockfd pending s
      → s.is_open sockfd ≡ true
      → IsOwned (watched ret (s.next + 1) pending) (added sockfd s w)
  added-IsOwned pending s sockfd w (pos n) owned unused opened = record {
    fresh = λ q above. ground (arith, owned.fresh q);
    arg = λ p held. elim (Bool-cases (s.next == p)) [
      | inl here ↦ (record { sockfd = sockfd; cb = result_callback }, rw here refl, refl, opened)
      | inr other ↦
          let (a, at, is, o) = owned.arg p (still_pending pending s.next p held other) in
          (a, rw other at, is, o)
    ];
    apart = λ p q a b hp hq atp atq same. elim (Bool-cases (s.next == p)) [
      | inl p_new ↦ elim (Bool-cases (s.next == q)) [
        | inl q_new ↦ sym ((==_iff s.next p).0 p_new) ∙ (==_iff s.next q).0 q_new
        | inr q_old ↦ absurd (
            unused q b (still_pending pending s.next q hq q_old) (rw q_old at atq)
              (sym same ∙ new_arg s sockfd p w a p_new atp))
      ]
      | inr p_old ↦ elim (Bool-cases (s.next == q)) [
        | inl q_new ↦ absurd (
            unused p a (still_pending pending s.next p hp p_old) (rw p_old at atp)
              (same ∙ new_arg s sockfd q w b q_new atq))
        | inr q_old ↦
            owned.apart p q a b (still_pending pending s.next p hp p_old)
              (still_pending pending s.next q hq q_old) (rw p_old at atp) (rw q_old at atq) same
      ]
    ];
  }
  added-IsOwned pending s sockfd w (negsuc n) owned unused opened = record {
    fresh = λ q above. ground (arith, owned.fresh q);
    arg = λ p held.
        let (a, at, is, o) = owned.arg p held in
        let under : p < s.next = below_next p owned held in (a, (ground arith), is, o);
    apart = λ p q a b hp hq atp atq same.
        let under : p < s.next = below_next p owned hp in
        let under' : q < s.next = below_next q owned hq in
        owned.apart p q a b hp hq (ground arith) (ground arith) same;
  }

  register-IsOwned :
      (pending : ℕ → Bool) (s : Client World) (sockfd : ℕ)
      → IsOwned pending s
      → Unused sockfd pending s
      → s.is_open sockfd ≡ true
      → IsOwned
          (watched
            (register os sockfd result_callback s).0
            (register os sockfd result_callback s).1.next
            pending)
          (register os sockfd result_callback s).1
  unfolding register
  register-IsOwned pending s sockfd owned unused opened = elim (Bool-cases (os.calloc s.world 0)) [
    | inl there ↦ rw there (
        added-IsOwned pending s sockfd (os.epoll_add sockfd s.next s.world).1
          (os.epoll_add sockfd s.next s.world).0 owned unused opened)
    | inr full ↦ rw full owned
  ]

  -- What is known when `dns_async_client_commit` has returned.
  abbrev pub Returned : (ℕ → Bool) → Option (ℤ × Client World) → Type 0
  Returned pending none = Unit
  Returned pending (some (ret, t)) = IsOwned (watched ret t.next pending) t

  pub committed-IsOwned :
      (pending : ℕ → Bool) (sockfd : ℤ) (domain : Bytes) (s : Client World)
      → ((fd : ℕ) → sockfd ≡ pos fd → s.is_open fd ≡ false)
      → IsOwned pending s
      → IfOk (Returned pending) (committed os sockfd domain result_callback s)
  unfolding committed
  committed-IsOwned pending (negsuc n) domain s closed owned = tt
  committed-IsOwned pending (pos fd) domain s closed owned =
      IfOk-IfOk (Grown (record s { is_open = put s.is_open fd true })) (Returned pending) _ _
        (query-Grown os fd domain (record s { is_open = put s.is_open fd true }))
        λ t grown.
          register-IsOwned pending t fd (Grown-IsOwned pending s t fd owned grown)
            (Grown-Unused pending s t fd owned (closed fd refl) grown)
            (rw grown.same_open (ground arith))

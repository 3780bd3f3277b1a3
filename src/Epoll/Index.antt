-- ===== src/Epoll/Index.antt =====
-- The descriptors on which EPOLL_MODE answers.
use networking_programming.Base.{
  ℕ, zero, suc, ◌+◌, ◌<◌, ◌≡◌, Option, List, [], ◌∷◌, length, replicate, arith, ◌==◌,
}
use networking_programming.Base.Int.{ℤ, pos, negsuc}
use networking_programming.Memory.{Bytes, IfOk, slice, patch, cstr}
use networking_programming.Memory.Post.{IfOk->>=, IfOk-IfOk, IfOk-if}
use networking_programming.Net.{Os, CtlOp, Interest, EpollEvent}
use networking_programming.Select.{buffer_size}
use networking_programming.Epoll.{accepted, received, handle, epoll_round}

-- A condition that the calls keep, if `send` and `close` are for descriptors below `n`.
pub record IsKept (os : Os) (n : ℕ) (P : os.World → Type 0) : Type 0 where
  pub by_accept : (fd : ℕ) (w : os.World) → P w → P (os.accept fd w).1
  pub by_recv : (fd k : ℕ) (w : os.World) → P w → P (os.recv fd k w).2
  pub by_ctl :
      (op : CtlOp) (fd : ℕ) (e : Option Interest) (w : os.World)
      → P w
      → P (os.epoll_ctl op fd e w).1
  pub by_send : (fd : ℕ) (bytes : Bytes) (w : os.World) → fd < n → P w → P (os.send fd bytes w).1
  pub by_close : (fd : ℕ) (w : os.World) → fd < n → P w → P (os.close fd w)

module _ (os : Os) (n : ℕ) (P : os.World → Type 0) (kept : IsKept os n P) where
  open os use {World}

  accepted-Kept : (cnt : ℤ) (w : World) → P w → P (accepted os cnt w)
  unfolding accepted
  accepted-Kept (pos c) w p = kept.by_ctl _ c _ w p
  accepted-Kept (negsuc c) w p = p

  received-Kept :
      (i connfd : ℕ) (cnt : ℤ) (bytes : Bytes) (w : World)
      → i < n
      → P w
      → IfOk P (received os i connfd cnt bytes w)
  unfolding received
  received-Kept i connfd (negsuc c) bytes w low p = tt
  received-Kept i connfd (pos zero) bytes w low p =
      kept.by_close i _ low (kept.by_ctl _ connfd _ w p)
  received-Kept i connfd (pos (suc k)) bytes w low p =
      IfOk->>= P (patch (replicate buffer_size 0) 0 bytes) _ λ buffer.
        IfOk->>= P (slice buffer 0 (suc k)) _
          λ message. IfOk->>= P (cstr buffer) _ λ text. kept.by_send i message w low p

  handle-Kept :
      (sockfd i : ℕ) (e : EpollEvent) (w : World) → i < n → P w → IfOk P (handle os sockfd i e w)
  unfolding handle
  handle-Kept sockfd i e w low p =
      IfOk-if P (sockfd == e.fd) _ _ (accepted-Kept _ _ (kept.by_accept sockfd w p)) (
        IfOk-if P e.readable _ _
          (received-Kept i e.fd _ _ _ low (kept.by_recv e.fd buffer_size w p)) p)

  -- A round over `n` events sends to no descriptor of `n` or more, and closes none: every
  -- condition on the system that all other calls keep, and `send` and `close` on descriptors below
  -- `n`, holds behind the round if it held before, unless something in the round was undefined.
  pub epoll_round-Kept :
      (sockfd i : ℕ) (es : List EpollEvent) (w : World)
      → i + length es ≡ n
      → P w
      → IfOk P (epoll_round os sockfd i es w)
  unfolding epoll_round
  epoll_round-Kept sockfd i [] w fits p = p
  epoll_round-Kept sockfd i (e ∷ es) w fits p =
      IfOk-IfOk P P (handle os sockfd i e w) _ (handle-Kept sockfd i e w (omega arith) p)
        λ w' p'. epoll_round-Kept sockfd (i + 1) es w' (omega arith) p'

-- ===== src/WebServer/Same.antt =====
-- WebServerDemo and reactor.c on the same events.
use networking_programming.Base.{
  ℕ, zero, suc, ◌≤◌, ◌≡◌, refl, sym, ap, ◌∙◌, Bool, some, length, arith, ltb,
}
use networking_programming.Base.Int.{ℤ, pos, negsuc, ◌+ℤ◌}
use networking_programming.Base.Counting.{put}
use networking_programming.Memory.{Bytes, ok, ◌>>=◌, as_size, slice, patch, splice}
use networking_programming.Memory.Laws.{length-splice, slice-splice}
use networking_programming.Net.{Os, CtlOp, add, mod_event, Interest, epollin, epollout}
use networking_programming.Reactor
use networking_programming.Reactor.{accept_cb, recv_cb, send_cb}
use networking_programming.WebServer.{
  ConnItem, State, receives, set_event, accepted, received, new_item, conn_len,
}
use networking_programming.Memory.Agree.{Agree, Agree->>=, Agree-eq, Agree-if}
use networking_programming.WebServer.Relation.{
  Spliced, length-slice, patch-Agree, SameItem, Same, put-Same,
}

nothing_sent : (b c : Bytes) (n : ℕ) → pos 0 ≡ pos n → slice b 0 n ≡ slice c 0 n
unfolding slice
nothing_sent b c n e = let same : n ≡ 0 = ground arith in rw same (ground arith)

ok_inj : (n m : ℕ) → ok n ≡ ok m → n ≡ m
ok_inj n m e = cc

-- Both have copied the same to the front.
same_copy :
    (b c b' c' copied : Bytes) (n m : ℕ)
    → b' ≡ splice b 0 copied
    → c' ≡ splice c 0 copied
    → length copied ≡ n
    → length copied ≤ length b
    → length copied ≤ length c
    → n ≡ m
    → slice b' 0 m ≡ slice c' 0 m
same_copy b c b' c' copied n m is1 is2 size fits1 fits2 e =
    rw
      (
        is1,
        is2,
        sym e,
        slice-splice b copied size (rw size at fits1),
        slice-splice c copied size (rw size at fits2),
      )
      refl

module _ (os : Os) (listening : ℕ → Bool) where
  open os use {World}

  abbrev pub SameResult : ℤ × Reactor.State World → ℤ × State World → Type 0
  SameResult a b = (a.0 ≡ b.0) × Same listening a.1 b.1

  pub set_event-Same :
      (fd : ℕ) (op : CtlOp) (e : Interest) (v w : World)
      → v ≡ w
      → (Reactor.set_event os fd op e v).1 ≡ (set_event os fd op e w).1
  unfolding Reactor.set_event set_event
  set_event-Same fd op e v w same = rw same (ground arith)

  pub world-Same :
      {s : Reactor.State World} {t : State World} (v w : World)
      → Same listening s t
      → v ≡ w
      → Same listening (record s { world = v }) (record t { world = w })
  world-Same v w same e = record { world = e; room = same.room; entry = same.entry }

  pub accepted-Agree :
      (cnt : ℤ) (s : Reactor.State World) (t : State World)
      → Same listening s t
      → Agree SameResult (Reactor.accepted os cnt s) (accepted os cnt t)
  unfolding Reactor.accepted accepted
  accepted-Agree (negsuc zero) s t same = (refl, same)
  accepted-Agree (negsuc (suc n)) s t same = tt
  accepted-Agree (pos c) s t same =
      Agree-if SameResult (ltb c conn_len) _ _ _ _
        (
          refl,
          put-Same c (Reactor.opened (s.connlist c) c) (some (new_item receives c)) same
              (set_event-Same c add epollin s.world t.world same.world) (same.room c)
              (refl, refl, refl, refl, refl, refl, refl, nothing_sent _ _),
        )
        tt

  -- What `recv` returned to both.
  abbrev Stored : ℕ → Reactor.ConnItem → ConnItem → Type 0
  Stored fd r c = SameItem listening fd r receives c

  -- The copies of `recv_cb` behind a `recv` that did not return 0, and what both entries become.
  echoed-Agree :
      (fd idx : ℕ) (cnt : ℤ) (bytes : Bytes) (c : ConnItem) (s : Reactor.State World)
      (t : State World)
      → Same listening s t
      → c.kind ≡ receives
      → Stored fd (s.connlist fd) c
      → Agree SameResult
          (patch (s.connlist fd).rbuffer idx bytes >>= λ rbuffer.
            as_size ((s.connlist fd).rlen +ℤ cnt) >>= λ n. slice rbuffer 0 n >>= λ copied.
            patch (s.connlist fd).wbuffer 0 copied >>= λ wbuffer. ok (
              cnt,
              record {
                connlist = Reactor.store s.connlist fd (record (s.connlist fd) {
                  rbuffer = rbuffer;
                  rlen = pos 0;
                  wbuffer = wbuffer;
                  wlen = (s.connlist fd).rlen +ℤ cnt;
                });
                world = (Reactor.set_event os fd mod_event epollout s.world).1;
              },
            ))
          (patch c.rbuffer idx bytes >>= λ rbuffer. as_size (c.rlen +ℤ cnt) >>= λ n.
            slice rbuffer 0 n >>= λ copied. patch c.wbuffer 0 copied >>= λ wbuffer. ok (
              cnt,
              record {
                conn_list = put t.conn_list fd (
                    some (record c {
                      rbuffer = rbuffer;
                      rlen = pos 0;
                      wbuffer = wbuffer;
                      wlen = c.rlen +ℤ cnt;
                    }));
                world = (set_event os c.fd mod_event epollout t.world).1;
              },
            ))
  echoed-Agree fd idx cnt bytes c s t same k (rc, sc, f, rb, rl, wl, long, out) =
      Agree-eq SameResult _ _ _ _ (ap (λ (b : Bytes). patch b idx bytes) (sym rb)) λ rbuffer e1.
        Agree-eq SameResult _ _ _ _ (ap (λ (z : ℤ). as_size (z +ℤ cnt)) (sym rl)) λ n e2.
          Agree-eq SameResult (slice rbuffer 0 n) _ _ _ refl λ copied e3.
            Agree->>= {R = Spliced (s.connlist fd).wbuffer c.wbuffer copied} SameResult _ _ _ _
              (patch-Agree (s.connlist fd).wbuffer c.wbuffer copied (same.room fd ∙ sym long))
              λ b1 b2 (is1, is2, fits1, fits2).
                let size : length copied ≡ n = length-slice rbuffer copied n e3 in
                (
                  refl,
                  put-Same fd _ _ same
                      (rw f (set_event-Same fd mod_event epollout s.world t.world same.world))
                      (ap length is1
                        ∙ length-splice (s.connlist fd).wbuffer 0 copied
                        ∙ same.room fd)
                      (rw k (
                        rc,
                        sc,
                        f,
                        refl,
                        refl,
                        ap (λ (z : ℤ). z +ℤ cnt) rl,
                        ap length is2 ∙ length-splice c.wbuffer 0 copied ∙ long,
                        λ m e.
                            same_copy _ _ b1 b2 copied n m is1 is2 size fits1 fits2
                              (ok_inj _ _ (sym e2 ∙ ap as_size e)),
                      )),
                )

  pub received-Agree :
      (fd idx : ℕ) (cnt : ℤ) (bytes : Bytes) (c : ConnItem) (s : Reactor.State World)
      (t : State World)
      → Same listening s t
      → c.kind ≡ receives
      → Stored fd (s.connlist fd) c
      → Agree SameResult (Reactor.received os fd idx cnt bytes s) (received os fd c idx cnt bytes t)
  unfolding Reactor.received received
  received-Agree fd idx (pos zero) bytes c s t same k (rc, sc, f, rb, rl, wl, long, out) =
      (refl, world-Same _ _ same (rw (f, same.world) refl))
  received-Agree fd idx (pos (suc n)) bytes c s t same k at =
      echoed-Agree fd idx (pos (suc n)) bytes c s t same k at
  received-Agree fd idx (negsuc n) bytes c s t same k at =
      echoed-Agree fd idx (negsuc n) bytes c s t same k at

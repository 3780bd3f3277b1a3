-- ===== src/Http/Events.antt =====
-- A batch of events of `http-server.c`: what it keeps of the entries.
use networking_programming.Base.{ℕ, ◌≡◌, refl, List, [], ◌∷◌, All, lt→ltb, Bool-cases, inl, inr}
use networking_programming.Base.Int.{ℤ}
use networking_programming.Memory.{Outcome, ok, ◌>>=◌}
use networking_programming.Net.{Os, OsLaws, EpollEvent}
use networking_programming.Http.{State, conn_len, handle, run}
use networking_programming.Http.Safe.{IsValid, Keeps, IsRegistered, Accepts, Safe, call-Safe}

module _ (os : Os) where
  open os use {World}

  module _ (laws : OsLaws os) (room : (fd : ℕ) (w : World) → Accepts (os.accept fd w).0) where
    handle-Keeps :
        (e : EpollEvent) (s : State World)
        → IsValid s
        → IsRegistered s e
        → (t : State World) × (handle os e s ≡ ok t) × IsValid t × Keeps s t
    unfolding handle
    handle-Keeps e s v reg = rw (lt→ltb e.fd conn_len reg.in_range) (elim (Bool-cases e.readable) [
      | inl r ↦ rw r (finish _ (call-Safe os laws room _ e.fd s (reg.reads r) v))
      | inr nr ↦ elim (Bool-cases e.writable) [
        | inl w ↦ rw (nr, w) (finish _ (call-Safe os laws room _ e.fd s (reg.writes w) v))
        | inr nw ↦ rw (nr, nw) (s, refl, v, λ fd. ((λ h. h), (λ h. h)))
      ]
    ])
      where
        finish :
            (r : Outcome (ℤ × State World))
            → Safe os s r
            → (t : State World) × ((r >>= λ (_, s'). ok s') ≡ ok t) × IsValid t × Keeps s t
        finish r p = (p.after, rw p.returns, p.valid, p.keeps)

    IsRegistered-after :
        (s t : State World) (e : EpollEvent) → Keeps s t → IsRegistered s e → IsRegistered t e
    IsRegistered-after s t e k reg = record {
      in_range = reg.in_range;
      reads = λ r. (k e.fd).0 (reg.reads r);
      writes = λ w. (k e.fd).1 (reg.writes w);
    }

    All-after :
        (s t : State World) (es : List EpollEvent)
        → Keeps s t
        → All (IsRegistered s) es
        → All (IsRegistered t) es
    All-after s t [] k h = tt
    All-after s t (e ∷ es) k (h, hs) = (IsRegistered-after s t e k h, All-after s t es k hs)

    run-Keeps :
        (es : List EpollEvent) (s : State World)
        → IsValid s
        → All (IsRegistered s) es
        → (t : State World) × (run os es s ≡ ok t) × IsValid t × Keeps s t
    unfolding run
    run-Keeps [] s v h = (s, refl, v, λ fd. ((λ p. p), (λ p. p)))
    run-Keeps (e ∷ es) s v (h, hs) =
        let (u, e1, vu, ku) = handle-Keeps e s v h in
        let (t, e2, vt, kt) = run-Keeps es u vu (All-after s u es ku hs) in
        (t, rw e1 e2, vt, λ fd. ((λ p. (kt fd).0 ((ku fd).0 p)), (λ p. (kt fd).1 ((ku fd).1 p))))

    -- Apart from the printing, which is not modelled, if every entry is valid, `accept` returns no
    -- descriptor above 1023, and each event of a batch is for a descriptor below 1024 with the
    -- callback that the event calls, the batch is handled to its end without undefined behaviour,
    -- whatever `accept`, `recv`, `send` and `epoll_ctl` return, and every entry is valid again.
    pub run_survives :
        (es : List EpollEvent) (s : State World)
        → IsValid s
        → All (IsRegistered s) es
        → (t : State World) × (run os es s ≡ ok t) × IsValid t
    run_survives es s v h = let (t, e, w, _) = run-Keeps es s v h in (t, e, w)

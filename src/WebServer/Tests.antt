-- ===== src/WebServer/Tests.antt =====
-- WebServerDemo from its start: a connection is accepted, read from and answered.
use networking_programming.Base.{ℕ, ◌≡◌, refl, Bool, true, false, List, [], ◌∷◌, ◌==◌, inl, inr}
use networking_programming.Base.Int.{ℤ, pos}
use networking_programming.Net.{EpollEvent}
use networking_programming.Net.Systems.{working}
use networking_programming.Reactor.Setup.{first_port, main}
use networking_programming.WebServer.{serve}
use networking_programming.Memory.Agree.{Agree}
use networking_programming.WebServer.SameStart.{SameStart, serve-Agree}

abbrev socket_4 : Unit {0} → ℤ × Unit {0}
socket_4 w = (pos 4, w)

abbrev bound : ℤ → ℕ → Unit {0} → ℤ × Unit {0}
bound fd port w = (pos 0, w)

abbrev waits : ℤ → Unit {0} → Unit {0}
waits fd w = w

-- Descriptor 4 listens, and `accept` returns 7.
abbrev is_4 : ℕ → Bool
is_4 fd = fd == 4

abbrev events : List EpollEvent
events =
    record { fd = 4; readable = true; writable = false }
    ∷ record { fd = 7; readable = true; writable = true }
    ∷ record { fd = 7; readable = false; writable = true }
    ∷ []

socket_4-is_4 : (w : Unit {0}) → (fd : ℕ) → (socket_4 w).0 ≡ pos fd → is_4 fd ≡ true
socket_4-is_4 w fd e = let same : 4 ≡ fd = cc in rw⁻¹ same refl

serve-Agree_example :
    Agree
      (SameStart working socket_4 bound waits socket_4 is_4 socket_4-is_4)
      (main working socket_4 bound waits socket_4 events tt)
      (serve working socket_4 bound waits socket_4 first_port events tt)
serve-Agree_example =
    serve-Agree working socket_4 bound waits socket_4 is_4 socket_4-is_4 events tt
      (inl refl, (inl refl, (inr (inr refl), tt)))

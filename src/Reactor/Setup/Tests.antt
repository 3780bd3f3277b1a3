-- ===== src/Reactor/Setup/Tests.antt =====
-- The set-up of the echo server, with sockets and without.
use networking_programming.Base.{ℕ}
use networking_programming.Base.Int.{ℤ, pos, negsuc}
use networking_programming.Reactor.{State}
use networking_programming.Reactor.Setup.{zero_item}

abbrev socket_4 : Unit {0} → ℤ × Unit {0}
socket_4 w = (pos 4, w)

abbrev no_socket : Unit {0} → ℤ × Unit {0}
no_socket w = (negsuc 0, w)

abbrev bound : ℤ → ℕ → Unit {0} → ℤ × Unit {0}
bound fd port w = (pos 0, w)

abbrev listens : ℤ → Unit {0} → Unit {0}
listens fd w = w

abbrev untouched : State (Unit {0})
untouched = record { connlist = λ fd. zero_item; world = tt }

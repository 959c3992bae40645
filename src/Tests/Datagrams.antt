-- ===== src/Tests/Datagrams.antt =====
-- The theorem on the queue of datagrams, at concrete inputs.
use level_ip.Prelude.{ℕ, refl, false, List, [], ◌∷◌}
use level_ip.Udp.{Datagram, UdpSock}
use level_ip.Udp.Queue.{Event, IsInOrder, run-IsInOrder}
use level_ip.Udp.Queue.Event.{arrives, reads}

abbrev datagram : ℕ → Datagram
datagram n = record { payload = n ∷ 2 ∷ 3 ∷ []; dlen = 3; sport = 53; saddr = 167772165 }

-- Two datagrams arrive, the first is read with room for two bytes only, a third arrives.
abbrev exchange : List Event
exchange =
    arrives (datagram 1) ∷ arrives (datagram 2) ∷ reads 2 ∷ arrives (datagram 3) ∷ reads 8 ∷ []

abbrev fresh : UdpSock
fresh = record { receive_queue = []; pollin = false }

run-IsInOrder_example : IsInOrder exchange fresh
run-IsInOrder_example = run-IsInOrder exchange fresh refl

-- ===== src/GuestNetwork/Collection.antt =====
-- A collection of mom/Collectors/GuestNetworkDaemon.py from a guest whose server answers.
use mom.Prelude.{◌<◌, ◌≡◌, ap, String, Bool, true, false, some, List, [], ◌∷◌, ◌++◌, length}
use mom.Prelude.Int.{ℤ}
use mom.Python.Arith.{append_text}
use mom.Python.Value.{Value, int}
use mom.Monitor.{stats}
use mom.GuestNetwork.Socket.{Recv}
use mom.GuestNetwork.Socket.Framing.{
  AllTake, size, AllNonempty, joined, chunks, sock_send_all, sock_receive_line,
}
use mom.GuestNetwork.Reply.{free_of-stats_reply, reported-stats_reply}
use mom.GuestNetwork.{Client, Network, stats_reply, exchange, connect, collect}

abbrev pub row : {R : Type 0} → ℤ → ℤ → ℤ → ℤ → ℤ → ℤ → List (String × Value R)
row a u i o j m =
    ("mem_available", int a)
    ∷ ("mem_unused", int u)
    ∷ ("major_fault", int j)
    ∷ ("minor_fault", int m)
    ∷ ("swap_in", int i)
    ∷ ("swap_out", int o)
    ∷ []

abbrev pub live : String → Client
live ip = record { ip = some ip; connected = true; dead = false }

module _ (R : Type 0) (net : Network) (a u i o j m : ℤ) (cs : List String) (more : List Recv)
    (takes : AllTake net.sends) (enough : size "stats" < length net.sends) (pieces : AllNonempty cs)
    (line : joined cs ≡ append_text (stats_reply a u i o j m) "\n")
    (wire : net.receives ≡ chunks cs ++ more) where
  exchange-live :
      (ip : String) → exchange {R = R} net (live ip) ≡ (stats (row a u i o j m), live ip)
  unfolding exchange
  exchange-live ip =
      rw
        (
          sock_send_all "stats" net.sends takes enough,
          wire,
          sock_receive_line (stats_reply a u i o j m) cs more (free_of-stats_reply a u i o j m)
              pieces line,
        )
        (ap (λ x. (x, live ip)) (reported-stats_reply R a u i o j m))

-- A guest with an address, whose server can be reached and answers with six numbers in one line, cut
-- into any pieces: the collection reports the six numbers, and the collector keeps its socket.
pub collect-live :
    (R : Type 0) (net : Network) (a u i o j m : ℤ) (cs : List String) (more : List Recv)
    (ip : String) (connected : Bool)
    → AllTake net.sends
    → size "stats" < length net.sends
    → AllNonempty cs
    → joined cs ≡ append_text (stats_reply a u i o j m) "\n"
    → net.receives ≡ chunks cs ++ more
    → net.reachable ≡ true
    → collect {R = R} net (record { ip = some ip; connected = connected; dead = false })
      ≡ (stats (row a u i o j m), live ip)
unfolding collect connect
collect-live R net a u i o j m cs more ip true t e p l w r =
    exchange-live R net a u i o j m cs more t e p l w ip
collect-live R net a u i o j m cs more ip false t e p l w r =
    rw r (exchange-live R net a u i o j m cs more t e p l w ip)

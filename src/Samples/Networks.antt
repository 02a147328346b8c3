-- ===== src/Samples/Networks.antt =====
-- A guest's server and a socket of mom/Collectors/GuestNetworkDaemon.py.
use mom.Prelude.{ℕ, ◌≡◌, refl, true, false, String, some, List, [], ◌∷◌, ◌++◌, arith}
use mom.Prelude.Int.{pos}
use mom.Python.Arith.{append_text}
use mom.Python.Print.{print_int}
use mom.Monitor.{stats}
use mom.Python.Value.{int}
use mom.GuestNetwork.{Network, parse_reply, reported, stats_reply, collect}
use mom.GuestNetwork.Reply.{reported-stats_reply}
use mom.GuestNetwork.Collection.{collect-live, live, row}
use mom.GuestNetwork.Socket.{Send, took, sock_send, sock_receive}
use mom.GuestNetwork.Socket.Framing.{AllTake, joined, chunks, sock_receive-sock_send}

abbrev two_by_two : List Send
two_by_two = took 2 ∷ took 2 ∷ took 2 ∷ took 2 ∷ took 2 ∷ took 2 ∷ []

two_by_two-AllTake : AllTake two_by_two
two_by_two-AllTake =
    (omega arith, (omega arith, (omega arith, (omega arith, (omega arith, (omega arith, tt))))))

abbrev pieces : List String
pieces = "st" ∷ "ats" ∷ "\n" ∷ []

whole_line : joined pieces ≡ (sock_send two_by_two "stats").1
unfolding sock_send
whole_line = refl

sock_receive-sock_send_example :
    ((sock_send two_by_two "stats").0 ≡ true)
    × (sock_receive (chunks pieces ++ []) ≡ (some "stats", []))
sock_receive-sock_send_example =
    sock_receive-sock_send "stats" two_by_two pieces [] refl two_by_two-AllTake (omega arith)
      (refl, (refl, (refl, tt))) whole_line

six_numbers_test :
    reported {R = ℕ}
      (parse_reply (stats_reply (pos 2048) (pos 512) (pos 3) (pos 0) (pos 1) (pos 77)))
    ≡ stats (
        ("mem_available", int (pos 2048))
        ∷ ("mem_unused", int (pos 512))
        ∷ ("major_fault", int (pos 1))
        ∷ ("minor_fault", int (pos 77))
        ∷ ("swap_in", int (pos 3))
        ∷ ("swap_out", int (pos 0))
        ∷ [])
six_numbers_test = reported-stats_reply ℕ (pos 2048) (pos 512) (pos 3) (pos 0) (pos 1) (pos 77)

abbrev reply_pieces : List String
reply_pieces =
    "mem_available:9,mem_unused:8,swap_in:7," ∷ "swap_out:6,major_fault:5,minor_fault:4\n" ∷ []

abbrev wire : Network
wire = record { reachable = true; sends = two_by_two; receives = chunks reply_pieces ++ [] }

whole_reply :
    joined reply_pieces
    ≡ append_text (stats_reply (pos 9) (pos 8) (pos 7) (pos 6) (pos 5) (pos 4)) "\n"
unfolding stats_reply print_int
whole_reply = refl

collect-live_example :
    collect {R = ℕ} wire (record { ip = some "10.0.0.2"; connected = false; dead = false })
    ≡ (stats (row (pos 9) (pos 8) (pos 7) (pos 6) (pos 5) (pos 4)), live "10.0.0.2")
collect-live_example =
    collect-live ℕ wire (pos 9) (pos 8) (pos 7) (pos 6) (pos 5) (pos 4) reply_pieces [] "10.0.0.2"
      false two_by_two-AllTake (omega arith) (refl, (refl, tt)) whole_reply refl refl

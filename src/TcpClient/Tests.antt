-- ===== src/TcpClient/Tests.antt =====
-- A client on a system whose sockets are numbered, and whose world is the lines of the log.
use super_smack.Prelude.{
  ◌≡◌, refl, true, false, none, some, List, [], ◌∷◌, ◌++◌, Bytes, codes, str_eq, if◌then◌else◌,
}
use super_smack.Prelude.Int.{pos}
use super_smack.Result.{ok}
use super_smack.TcpClient.{
  Net, TcpClient, refused, ready, error, init, from_addr, connect, send, receive,
}
use super_smack.TcpClient.Descriptor.{Call, connect_call, send_call, receive_call, perform, run}

abbrev net : Net (List Bytes)
net = record {
  socket = λ w. (pos 3, w);
  gethostbyname = λ host w. if str_eq host (codes "db") then some 1 else none;
  connect = λ fd addr sec w. (refused (codes "no"), w);
  write = λ fd bytes w. (pos 2, w);
  select = λ fd limit w. (ready, w);
  read = λ fd n w. (codes "ab", pos 2, w);
  close = λ fd w. w ++ codes "closed" ∷ [];
  time_text = λ w. codes "now";
  errno_text = λ w. codes "no";
  print = λ line w. w ++ line ∷ [];
}

abbrev calls : List Call
calls = connect_call 5 ∷ send_call (codes "hi") ∷ receive_call 2 0 0 ∷ []

-- The refused connection clears the status, and is told of in the log.
connect_refused :
    run net calls (from_addr net 1 80 true []).0 (from_addr net 1 80 true []).1
    ≡ ok (
      record (from_addr net 1 80 true []).0 { status = false },
      codes "[now] TCP Client error:TcpClient: can't connect to server : no: errno = 'no'\n" ∷ [],
    )
unfolding run perform connect send receive from_addr init error
connect_refused = refl

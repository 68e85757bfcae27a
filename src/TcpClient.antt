-- ===== src/TcpClient.antt =====
-- The class `TcpClient`, src/tcp_client.h and src/tcp_client.cc.
mod Tests
pub mod Descriptor
use super_smack.Prelude.{
  ℕ, Bool, true, false, not, ◌&&◌, Option, none, some, List, [], ◌∷◌, ◌++◌, Bytes, codes,
  if◌then◌else◌, ◌==◌, ◌%◌, ◌^◌,
}
use super_smack.Prelude.Int.{ℤ, pos, negsuc, ltb_ℤ, eq_ℤ}
use super_smack.Result.{Result, ok, crashed, unset_value, out_of_bounds, ◌>>=◌}

-- `serv_addr`: `sin_addr` and `sin_port`, in the order of the machine.
pub record Address : Type 0 where
  pub sin_addr : ℕ
  pub sin_port : ℕ

-- How `::connect` comes back, or that the alarm ends it.
pub data Connected : Type 0 where
  connected timed_out : Connected
  refused : Bytes → Connected

-- How `select` comes back.
pub data Selected : Type 0 where
  ready timeout : Selected
  select_error : Bytes → Selected

-- What the code calls. A number below zero is an error.
pub record Net {ℓ} (World : Type ℓ) : Type ℓ where
  pub socket : World → ℤ × World
  pub gethostbyname : Bytes → World → Option ℕ
  -- with the seconds of the alarm; without one it does not time out
  pub connect : ℤ → Address → Option ℕ → World → Connected × World
  pub write : ℤ → Bytes → World → ℤ × World
  -- `none` waits for ever
  pub select : ℤ → Option (ℕ × ℕ) → World → Selected × World
  pub read : ℤ → ℕ → World → Bytes × ℤ × World
  pub close : ℤ → World → World
  -- `ctime` of the time, less its newline, and `strerror(errno)`
  pub time_text : World → Bytes
  pub errno_text : World → Bytes
  -- a line of the log
  pub print : Bytes → World → World

-- The fields; `none` is a field that nothing has set.
pub record TcpClient : Type 0 where
  pub socket_fd : Option ℤ
  pub serv_addr : Option Address
  pub status : Bool
  -- whether `log` is not null
  pub log : Bool

-- `log_init`, of a client with no field set
abbrev pub log_init : Bool → TcpClient
log_init init_log = record { socket_fd = none; serv_addr = none; status = false; log = init_log }

-- `TcpClient()`
abbrev pub new_tcp_client : TcpClient
new_tcp_client = log_init false

-- `operator void*`, as a test
abbrev pub is_up : TcpClient → Bool
is_up c = c.status

-- `set_log`
abbrev pub set_log : Bool → TcpClient → TcpClient
set_log new_log c = record c { log = new_log }

-- A field that is read.
abbrev pub field {ℓ} : {A : Type ℓ} → Option A → Result A
field none = crashed unset_value
field (some a) = ok a

-- Whether an `fd_set` has a bit for the descriptor: `FD_SETSIZE` is 1024.
abbrev pub in_fd_set : ℤ → Bool
in_fd_set fd = not (ltb_ℤ fd (pos 0)) && ltb_ℤ fd (pos 1024)

-- `FD_ZERO(&rfds)` and `FD_SET(socket_fd, &rfds)`: the set has this descriptor alone.
abbrev pub fd_set : ℤ → Result ℤ
fd_set fd = if in_fd_set fd then ok fd else crashed out_of_bounds

-- `(sec_timeout || usec_timeout) ? &tv : NULL`
abbrev pub limit : ℕ → ℕ → Option (ℕ × ℕ)
limit sec usec = if sec == 0 && usec == 0 then none else some (sec, usec)

module _ {ℓ} {World : Type ℓ} (net : Net World) where
  -- A message of a kind, behind `print_time`.
  abbrev pub message : Bytes → Bytes → World → Bytes
  message kind text w =
      b'['
      ∷ (net.time_text w
          ++ codes "] "
          ++ kind
          ++ text
          ++ codes ": errno = '"
          ++ net.errno_text w
          ++ codes "'\n")

  abbrev pub log_if : Bool → Bytes → World → World
  log_if log line w = if log then net.print line w else w

  -- `error`, with what `vfprintf` prints
  unfoldable pub error : Bytes → TcpClient → World → TcpClient × World
  error text c w =
      (record c { status = false }, log_if c.log (message (codes "TCP Client error:") text w) w)

  -- `warn`
  unfoldable pub warn : Bytes → TcpClient → World → World
  warn text c w = log_if c.log (message (codes "TCP Client warning:") text w) w

  -- `if ( (socket_fd = socket(…)) < 0)` and what follows
  abbrev pub opened : TcpClient → ℤ × World → TcpClient × World
  opened c (fd, w) =
      let c' = record c { socket_fd = some fd } in
      if ltb_ℤ fd (pos 0)
      then error (codes "TcpClient: can't open stream socket") c' w
      else (record c' { status = true }, w)

  -- `init`; `htons` takes the port modulo 2^16.
  unfoldable pub init : ℕ → ℕ → TcpClient → World → TcpClient × World
  init other_serv_addr port c w =
      opened
        (record c {
          serv_addr = some (record { sin_addr = other_serv_addr; sin_port = port % 2 ^ 16 });
        })
        (net.socket w)

  -- `TcpClient(struct in_addr*, int, FILE*)`
  unfoldable pub from_addr : ℕ → ℕ → Bool → World → TcpClient × World
  from_addr other_serv_addr port init_log w = init other_serv_addr port (log_init init_log) w

  -- `TcpClient(char*, int, FILE*)`
  unfoldable pub from_host : Bytes → ℕ → Bool → World → TcpClient × World
  from_host host port init_log w = elim (net.gethostbyname host w) [
    | none ↦ error (codes "Host name lookup failure for " ++ host) (log_init init_log) w
    | some h ↦ init h port (log_init init_log) w
  ]

  abbrev pub told : TcpClient → Connected × World → TcpClient × World
  told c (connected, w) = (c, w)
  told c (timed_out, w) = error (codes "TcpClient: connect() timed out") c w
  told c (refused why, w) = error (codes "TcpClient: can't connect to server : " ++ why) c w

  -- `connect`, with `sec_timeout`; a field that nothing has set is read.
  unfoldable pub connect : ℕ → TcpClient → World → Result (TcpClient × World)
  connect sec_timeout c w = do
    fd ← field c.socket_fd
    addr ← field c.serv_addr
    ok (told c (net.connect fd addr (if sec_timeout == 0 then none else some sec_timeout) w))

  -- `send`
  unfoldable pub send : Bytes → TcpClient → World → Result (ℤ × World)
  send bytes c w = do fd ← field c.socket_fd; ok (net.write fd bytes w)

  -- What `receive` does with what `select` gives; with no data the buffer is as it was.
  abbrev pub taken : ℤ → ℕ → TcpClient → Selected × World → Bytes × ℤ × World
  taken fd num_bytes c (ready, w) = net.read fd num_bytes w
  taken fd num_bytes c (timeout, w) = ([], pos 0, w)
  taken fd num_bytes c (select_error why, w) =
      ([], pos 0, warn (codes "Select error: " ++ why ++ b'\n' ∷ []) c w)

  -- `receive`, with its `FD_SET` before the look at the time
  unfoldable pub receive : ℕ → ℕ → ℕ → TcpClient → World → Result (Bytes × ℤ × World)
  receive num_bytes sec_timeout usec_timeout c w = do
    fd ← field c.socket_fd
    rfds ← fd_set fd
    ok (taken fd num_bytes c (net.select fd (limit sec_timeout usec_timeout) w))

  -- `~TcpClient`
  unfoldable pub destroy : TcpClient → World → Result World
  destroy c w = do fd ← field c.socket_fd; ok (if ltb_ℤ fd (pos 0) then w else net.close fd w)

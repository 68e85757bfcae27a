-- ===== src/TcpClient/Descriptor.antt =====
-- The descriptor of a `TcpClient`: when it is set, and when the status tells that it is open.
use super_smack.Prelude.{
  ℕ, ◌≡◌, refl, Bool, true, false, ◌&&◌, ◌%◌, ◌^◌, none, some, List, [], ◌∷◌, Bytes,
}
use super_smack.Prelude.Int.{ℤ, pos, ltb_ℤ}
use super_smack.Result.{Result, ok, crashed, unset_value, ◌>>=◌}
use super_smack.TcpClient.{
  Net, TcpClient, Address, from_host, connect, send, receive, destroy, in_fd_set, error,
}

-- The calls of a client's methods.
pub data Call : Type 0 where
  connect_call : ℕ → Call
  send_call : Bytes → Call
  receive_call : ℕ → ℕ → ℕ → Call

-- A call of `receive` needs a descriptor that an `fd_set` has a bit for.
abbrev pub IsAllowed : ℤ → Call → Type 0
IsAllowed fd (receive_call n sec usec) = in_fd_set fd ≡ true
IsAllowed fd call = Unit

abbrev address : ℕ → ℕ → Address
address addr port = record { sin_addr = addr; sin_port = port % 2 ^ 16 }

module _ {ℓ} {World : Type ℓ} (net : Net World) where
  unfoldable pub perform : Call → TcpClient → World → Result (TcpClient × World)
  perform (connect_call sec) c w = connect net sec c w
  perform (send_call bytes) c w = do (n, w') ← send net bytes c w; ok (c, w')
  perform (receive_call n sec usec) c w = do (bytes, m, w') ← receive net n sec usec c w; ok (c, w')

  unfoldable pub run : List Call → TcpClient → World → Result (TcpClient × World)
  run [] c w = ok (c, w)
  run (call ∷ calls) c w = do (c', w') ← perform call c w; run calls c' w'

  -- A client with a descriptor and an address, and a status that is not set with a descriptor
  -- below zero.
  abbrev pub IsMade : ℤ → Address → Result (TcpClient × World) → Type 0
  IsMade fd addr (ok (c, w)) =
      (c.socket_fd ≡ some fd) × (c.serv_addr ≡ some addr) × ((c.status && ltb_ℤ fd (pos 0)) ≡ false)
  IsMade fd addr _ = ⊥

  destroy_unset :
      (c : TcpClient) (w : World) → c.socket_fd ≡ none → destroy net c w ≡ crashed unset_value
  unfolding destroy
  destroy_unset c w h = rw h refl

  perform_unset :
      (call : Call) (c : TcpClient) (w : World)
      → c.socket_fd ≡ none
      → perform call c w ≡ crashed unset_value
  unfolding perform connect send receive
  perform_unset (connect_call sec) c w h = rw h refl
  perform_unset (send_call bytes) c w h = rw h refl
  perform_unset (receive_call n sec usec) c w h = rw h refl

  from_host_missing :
      (host : Bytes) (port : ℕ) (log : Bool) (w : World)
      → net.gethostbyname host w ≡ none
      → (from_host net host port log w).0.socket_fd ≡ none
  unfolding from_host error
  from_host_missing host port log w missing = rw (missing, from_host) refl

  -- A client of a host whose name is not found has no descriptor: its destructor, and each call of
  -- `connect`, `send` and `receive`, read one that nothing has set.
  pub from_host-destroy :
      (host : Bytes) (port : ℕ) (log : Bool) (w w1 : World) (call : Call)
      → net.gethostbyname host w ≡ none
      → (destroy net (from_host net host port log w).0 w1 ≡ crashed unset_value)
        × (perform call (from_host net host port log w).0 w1 ≡ crashed unset_value)
  from_host-destroy host port log w w1 call missing =
      let unset = from_host_missing host port log w missing in
      (destroy_unset _ w1 unset, perform_unset call _ w1 unset)

-- ===== src/Threads/Collect/Gathered.antt =====
-- What holds of the processes of a client in every state that they reach, and what the parent has
-- at the end.
use mathlib.Core.List.{Perm}
use mathlib.Core.Path.{subst}
use super_smack.Prelude.{◌+◌, ◌≡◌, refl, ap, List, [], ◌∷◌, ◌++◌, append-nil, arith, length, All}
use super_smack.Threads.{Collector}
use super_smack.Threads.System.{Message, Child, finished, System, Reach, start}
use super_smack.Threads.Queue.{sent, unsent}
use super_smack.Threads.Collect.{gather, IsFit, IsAt, owed, start-Inv}
use super_smack.Threads.Collect.Steps.{Reach-Inv}

no_message :
    (queue : List Message) (s : System)
    → length queue ≡ sent s.children + owed s.phase
    → s.phase ≡ finished
    → s.children ≡ []
    → queue ≡ []
unfolding sent
no_message [] s e p g = refl
no_message (m ∷ queue) s e p g = absurd (omega (arith, e, ap sent g, ap owed p))

only_got :
    (got reading queue : List Message) (cs : List Child)
    → reading ≡ []
    → queue ≡ []
    → cs ≡ []
    → got ++ (reading ++ (queue ++ unsent cs)) ≡ got
unfolding unsent
only_got got reading queue cs r q g = rw (r, q, g) (append-nil got)

-- Where the parent has found no child left, its collector is what it was with the messages of all
-- the children added whole, one after the other, in some order: no report is lost, cut or counted
-- twice, whatever the order of the steps was. Each message must fit its pipe message and be of the
-- types that the parent has.
pub collected :
    (ms : List Message) (c0 : Collector) (s : System)
    → All (IsFit c0) ms
    → Reach (start ms c0) s
    → s.phase ≡ finished
    → (order : List Message) × Perm ms order × (s.collector ≡ gather c0 order)
collected ms c0 s fit r p =
    let inv = Reach-Inv c0 ms r (start-Inv c0 ms fit) in
    let (whole, now) =
      subst (λ p. IsAt p (gather c0 inv.got) inv.reading s.collector) p inv.gathered in
    let none_left = inv.gone p in
    (
      inv.got,
      subst (λ l. Perm ms l)
          (only_got inv.got inv.reading inv.queue s.children whole
            (no_message inv.queue s inv.credits p none_left) none_left)
          inv.order,
      now,
    )

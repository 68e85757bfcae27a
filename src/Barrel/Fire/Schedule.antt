-- ===== src/Barrel/Fire/Schedule.antt =====
-- What a barrel does, as one list: each round the actions in order, each charge its shots.
use super_smack.Prelude.{ℕ, zero, suc, ◌≡◌, refl, sym, ap, ◌∙◌, List, [], ◌∷◌, ◌++◌, replicate}
use super_smack.Prelude.Int.{ℤ, pos_part}
use super_smack.Result.{Result, ok, ◌>>=◌, >>=_congr, >>=_assoc}
use super_smack.Query.{Query}
use super_smack.Barrel.{Action, query_charge, sleep_action, Barrel}
use super_smack.Barrel.Fire.{
  Connection, Client, fire_shot, fire_shots, fire, fire_all, fire_rounds, unload_query_barrel,
}

pub data Event : Type 0 where
  shot : Query → Event
  rest : ℤ → ℤ → Event

abbrev pub events_of : Action → List Event
events_of (query_charge query num_shots) = replicate (pos_part num_shots) (shot query)
events_of (sleep_action sec usec) = rest sec usec ∷ []

abbrev pub round_of : List Action → List Event
round_of [] = []
round_of (a ∷ actions) = events_of a ++ round_of actions

abbrev pub repeat : ℕ → List Event → List Event
repeat zero events = []
repeat (suc n) events = events ++ repeat n events

abbrev pub schedule : Barrel → List Event
schedule qb = repeat (pos_part qb.num_rounds) (round_of qb.actions)

module _ {ℓ} {World : Type ℓ} (cn : Connection World) where
  abbrev pub fire_event : Event → Client World → Result (Client World)
  fire_event (shot query) cli = fire_shot cn query cli
  fire_event (rest sec usec) cli = ok (record cli { world = cn.pause sec usec cli.world })

  -- One event after the other.
  unfoldable pub fire_events : List Event → Client World → Result (Client World)
  fire_events [] cli = ok cli
  fire_events (e ∷ events) cli = do cli' ← fire_event e cli; fire_events events cli'

  pub fire_events-append :
      (xs ys : List Event) (cli : Client World)
      → fire_events (xs ++ ys) cli ≡ (fire_events xs cli >>= fire_events ys)
  unfolding fire_events
  fire_events-append [] ys cli = refl
  fire_events-append (x ∷ xs) ys cli =
      >>=_congr (fire_event x cli) _ _ (λ x e. fire_events-append xs ys x)
      ∙ >>=_assoc (fire_event x cli) (fire_events xs) (fire_events ys)

  fire_shots-eq :
      (n : ℕ) (query : Query) (cli : Client World)
      → fire_shots cn n query cli ≡ fire_events (replicate n (shot query)) cli
  unfolding fire_shots fire_events
  fire_shots-eq zero query cli = refl
  fire_shots-eq (suc n) query cli =
      >>=_congr (fire_shot cn query cli) _ _ (λ x e. fire_shots-eq n query x)

  fire-eq : (a : Action) (cli : Client World) → fire cn a cli ≡ fire_events (events_of a) cli
  unfolding fire fire_events
  fire-eq (query_charge query num_shots) cli = fire_shots-eq (pos_part num_shots) query cli
  fire-eq (sleep_action sec usec) cli = refl

  fire_all-eq :
      (actions : List Action) (cli : Client World)
      → fire_all cn actions cli ≡ fire_events (round_of actions) cli
  unfolding fire_all fire_events
  fire_all-eq [] cli = refl
  fire_all-eq (a ∷ actions) cli =
      ap (λ r. r >>= fire_all cn actions) (fire-eq a cli)
      ∙ >>=_congr (fire_events (events_of a) cli) _ _ (λ x e. fire_all-eq actions x)
      ∙ sym (fire_events-append (events_of a) (round_of actions) cli)

  fire_rounds-eq :
      (n : ℕ) (actions : List Action) (cli : Client World)
      → fire_rounds cn n actions cli ≡ fire_events (repeat n (round_of actions)) cli
  unfolding fire_rounds fire_events
  fire_rounds-eq zero actions cli = refl
  fire_rounds-eq (suc n) actions cli =
      ap (λ r. r >>= fire_rounds cn n actions) (fire_all-eq actions cli)
      ∙ >>=_congr (fire_events (round_of actions) cli) _ _ (λ x e. fire_rounds-eq n actions x)
      ∙ sym (fire_events-append (round_of actions) (repeat n (round_of actions)) cli)

  -- Unloading a barrel is its schedule, one event after the other: in each round the actions in
  -- order, a charge being as many shots as it has, none if its number is negative.
  pub unload_query_barrel-schedule :
      (qb : Barrel) (w : World)
      → unload_query_barrel cn qb w ≡ (
          fire_events (schedule qb) (record { world = w; type_reports = qb.type_reports })
          >>= λ cli. ok (cli.world, record qb { type_reports = cli.type_reports }))
  unfolding unload_query_barrel
  unload_query_barrel-schedule qb w =
      ap
        (λ r. r >>= λ (cli : Client World).
          ok (cli.world, record qb { type_reports = cli.type_reports }))
        (fire_rounds-eq (pos_part qb.num_rounds) qb.actions _)

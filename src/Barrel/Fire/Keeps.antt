-- ===== src/Barrel/Fire/Keeps.antt =====
-- An invariant of a connection over the whole of a barrel.
use super_smack.Prelude.{List, [], ◌∷◌, All}
use super_smack.Result.{Crash, Keeps, >>=-Keeps}
use super_smack.Barrel.{Barrel}
use super_smack.Barrel.Fire.{Connection, Client, exchange, fire_shot, unload_query_barrel}
use super_smack.Barrel.Fire.Schedule.{
  Event, shot, rest, fire_events, fire_event, schedule, unload_query_barrel-schedule,
}

abbrev pub itself {ℓ} : {World : Type ℓ} → World → World
itself w = w

abbrev world_of {ℓ} : {World : Type ℓ} → Client World → World
world_of cli = cli.world

module _ {ℓ} {World : Type ℓ} (I : World → Type 0) (Fault : Crash → Type 0) where
  module _ (cn : Connection World) where
    -- The query of a shot keeps the invariant, with the loss of its result where it has one; so does
    -- a sleep.
    abbrev pub IsKeeping : Event → Type ℓ
    IsKeeping (shot q) = (w : World) → I w → Keeps I Fault itself (exchange cn q w)
    IsKeeping (rest sec usec) = (w : World) → I w → I (cn.pause sec usec w)

    module _ (looks : (w : World) → I w → I (cn.gettimeofday w).1) where
      fire_event-Keeps :
          (e : Event) (cli : Client World)
          → IsKeeping e
          → I cli.world
          → Keeps I Fault world_of (fire_event cn e cli)
      unfolding fire_shot
      fire_event-Keeps (shot q) cli k h =
          >>=-Keeps I Fault itself world_of (exchange cn q (cn.gettimeofday cli.world).1) _
            (k _ (looks cli.world h)) (λ w e h'. looks w h')
      fire_event-Keeps (rest sec usec) cli k h = k cli.world h

      fire_events-Keeps :
          (events : List Event) (cli : Client World)
          → All IsKeeping events
          → I cli.world
          → Keeps I Fault world_of (fire_events cn events cli)
      unfolding fire_events
      fire_events-Keeps [] cli k h = h
      fire_events-Keeps (e ∷ events) cli k h =
          >>=-Keeps I Fault world_of world_of (fire_event cn e cli) _ (fire_event-Keeps e cli k.0 h)
            (λ cli' e h'. fire_events-Keeps events cli' k.1 h')

      -- So does the unloading of a barrel with such a schedule.
      pub unload_query_barrel-Keeps :
          (qb : Barrel) (w : World)
          → All IsKeeping (schedule qb)
          → I w
          → Keeps I Fault (λ (s : World × Barrel). s.0) (unload_query_barrel cn qb w)
      unload_query_barrel-Keeps qb w k h = rw (unload_query_barrel-schedule cn qb w) (
          >>=-Keeps I Fault world_of _ (fire_events cn (schedule qb) _) _
            (fire_events-Keeps (schedule qb) _ k h) (λ cli e h'. h'))

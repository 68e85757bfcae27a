-- ===== src/Barrel/Fire/Counts.antt =====
-- What the reports of a barrel count when the barrel is unloaded.
use super_smack.Prelude.{
  ℕ, suc, ◌+◌, ◌^◌, ◌<◌, ◌≡◌, refl, ap, ◌∙◌, some, List, [], ◌∷◌, arith, All, if◌then◌else◌, Bytes,
  c_str, str_eq, Bool-cases, inl, inr,
}
use super_smack.Prelude.Int.{ℤ, pos, wrap}
use mathlib.Core.Path.{subst}
use super_smack.Result.{ok, ok_injective, >>=-eq-ok}
use super_smack.StringMap.{lookup}
use super_smack.Query.{Query}
use super_smack.Report.{TypeReport, TypeReports, update_one, update_type}
use super_smack.Report.Indexed.{lookup-update_type}
use super_smack.Report.Stats.{update_one-num_queries}
use super_smack.Barrel.{Barrel}
use super_smack.Barrel.Fire.{Connection, Client, exchange, fire_shot, elapsed, unload_query_barrel}
use super_smack.Barrel.Fire.Schedule.{
  Event, shot, rest, schedule, fire_events, unload_query_barrel-schedule,
}

-- The shots of queries of one type.
unfoldable pub count : Bytes → List Event → ℕ
count t [] = 0
count t (shot q ∷ events) =
    if str_eq (c_str q.type_name) t then suc (count t events) else count t events
count t (rest sec usec ∷ events) = count t events

count_shot :
    (t : Bytes) (q : Query) (events : List Event) (n : ℕ)
    → (if str_eq (c_str q.type_name) t then suc n else n) + count t events
      ≡ n + count t (shot q ∷ events)
unfolding count
count_shot t q events n = ground arith

fits_rest :
    (t : Bytes) (q : Query) (events : List Event) (n : ℕ)
    → suc (n + count t (shot q ∷ events)) < 2 ^ 31
    → suc ((if str_eq (c_str q.type_name) t then suc n else n) + count t events) < 2 ^ 31
fits_rest t q events n k = rw (count_shot t q events n) k

fits_one :
    (t : Bytes) (q : Query) (events : List Event) (n : ℕ)
    → suc (n + count t (shot q ∷ events)) < 2 ^ 31
    → suc n < 2 ^ 31
fits_one t q events n k = omega arith

module _ {ℓ} {World : Type ℓ} (cn : Connection World) where
  -- A client whose report of a type has this number.
  abbrev pub HasCount : Bytes → ℕ → TypeReports → Type 0
  HasCount t n m = (r : TypeReport) × (lookup t m ≡ some (some r)) × (r.num_queries ≡ pos n)

  update_type-HasCount :
      (t name : Bytes) (q_time : ℤ) (n : ℕ) (m : TypeReports)
      → HasCount t n m
      → suc n < 2 ^ 31
      → HasCount t (if str_eq name t then suc n else n) (update_type name q_time m)
  update_type-HasCount t name q_time n m (r, e, q) k = elim (Bool-cases (str_eq name t)) [
    | inl same ↦ (
      update_one r q_time,
      lookup-update_type t name q_time m r e ∙ rw same refl,
      rw same (update_one-num_queries n q_time r q k),
    )
    | inr other ↦ (r, lookup-update_type t name q_time m r e ∙ rw other refl, rw other q)
  ]

  fire_shot-HasCount :
      (t : Bytes) (n : ℕ) (q : Query) (cli : Client World) {cli' : Client World}
      → HasCount t n cli.type_reports
      → suc n < 2 ^ 31
      → fire_shot cn q cli ≡ ok cli'
      → HasCount t (if str_eq (c_str q.type_name) t then suc n else n) cli'.type_reports
  unfolding fire_shot
  fire_shot-HasCount t n q cli h k e =
      let (w2, sent, e2) = >>=-eq-ok (exchange cn q (cn.gettimeofday cli.world).1) _ e in
      subst
        (λ (d : Client World).
          HasCount t (if str_eq (c_str q.type_name) t then suc n else n) d.type_reports)
        (ok_injective e2) (update_type-HasCount t (c_str q.type_name) _ n cli.type_reports h k)

  fire_events-HasCount :
      (t : Bytes) (events : List Event) (n : ℕ) (cli : Client World) {cli' : Client World}
      → HasCount t n cli.type_reports
      → suc (n + count t events) < 2 ^ 31
      → fire_events cn events cli ≡ ok cli'
      → HasCount t (n + count t events) cli'.type_reports
  unfolding fire_events count
  fire_events-HasCount t [] n cli (r, e, q) k done =
      subst (λ (d : Client World). HasCount t (n + 0) d.type_reports) (ok_injective done)
        (r, e, q ∙ ap pos (omega arith))
  fire_events-HasCount t (shot q ∷ events) n cli h k done =
      let (cli1, fired, later) = >>=-eq-ok (fire_shot cn q cli) _ done in
      let h1 = fire_shot-HasCount t n q cli h (fits_one t q events n k) fired in
      let (r, e, c) = fire_events-HasCount t events _ cli1 h1 (fits_rest t q events n k) later in
      (r, e, c ∙ ap pos (count_shot t q events n))
  fire_events-HasCount t (rest sec usec ∷ events) n cli h k done =
      fire_events-HasCount t events n (record cli { world = cn.pause sec usec cli.world }) h k done

  -- A barrel whose unloading comes back has counted each shot of a type in its schedule.
  pub unload_query_barrel-HasCount :
      (t : Bytes) (n : ℕ) (qb : Barrel) (w : World) {s : World × Barrel}
      → HasCount t n qb.type_reports
      → suc (n + count t (schedule qb)) < 2 ^ 31
      → unload_query_barrel cn qb w ≡ ok s
      → HasCount t (n + count t (schedule qb)) s.1.type_reports
  unload_query_barrel-HasCount t n qb w h k e =
      let (cli, done, e1) =
        >>=-eq-ok (fire_events cn (schedule qb) _) _
          (rw (unload_query_barrel-schedule cn qb w) at e) in
      subst (λ (s : World × Barrel). HasCount t (n + count t (schedule qb)) s.1.type_reports)
        (ok_injective e1)
        (fire_events-HasCount t (schedule qb) n
          (record { world = w; type_reports = qb.type_reports }) h k done)

  -- The client after a shot whose query left the connection in `w2`.
  abbrev after : Query → Client World → World → Client World
  after q cli w2 =
      let start = (cn.gettimeofday cli.world).0 in
      let end = (cn.gettimeofday w2).0 in
      record {
        world = (cn.gettimeofday w2).1;
        type_reports = update_type (c_str q.type_name) (wrap (elapsed start end)) cli.type_reports;
      }

  module _ (I : World → Type 0) where
    -- The query of a shot is taken from each world of `I`, and its result lost where it has one; a
    -- sleep stays in `I` too.
    abbrev pub IsTaken : Event → Type ℓ
    IsTaken (shot q) = (w : World) → I w → (w' : World) × (exchange cn q w ≡ ok w') × I w'
    IsTaken (rest sec usec) = (w : World) → I w → I (cn.pause sec usec w)

    fire_shot_ok :
        (q : Query) (cli : Client World)
        → ((w : World) → I w → I (cn.gettimeofday w).1)
        → IsTaken (shot q)
        → I cli.world
        → (cli' : Client World) × (fire_shot cn q cli ≡ ok cli') × I cli'.world
    unfolding fire_shot
    fire_shot_ok q cli looks taken i =
        let (w2, sent, i2) = taken (cn.gettimeofday cli.world).1 (looks cli.world i) in
        (after q cli w2, rw (sent, fire_shot) refl, looks w2 i2)

    fire_events_ok :
        (events : List Event) (cli : Client World)
        → ((w : World) → I w → I (cn.gettimeofday w).1)
        → All IsTaken events
        → I cli.world
        → (cli' : Client World) × (fire_events cn events cli ≡ ok cli') × I cli'.world
    unfolding fire_events
    fire_events_ok [] cli looks taken i = (cli, refl, i)
    fire_events_ok (shot q ∷ events) cli looks taken i =
        let (cli1, fired, i1) = fire_shot_ok q cli looks taken.0 i in
        let (cli2, done, i2) = fire_events_ok events cli1 looks taken.1 i1 in
        (cli2, rw fired done, i2)
    fire_events_ok (rest sec usec ∷ events) cli looks taken i =
        fire_events_ok events (record cli { world = cn.pause sec usec cli.world }) looks taken.1
          (taken.0 cli.world i)

    -- Where the clock stays in some invariant of the world, and each query and each sleep in the
    -- schedule of a barrel is taken from a world with this invariant and leaves it, a barrel that is
    -- unloaded from such a world is unloaded to its end, in such a world, and a type that it has a
    -- report of has then been counted once for each shot of a query of this type in the schedule,
    -- if the count stays below 2^31 - 1.
    pub unload_query_barrel-count :
        (t : Bytes) (n : ℕ) (qb : Barrel) (w : World)
        → ((w : World) → I w → I (cn.gettimeofday w).1)
        → All IsTaken (schedule qb)
        → I w
        → HasCount t n qb.type_reports
        → suc (n + count t (schedule qb)) < 2 ^ 31
        → (s : World × Barrel) × (unload_query_barrel cn qb w ≡ ok s)
          × I s.0
          × HasCount t (n + count t (schedule qb)) s.1.type_reports
    unload_query_barrel-count t n qb w looks taken i h k =
        let (cli, done, i') =
          fire_events_ok (schedule qb) (record { world = w; type_reports = qb.type_reports }) looks
            taken i in
        let unloaded : unload_query_barrel cn qb w
            ≡ ok (cli.world, record qb { type_reports = cli.type_reports }) =
          unload_query_barrel-schedule cn qb w ∙ rw done refl in
        (
          (cli.world, record qb { type_reports = cli.type_reports }),
          unloaded,
          i',
          unload_query_barrel-HasCount t n qb w h k unloaded,
        )

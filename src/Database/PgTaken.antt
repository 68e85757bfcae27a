-- ===== src/Database/PgTaken.antt =====
-- A barrel that is unloaded on a `Pg_client` (src/client.cc, src/query.cc, src/pg-client.cc), where
-- the server accepts its queries.
use super_smack.Prelude.{
  ℕ, suc, ◌+◌, ◌^◌, ◌<◌, ◌≡◌, refl, Bool, true, false, if◌then◌else◌, Bytes, c_str, none, List, [],
  ◌∷◌, All, ◌⊎◌, inl, inr,
}
use super_smack.Prelude.Int.{ℤ}
use super_smack.Result.{Result, ok}
use super_smack.Query.{Query}
use super_smack.Client.ParsedQuery.{Dictionaries, Expansion}
use super_smack.Client.ParsedQuery as Client
use super_smack.Barrel.{Barrel}
use super_smack.Barrel.Fire.{Timeval, exchange, send, unload_query_barrel}
use super_smack.Barrel.Fire.Schedule.{Event, shot, rest, schedule}
use super_smack.Barrel.Fire.Counts.{IsTaken, HasCount, count, unload_query_barrel-count}
use super_smack.Database.{ResultSet}
use super_smack.Database.Pg.{Libpq, PgClient, succeeded, store, safe_query, exec_on, answered}
use super_smack.Database.PgOwned.{IsTidy, clear_tidy, lose_result_tidy}
use super_smack.Database.PgBarrel.{
  PgWorld, pg_connection, max_query, query_on, parsed_query_on, lose_on, clock_on,
}

module _ {ℓ} {Server : Type ℓ} (pq : Libpq Server) (sprintf : Bytes → ℤ → Bytes) (rands : ℕ → ℕ)
    (escape : Bytes → Bytes) (clock : Server → Timeval × Server)
    (pause : ℤ → ℤ → Server → Server) where
  -- The server accepts a query, in each of its states.
  abbrev pub IsAccepted : Bytes → Type ℓ
  IsAccepted q = (server : Server) → (r : ResultSet) × ((pq.exec q server).0 ≡ succeeded r)

  -- The client after a query that gave `r`.
  abbrev held : Bytes → ResultSet → PgClient Server → PgClient Server
  held q r c = store r (record c { live = []; server = (pq.exec q c.server).1 })

  exec_on-held :
      (q : Bytes) (r : ResultSet) (c : PgClient Server)
      → c.con ≡ true
      → (pq.exec q c.server).0 ≡ succeeded r
      → answered true
          (exec_on pq q (record c { live = [] })).0
          (exec_on pq q (record c { live = [] })).1
        ≡ ok (true, held q r c)
  unfolding exec_on answered
  exec_on-held q r c con e = rw con (rw e refl)

  module _ (D : Dictionaries → Type 0) where
    -- The client is connected, and tidy, and the dictionaries have an invariant.
    abbrev pub IsOnline : PgWorld Server → Type 0
    IsOnline w = IsTidy w.client × (w.client.con ≡ true) × D w.dictionaries

    -- The server accepts the query of a shot, and where that is parsed, each text that it can come
    -- to with dictionaries of the invariant, which are of it again behind the words that they give.
    abbrev pub IsSendable : Event → Type ℓ
    IsSendable (shot q) =
        ((q.parsed ≡ false) × IsAccepted (c_str q.query))
        ⊎ ((q.parsed ≡ true)
            × ((pool : Dictionaries) (calls : ℕ)
                → D pool
                → (s : Expansion) × (Client.safe_parsed_query sprintf rands escape (c_str q.query)
                      max_query pool calls
                    ≡ ok s)
                  × D s.dictionaries
                  × IsAccepted (c_str s.parsed_query)))
    IsSendable (rest sec usec) = Unit

    abbrev IsBack : Result (PgWorld Server) → Type ℓ
    IsBack call = (w' : PgWorld Server) × (call ≡ ok w') × IsOnline w'

    query_on-IsBack :
        (q : Bytes) (w : PgWorld Server)
        → IsAccepted q
        → IsOnline w
        → IsBack (query_on pq sprintf rands escape clock pause q w)
    unfolding query_on safe_query
    query_on-IsBack q w accepted (tidy, con, d) =
        let (r, e) = accepted w.client.server in
        (
          record w { client = held q r w.client },
          rw (clear_tidy w.client tidy, exec_on-held q r w.client con e) refl,
          (refl, con, d),
        )

    parsed_query_on-IsBack :
        (q : Bytes) (s : Expansion) (w : PgWorld Server)
        → Client.safe_parsed_query sprintf rands escape q max_query w.dictionaries w.calls ≡ ok s
        → D s.dictionaries
        → IsAccepted (c_str s.parsed_query)
        → IsOnline w
        → IsBack (parsed_query_on pq sprintf rands escape clock pause q w)
    unfolding parsed_query_on
    parsed_query_on-IsBack q s w e d accepted (tidy, con, before) =
        let (w', sent, online) =
          query_on-IsBack (c_str s.parsed_query)
            (record w { dictionaries = s.dictionaries; calls = s.calls }) accepted (tidy, con, d) in
        (w', rw e sent, online)

    send-IsBack :
        (q : Query) (w : PgWorld Server)
        → IsSendable (shot q)
        → IsOnline w
        → IsBack (send (pg_connection pq sprintf rands escape clock pause) q w)
    unfolding send
    send-IsBack q w (inl (plain, accepted)) h =
        let (w', sent, online) = query_on-IsBack (c_str q.query) w accepted h in
        (w', rw plain sent, online)
    send-IsBack q w (inr (parsed, expands)) h =
        let (s, e, d, accepted) = expands w.dictionaries w.calls h.2 in
        let (w', sent, online) = parsed_query_on-IsBack (c_str q.query) s w e d accepted h in
        (w', rw parsed sent, online)

    lost-IsBack :
        (has_result_set : Bool) (w : PgWorld Server)
        → IsOnline w
        → IsBack (if has_result_set then lose_on pq sprintf rands escape clock pause w else ok w)
    unfolding lose_on
    lost-IsBack true w (tidy, con, d) = (
      record w { client = record w.client { live = []; res = none } },
      rw (lose_result_tidy w.client tidy) refl,
      (tt, con, d),
    )
    lost-IsBack false w h = (w, refl, h)

    -- A query that can be sent is taken.
    pub IsSendable-IsTaken :
        (e : Event)
        → IsSendable e
        → IsTaken (pg_connection pq sprintf rands escape clock pause) IsOnline e
    unfolding exchange
    IsSendable-IsTaken (shot q) sendable = λ w h.
        let (w1, sent, h1) = send-IsBack q w sendable h in
        let (w2, lost, h2) = lost-IsBack q.has_result_set w1 h1 in (w2, rw sent lost, h2)
    IsSendable-IsTaken (rest sec usec) sendable = λ w h. h

    schedule-IsTaken :
        (events : List Event)
        → All IsSendable events
        → All (IsTaken (pg_connection pq sprintf rands escape clock pause) IsOnline) events
    schedule-IsTaken [] h = tt
    schedule-IsTaken (e ∷ events) h = (IsSendable-IsTaken e h.0, schedule-IsTaken events h.1)

    -- A barrel that is unloaded on a `Pg_client` that is connected, and whose `res` leads to the one
    -- live result, or is null with none live, is unloaded to its end, with such a client, and a
    -- type that it has a report of has then been counted once for each shot of a query of this type
    -- in the schedule, if the count stays below 2^31 - 1. This is where the server accepts each query
    -- of the schedule, and for a parsed one each text that it can come to with dictionaries of some
    -- invariant, which those of the client have, and have again behind the words that they give.
    pub pg_connection-count :
        (t : Bytes) (n : ℕ) (qb : Barrel) (w : PgWorld Server)
        → All IsSendable (schedule qb)
        → IsOnline w
        → HasCount (pg_connection pq sprintf rands escape clock pause) t n qb.type_reports
        → suc (n + count t (schedule qb)) < 2 ^ 31
        → (s : PgWorld Server × Barrel) × (unload_query_barrel
              (pg_connection pq sprintf rands escape clock pause)
              qb
              w
            ≡ ok s)
          × IsOnline s.0
          × HasCount
              (pg_connection pq sprintf rands escape clock pause)
              t
              (n + count t (schedule qb))
              s.1.type_reports
    unfolding clock_on
    pg_connection-count t n qb w sendable online h k =
        unload_query_barrel-count (pg_connection pq sprintf rands escape clock pause) IsOnline t n
          qb w (λ w h. h) (schedule-IsTaken (schedule qb) sendable) online h k

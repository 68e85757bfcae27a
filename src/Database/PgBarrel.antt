-- ===== src/Database/PgBarrel.antt =====
-- A barrel that is unloaded on a `Pg_client`: what src/query.cc calls of src/client.cc and
-- src/pg-client.cc.
use super_smack.Prelude.{
  ℕ, ◌≡◌, Bool, true, false, if◌then◌else◌, Bytes, c_str, List, [], ◌∷◌, All, Bool-cases, inl, inr,
}
use super_smack.Prelude.Int.{ℤ}
use super_smack.Result.{Result, ok, died, crashed, ◌>>=◌, Keeps, >>=-Keeps}
use super_smack.Client.ParsedQuery.{Dictionaries, Expansion}
use super_smack.Client.ParsedQuery as Client
use super_smack.Barrel.{Barrel}
use super_smack.Query.{Query}
use super_smack.Barrel.Fire.{Timeval, Connection, send, exchange, unload_query_barrel}
use super_smack.Barrel.Fire.Schedule.{Event, shot, rest, schedule}
use super_smack.Barrel.Fire.Keeps.{itself, IsKeeping, unload_query_barrel-Keeps}
use super_smack.Database.Pg.{Libpq, PgClient, safe_query, lose_result}
use super_smack.Database.PgOwned.{IsTidy, IsSafe, safe_query-IsSafe, and_client, lose_result_tidy}

abbrev dictionaries_of : Expansion → Dictionaries
dictionaries_of s = s.dictionaries

-- The client with its dictionaries, and the calls of `rand()` so far.
pub record PgWorld {ℓ} (Server : Type ℓ) : Type ℓ where
  pub client : PgClient Server
  pub dictionaries : Dictionaries
  pub calls : ℕ

-- `MAX_QUERY`
abbrev pub max_query : ℕ
max_query = 8192

-- What the model is given: how a client escapes a word, printf and `rand()`, the clock and sleep.
module _ {ℓ} {Server : Type ℓ} (pq : Libpq Server) (sprintf : Bytes → ℤ → Bytes) (rands : ℕ → ℕ)
    (escape : Bytes → Bytes) (clock : Server → Timeval × Server)
    (pause : ℤ → ℤ → Server → Server) where
  -- `cli->safe_query(query, 1)`
  unfoldable pub query_on : Bytes → PgWorld Server → Result (PgWorld Server)
  query_on query w = do
    (good, client) ← safe_query pq query true w.client
    ok (record w { client = client })

  -- `Client::safe_parsed_query`, with its call of `safe_query`
  unfoldable pub parsed_query_on : Bytes → PgWorld Server → Result (PgWorld Server)
  parsed_query_on query w = do
    s ← Client.safe_parsed_query sprintf rands escape query max_query w.dictionaries w.calls
    query_on (c_str s.parsed_query) (record w { dictionaries = s.dictionaries; calls = s.calls })

  unfoldable pub lose_on : PgWorld Server → Result (PgWorld Server)
  lose_on w = do client ← lose_result w.client; ok (record w { client = client })

  unfoldable pub clock_on : PgWorld Server → Timeval × PgWorld Server
  clock_on w =
      let (now, server) = clock w.client.server in
      (now, record w { client = record w.client { server = server } })

  abbrev pub pause_on : ℤ → ℤ → PgWorld Server → PgWorld Server
  pause_on sec usec w = record w {
    client = record w.client { server = pause sec usec w.client.server };
  }

  -- A barrel's connection whose calls are those of a `Pg_client`.
  abbrev pub pg_connection : Connection (PgWorld Server)
  pg_connection = record {
    safe_query = query_on;
    safe_parsed_query = parsed_query_on;
    lose_result = lose_on;
    gettimeofday = clock_on;
    pause = pause_on;
  }

  module _ (D : Dictionaries → Type 0) where
    -- The client of the world is tidy, and its dictionaries have an invariant.
    abbrev pub IsTidyWorld : PgWorld Server → Type 0
    IsTidyWorld w = IsTidy w.client × D w.dictionaries

    -- Putting words into the query of a shot, where it is parsed, does not fault with dictionaries
    -- of the invariant, and leaves such dictionaries.
    abbrev pub IsExpandable : Event → Type 0
    IsExpandable (shot q) =
        q.parsed ≡ true
        → (pool : Dictionaries) (calls : ℕ) → D pool
        → Keeps D (λ why. ⊥) dictionaries_of
            (Client.safe_parsed_query sprintf rands escape (c_str q.query) max_query pool calls)
    IsExpandable (rest sec usec) = Unit

    abbrev pub IsTidilyKept : Result (PgWorld Server) → Type 0
    IsTidilyKept call = Keeps IsTidyWorld (λ why. ⊥) itself call

    query_on-Keeps : (q : Bytes) (w : PgWorld Server) → IsTidyWorld w → IsTidilyKept (query_on q w)
    unfolding query_on
    query_on-Keeps q w h =
        keeps (safe_query pq q true w.client) (safe_query-IsSafe pq q true w.client h.0)
      where
        keeps :
            (call : Result (Bool × PgClient Server))
            → IsSafe and_client call
            → IsTidilyKept (call >>= (λ (good, client). ok (record w { client = client })))
        keeps (ok (good, client)) t = (t, h.1)
        keeps (died why) t = tt
        keeps (crashed why) t = absurd t

    parsed_query_on-Keeps :
        (q : Bytes) (w : PgWorld Server)
        → Keeps D
            (λ why. ⊥)
            dictionaries_of
            (Client.safe_parsed_query sprintf rands escape q max_query w.dictionaries w.calls)
        → IsTidyWorld w
        → IsTidilyKept (parsed_query_on q w)
    unfolding parsed_query_on
    parsed_query_on-Keeps q w expanded h =
        keeps (Client.safe_parsed_query sprintf rands escape q max_query w.dictionaries w.calls)
          expanded
      where
        keeps :
            (call : Result Expansion)
            → Keeps D (λ why. ⊥) dictionaries_of call
            → IsTidilyKept (
                call >>= (λ s.
                  query_on
                    (c_str s.parsed_query)
                    (record w { dictionaries = s.dictionaries; calls = s.calls })))
        keeps (ok s) d =
            query_on-Keeps (c_str s.parsed_query)
              (record w { dictionaries = s.dictionaries; calls = s.calls }) (h.0, d)
        keeps (died why) d = tt
        keeps (crashed why) d = absurd d

    lose_on-Keeps : (w : PgWorld Server) → IsTidyWorld w → IsTidilyKept (lose_on w)
    unfolding lose_on
    lose_on-Keeps w h = rw (lose_result_tidy w.client h.0) (tt, h.1)

    send-Keeps :
        (q : Query) (w : PgWorld Server)
        → IsExpandable (shot q)
        → IsTidyWorld w
        → IsTidilyKept (send pg_connection q w)
    unfolding send
    send-Keeps q w expandable h = elim (Bool-cases q.parsed) [
      | inl parsed ↦
          rw parsed (
            parsed_query_on-Keeps (c_str q.query) w (expandable parsed w.dictionaries w.calls h.1)
              h)
      | inr plain ↦ rw plain (query_on-Keeps (c_str q.query) w h)
    ]

    lost-Keeps :
        (has_result_set : Bool) (w : PgWorld Server)
        → IsTidyWorld w
        → IsTidilyKept (if has_result_set then lose_on w else ok w)
    lost-Keeps true w h = lose_on-Keeps w h
    lost-Keeps false w h = h

    IsExpandable-IsKeeping :
        (e : Event) → IsExpandable e → IsKeeping IsTidyWorld (λ why. ⊥) pg_connection e
    unfolding exchange
    IsExpandable-IsKeeping (shot q) expandable = λ w h.
        >>=-Keeps IsTidyWorld (λ why. ⊥) itself itself (send pg_connection q w) _
          (send-Keeps q w expandable h) (λ w' e h'. lost-Keeps q.has_result_set w' h')
    IsExpandable-IsKeeping (rest sec usec) expandable = λ w h. h

    schedule-IsKeeping :
        (events : List Event)
        → All IsExpandable events
        → All (IsKeeping IsTidyWorld (λ why. ⊥) pg_connection) events
    schedule-IsKeeping [] h = tt
    schedule-IsKeeping (e ∷ events) h =
        (IsExpandable-IsKeeping e h.0, schedule-IsKeeping events h.1)

    -- A barrel that is unloaded on a `Pg_client` whose `res` leads to the one live result, or is null
    -- with none live, does not fault: it ends the process, or comes back with such a client, so that
    -- no result is cleared twice and none is left behind. This is where putting words into each
    -- parsed query of the schedule of the barrel does not fault with dictionaries of some invariant,
    -- which those of the client have, and leaves such dictionaries.
    pub unload_on_pg :
        (qb : Barrel) (w : PgWorld Server)
        → All IsExpandable (schedule qb)
        → IsTidy w.client
        → D w.dictionaries
        → Keeps IsTidyWorld
            (λ why. ⊥)
            (λ (s : PgWorld Server × Barrel). s.0)
            (unload_query_barrel pg_connection qb w)
    unfolding clock_on
    unload_on_pg qb w expandable tidy d =
        unload_query_barrel-Keeps IsTidyWorld (λ why. ⊥) pg_connection (λ w h. h) qb w
          (schedule-IsKeeping (schedule qb) expandable) (tidy, d)

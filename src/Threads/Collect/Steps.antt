-- ===== src/Threads/Collect/Steps.antt =====
-- Each step of the processes of a client keeps the invariant; here are those of the parent.
use mathlib.Core.List.{Perm}
use mathlib.Core.Path.{subst}
use super_smack.Prelude.{
  ℕ, suc, ◌≡◌, refl, sym, ap, ◌∙◌, Option, none, some, List, [], ◌∷◌, ◌++◌, append_assoc, arith,
  Bytes, length, All,
}
use super_smack.Result.{Result, ok}
use super_smack.Report.Codec.{Pipe, int_bytes}
use super_smack.Threads.{Collector, take_time, take_report, add_time}
use super_smack.Threads.System.{
  Message, waiting, selecting, time_read, finished, System, Step, child, wait, no_data, read_time,
  read_report, no_child, Reach, here, then,
}
use super_smack.Threads.Queue.{
  sent, open_times, unsent, report_bytes, message_bytes, flat, holding, take_time-eq,
  take_report-eq,
}
use super_smack.Threads.Collect.{
  absorb, gather, gather-append, half, owed, IsAt, IsFit, Inv, Knows-gather,
}
use super_smack.Threads.Collect.Children.{child-Inv, wait-Inv}

flat_first :
    (m : Message) (rest : List Message) (behind : Bytes)
    → flat (m ∷ rest) ++ behind
      ≡ int_bytes m.connect_time ++ (report_bytes m.type_reports ++ (flat rest ++ behind))
unfolding flat message_bytes
flat_first m rest behind =
    append_assoc (message_bytes m) (flat rest) behind
    ∙ append_assoc (int_bytes m.connect_time) (report_bytes m.type_reports) (flat rest ++ behind)

timed_parts :
    {c d : Collector} {fd gd : Pipe}
    → ◌≡◌ {A = Result (Option (Collector × Pipe))} (ok (some (c, fd))) (ok (some (d, gd)))
    → (d ≡ c) × (gd ≡ fd)
timed_parts e = (cc, cc)

report_parts :
    {c d : Collector} {fd gd : Pipe}
    → ◌≡◌ {A = Result (Collector × Pipe)} (ok (c, fd)) (ok (d, gd))
    → (d ≡ c) × (gd ≡ fd)
report_parts e = (cc, cc)

first_of :
    (q : List Message) (k : ℕ)
    → length q ≡ suc k
    → (m : Message) × (ms : List Message) × (q ≡ m ∷ ms)
first_of [] k e = absurd (omega (arith, e))
first_of (m ∷ ms) k e = (m, ms, refl)

module _ (c0 : Collector) (messages : List Message) where
  module _ (s : System) (inv : Inv c0 messages s) where
    -- What the parent comes to read in `transfer_report_data`.
    pub record Next : Type 0 where
      pub m : Message
      pub rest : List Message
      pub first : inv.queue ≡ m ∷ rest
      pub fit : IsFit c0 m
      pub fit_rest : All (IsFit c0) rest
      pub whole : inv.reading ≡ []
      pub gathered : s.collector ≡ gather c0 inv.got
      pub timed :
          take_time s.pipe s.collector
          ≡ ok (
              some (
                add_time m.connect_time s.collector,
                holding (report_bytes m.type_reports ++ (flat rest ++ open_times s.children)),
              ))

    next_of :
        (m : Message) (rest : List Message)
        → inv.queue ≡ m ∷ rest
        → (inv.reading ≡ []) × (s.collector ≡ gather c0 inv.got)
        → Next
    next_of m rest first (whole, gathered) =
        let fit = subst (All (IsFit c0)) first inv.fit_queue in
        record {
          m = m;
          rest = rest;
          first = first;
          fit = fit.0;
          fit_rest = fit.1;
          whole = whole;
          gathered = gathered;
          timed =
              ap (λ fd. take_time fd s.collector)
                (inv.bytes
                  ∙ ap (λ r. holding (half r ++ (flat inv.queue ++ open_times s.children))) whole
                  ∙ ap (λ q. holding (flat q ++ open_times s.children)) first
                  ∙ ap holding (flat_first m rest (open_times s.children)))
              ∙ take_time-eq m fit.0.0 _ s.collector;
        }

    pub next_message : s.phase ≡ selecting → Next
    next_message p =
        let (m, rest, first) =
          first_of inv.queue (sent s.children) (omega (arith, inv.credits, ap owed p)) in
        next_of m rest first
          (subst (λ p. IsAt p (gather c0 inv.got) inv.reading s.collector) p inv.gathered)

    no_data-Inv : s.phase ≡ selecting → take_time s.pipe s.collector ≡ ok none → ⊥
    no_data-Inv p e = cc (sym (next_message p).timed ∙ e)

    read_time-Inv :
        {c : Collector} {fd : Pipe}
        → s.phase ≡ selecting
        → take_time s.pipe s.collector ≡ ok (some (c, fd))
        → Inv c0 messages (record s { phase = time_read; collector = c; pipe = fd })
    read_time-Inv {c} {fd} p e =
        let next = next_message p in
        let (new, left) = timed_parts (sym next.timed ∙ e) in
        record {
          got = inv.got;
          reading = next.m ∷ [];
          queue = next.rest;
          exclusive = inv.exclusive;
          bytes = left;
          credits = omega (arith, inv.credits, ap length next.first, ap owed p);
          order =
              subst (λ q. Perm messages (inv.got ++ (q ++ unsent s.children))) next.first
                (subst (λ r. Perm messages (inv.got ++ (r ++ (inv.queue ++ unsent s.children))))
                  next.whole inv.order);
          gathered = (next.m, refl, new ∙ ap (add_time next.m.connect_time) next.gathered);
          gone = λ f. cc;
          fit_reading = (next.fit, tt);
          fit_queue = next.fit_rest;
          fit_children = inv.fit_children;
        }

    report_of :
        (m : Message)
        → inv.reading ≡ m ∷ []
        → IsFit c0 m
        → s.collector ≡ add_time m.connect_time (gather c0 inv.got)
        → take_report s.pipe s.collector
          ≡ ok (absorb m (gather c0 inv.got), holding (flat inv.queue ++ open_times s.children))
    unfolding add_time
    report_of m whole fit now =
        rw (inv.bytes, whole, now)
          (take_report-eq m fit.0 _ (add_time m.connect_time (gather c0 inv.got))
            (Knows-gather c0 c0 inv.got m fit.1))

    -- What the parent reads behind a time.
    pub report_next :
        s.phase ≡ time_read
        → (m : Message) × (inv.reading ≡ m ∷ [])
          × (s.collector ≡ add_time m.connect_time (gather c0 inv.got))
          × (take_report s.pipe s.collector
              ≡ ok
                  (absorb m (gather c0 inv.got), holding (flat inv.queue ++ open_times s.children)))
    report_next p =
        let (m, whole, now) =
          subst (λ p. IsAt p (gather c0 inv.got) inv.reading s.collector) p inv.gathered in
        let fit = (subst (All (IsFit c0)) whole inv.fit_reading).0 in
        (m, whole, now, report_of m whole fit now)

    read_report-Inv :
        {c : Collector} {fd : Pipe}
        → s.phase ≡ time_read
        → take_report s.pipe s.collector ≡ ok (c, fd)
        → Inv c0 messages (record s { phase = waiting; collector = c; pipe = fd })
    read_report-Inv {c} {fd} p e =
        let (m, whole, now, next) = report_next p in
        let (new, left) = report_parts (sym next ∙ e) in
        record {
          got = inv.got ++ m ∷ [];
          reading = [];
          queue = inv.queue;
          exclusive = inv.exclusive;
          bytes = left;
          credits = omega (arith, inv.credits, ap owed p);
          order = rw (append_assoc inv.got (m ∷ []) (inv.queue ++ unsent s.children)) (
              subst (λ r. Perm messages (inv.got ++ (r ++ (inv.queue ++ unsent s.children)))) whole
                inv.order);
          gathered = (refl, new ∙ sym (gather-append c0 inv.got m));
          gone = λ f. cc;
          fit_reading = tt;
          fit_queue = inv.fit_queue;
          fit_children = inv.fit_children;
        }

    no_child-Inv :
        s.phase ≡ waiting → s.children ≡ [] → Inv c0 messages (record s { phase = finished })
    no_child-Inv p e = record {
      got = inv.got;
      reading = inv.reading;
      queue = inv.queue;
      exclusive = inv.exclusive;
      bytes = inv.bytes;
      credits = omega (arith, inv.credits, ap owed p);
      order = inv.order;
      gathered = subst (λ p. IsAt p (gather c0 inv.got) inv.reading s.collector) p inv.gathered;
      gone = λ f. e;
      fit_reading = inv.fit_reading;
      fit_queue = inv.fit_queue;
      fit_children = inv.fit_children;
    }

  pub Step-Inv : {s t : System} → Step s t → Inv c0 messages s → Inv c0 messages t
  Step-Inv {s} (child xs ys c split mv) inv = child-Inv c0 messages s inv xs ys c split mv
  Step-Inv {s} (wait xs ys c p split e) inv = wait-Inv c0 messages s inv xs ys c split p e
  Step-Inv {s} (no_data p r e) inv = absurd (no_data-Inv s inv p e)
  Step-Inv {s} (read_time p r e) inv = read_time-Inv s inv p e
  Step-Inv {s} (read_report p r e) inv = read_report-Inv s inv p e
  Step-Inv {s} (no_child p e) inv = no_child-Inv s inv p e

  pub Reach-Inv : {s t : System} → Reach s t → Inv c0 messages s → Inv c0 messages t
  Reach-Inv here inv = inv
  Reach-Inv (then r st) inv = Step-Inv st (Reach-Inv r inv)

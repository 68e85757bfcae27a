-- ===== src/Threads/Collect/Children.antt =====
-- A call of a child, and the end of a child, keep the invariant.
use mathlib.Core.List.{Perm, perm_append_comm}
use mathlib.Core.List.Perm
use mathlib.Core.Path.{subst}
use super_smack.Prelude.{
  ℕ, ◌+◌, ◌≡◌, refl, sym, ap, ◌∙◌, List, [], ◌∷◌, ◌++◌, append_assoc, arith, length-append, All,
  All-append, All-split,
}
use super_smack.Report.Codec.{Pipe}
use super_smack.Threads.{Collector}
use super_smack.Threads.System.{
  Message, Phase, unlocked, locked, time_written, report_written, closing, exited, Child, waiting,
  selecting, System, Move,
}
use super_smack.Threads.Queue.{
  is_critical, has_sent, open_time, unsent_one, critical, sent, open_times, unsent, critical-append,
  sent-append, open_times-append, unsent-append, critical-split, sent-split, open_times-split,
  unsent-split, critical-open_times, flat, flat-append, holding,
}
use super_smack.Threads.Collect.{
  gather, completed, Move-critical, Move-sent, Move-unsent, Move-bytes, half, owed, IsAt, IsFit,
  IsFitChild, Inv,
}

not_empty : (xs ys : List Child) (c : Child) → xs ++ c ∷ ys ≡ [] → ⊥
not_empty [] ys c e = cc
not_empty (x ∷ xs) ys c e = cc

-- A message that leaves the children for the end of the queue.
send_order :
    (queue before done behind : List Message)
    → Perm (queue ++ (before ++ (done ++ behind))) ((queue ++ done) ++ (before ++ behind))
send_order queue before done behind = rw (append_assoc queue done (before ++ behind)) (
    Perm.append_left queue (
      rw (← append_assoc before done behind, ← append_assoc done before behind)
        (Perm.append_right behind (perm_append_comm before done))))

completed-All : (P : Message → Type 0) (p : Phase) (m : Message) → P m → All P (completed p m)
completed-All P unlocked m h = tt
completed-All P locked m h = tt
completed-All P time_written m h = (h, tt)
completed-All P report_written m h = tt
completed-All P closing m h = tt
completed-All P exited m h = tt

module _ (c0 : Collector) (messages : List Message) where
  module _ (s : System) (inv : Inv c0 messages s) (xs ys : List Child) (c : Child)
      (split : s.children ≡ xs ++ c ∷ ys) where
    open inv use {got, reading, queue}

    fits : All (IsFitChild c0) xs × IsFitChild c0 c × All (IsFitChild c0) ys
    fits = All-split (IsFitChild c0) xs ys c (subst (All (IsFitChild c0)) split inv.fit_children)

    in_critical : s.sem + (critical xs + (is_critical c.phase + critical ys)) ≡ 1
    in_critical = rw (← critical-split xs ys c, ← split) inv.exclusive

    bytes_around :
        s.pipe
        ≡ holding (
            (half reading ++ flat queue)
            ++ (open_times xs ++ (open_time c.phase c.message ++ open_times ys)))
    bytes_around =
        inv.bytes
        ∙ ap holding (
            sym (append_assoc (half reading) (flat queue) (open_times s.children))
            ∙ ap (λ o. (half reading ++ flat queue) ++ o)
                (ap open_times split ∙ open_times-split xs ys c))

    alone : is_critical c.phase ≡ 1 → (open_times xs ≡ []) × (open_times ys ≡ [])
    alone h = (
      critical-open_times xs (omega (arith, h, in_critical)),
      critical-open_times ys (omega (arith, h, in_critical)),
    )

    -- A child's call.
    pub child-Inv :
        {p : Phase} {n : ℕ} {fd : Pipe}
        → Move c.message c.phase s.sem s.pipe p n fd
        → Inv c0 messages
            (record s { children = xs ++ record c { phase = p } ∷ ys; sem = n; pipe = fd })
    child-Inv {p} {n} {fd} mv =
        let c' = record c { phase = p } in
        let done = completed c.phase c.message in
        record {
          got = got;
          reading = reading;
          queue = queue ++ done;
          exclusive = omega (arith, critical-split xs ys c', Move-critical mv, in_critical);
          bytes =
              Move-bytes (half reading ++ flat queue) (open_times xs) (open_times ys) fits.1.0 mv
                alone bytes_around
              ∙ ap holding (
                  rw (flat-append queue done, open_times-split xs ys c')
                    (append_assoc (half reading ++ flat queue) (flat done) _
                      ∙ append_assoc (half reading) (flat queue) _
                      ∙ ap (half reading ++◌) (sym (append_assoc (flat queue) (flat done) _))));
          credits = omega (
            arith,
            length-append queue done,
            sent-split xs ys c',
            sent-split xs ys c,
            ap sent split,
            Move-sent mv,
            inv.credits,
          );
          order =
              subst (λ u. Perm messages (got ++ (reading ++ ((queue ++ done) ++ u))))
                (sym (unsent-split xs ys c'))
                (Perm.trans inv.order (
                  Perm.append_left got (
                    Perm.append_left reading (
                      rw
                        (
                          split,
                          unsent-split xs ys c,
                          Move-unsent mv,
                          append_assoc done (unsent_one p c.message) (unsent ys),
                        )
                        (send_order queue (unsent xs) done
                          (unsent_one p c.message ++ unsent ys))))));
          gathered = inv.gathered;
          gone = λ e. absurd (not_empty xs ys c (sym split ∙ inv.gone e));
          fit_reading = inv.fit_reading;
          fit_queue =
              All-append (IsFit c0) queue done inv.fit_queue
                (completed-All (IsFit c0) c.phase c.message fits.1);
          fit_children = All-append (IsFitChild c0) xs (c' ∷ ys) fits.0 (fits.1, fits.2);
        }

    -- `wait4` gives an exited child.
    pub wait-Inv :
        s.phase ≡ waiting
        → c.phase ≡ exited
        → Inv c0 messages (record s { children = xs ++ ys; phase = selecting })
    wait-Inv w e = record {
      got = got;
      reading = reading;
      queue = queue;
      exclusive = omega (arith, critical-append xs ys, in_critical, ap is_critical e);
      bytes =
          inv.bytes
          ∙ ap (λ o. holding (half reading ++ (flat queue ++ o)))
              (rw (split, open_times-split xs ys c, e, open_times-append xs ys) refl);
      credits = omega (
        arith,
        inv.credits,
        sent-append xs ys,
        sent-split xs ys c,
        ap sent split,
        ap has_sent e,
        ap owed w,
      );
      order =
          subst (λ u. Perm messages (got ++ (reading ++ (queue ++ u))))
            (rw (split, unsent-split xs ys c, e, unsent-append xs ys) refl) inv.order;
      gathered = subst (λ p. IsAt p (gather c0 got) reading s.collector) w inv.gathered;
      gone = λ f. cc;
      fit_reading = inv.fit_reading;
      fit_queue = inv.fit_queue;
      fit_children = All-append (IsFitChild c0) xs ys fits.0 fits.2;
    }

-- ===== src/Main/Run.antt =====
-- Which lines of the main section a process runs: a client's child those of its client, and the
-- main process those that start the children.
use super_smack.Prelude.{
  ℕ, ◌≡◌, refl, sym, ap, ◌∙◌, Bool, true, false, not, ◌&&◌, List, [], ◌∷◌, ◌++◌, append-nil,
  append_assoc, if◌then◌else◌, All, Bytes, str_eq, str_eq_refl, Bool-cases, inl, inr,
}
use super_smack.Result.{ok, ok_injective, >>=-eq-ok, >>=_congr}
use super_smack.Barrel.{QueryPool}
use super_smack.Main.{
  MainLine, Methods, Fork, in_child, fork_error, in_parent, Process, main_client, dispatch, forked,
  is_init, perform, execute, run_lines,
}

-- The lines that name a client.
unfoldable pub own : Bytes → List (MainLine × Fork) → List (MainLine × Fork)
own c [] = []
own c ((l, fork) ∷ lines) = if str_eq l.client c then (l, fork) ∷ own c lines else own c lines

-- The children that the `init` lines start, in order.
unfoldable pub started : List (MainLine × Fork) → List ℕ
started [] = []
started ((l, in_parent pid) ∷ lines) = if is_init l then pid ∷ started lines else started lines
started ((l, _) ∷ lines) = started lines

-- A line as the main process comes to it: of a client that is defined and not named as the main
-- process is, and `fork()`, where it is called, gives the number of a child.
abbrev pub IsParentLine : (Bytes → Bool) → MainLine × Fork → Type 0
IsParentLine known (l, in_parent pid) =
    (known l.client ≡ true) × (str_eq l.client main_client ≡ false)
IsParentLine known (l, _) = (is_init l ≡ false) × (str_eq l.client main_client ≡ false)

module _ {ℓ} {World : Type ℓ} (pool : QueryPool) (known : Bytes → Bool)
    (calls : Methods World) where
  -- A line of another client changes nothing in a child.
  execute_other :
      (fork : Fork) (l : MainLine) (p : Process World)
      → str_eq l.client p.current_client ≡ false
      → str_eq p.current_client main_client ≡ false
      → known l.client ≡ true
      → execute pool known calls fork l p ≡ ok p
  unfolding execute perform
  execute_other fork l p other child k = elim (Bool-cases (is_init l)) [
    | inl starts ↦ rw (other, starts, k, child) refl
    | inr acts ↦ rw (other, acts) refl
  ]

  perform-current_client :
      (fork : Fork) (l : MainLine) (p : Process World) {p' : Process World}
      → str_eq p.current_client main_client ≡ false
      → perform pool known calls fork l p ≡ ok p'
      → p'.current_client ≡ p.current_client
  unfolding perform
  perform-current_client fork l p child e = elim (Bool-cases (is_init l)) [
    | inl starts ↦
        ap (λ (q : Process World). q.current_client)
          (sym (ok_injective (rw (starts, child, perform) at e)))
    | inr acts ↦
        let (w, _, e') =
          >>=-eq-ok (dispatch pool known calls l p.world) _ (rw (acts, perform) at e) in
        ap (λ (q : Process World). q.current_client) (sym (ok_injective e'))
  ]

  -- A child stays the child of its client.
  execute-current_client :
      (fork : Fork) (l : MainLine) (p : Process World) {p' : Process World}
      → str_eq p.current_client main_client ≡ false
      → execute pool known calls fork l p ≡ ok p'
      → p'.current_client ≡ p.current_client
  unfolding execute perform
  execute-current_client fork l p child e =
      elim (Bool-cases (not (str_eq l.client p.current_client) && not (is_init l))) [
        | inl skipped ↦
            ap (λ (q : Process World). q.current_client)
              (sym (ok_injective (rw (skipped, execute) at e)))
        | inr runs ↦ elim (Bool-cases (known l.client)) [
          | inr unknown ↦ cc (rw (runs, unknown, execute) at e)
          | inl k ↦ perform-current_client fork l p child (rw (runs, k, execute) at e)
        ]
      ]

  -- A child runs the lines of its own client in order, and none of another client, if each client
  -- that the section names is defined.
  pub run_lines-own :
      (lines : List (MainLine × Fork)) (p : Process World)
      → str_eq p.current_client main_client ≡ false
      → All (λ (lf : MainLine × Fork). known lf.0.client ≡ true) lines
      → run_lines pool known calls lines p
        ≡ run_lines pool known calls (own p.current_client lines) p
  unfolding run_lines own
  run_lines-own [] p child k = refl
  run_lines-own ((l, fork) ∷ lines) p child (k, ks) =
      elim (Bool-cases (str_eq l.client p.current_client)) [
        | inr other ↦
            rw (execute_other fork l p other child k, other) (run_lines-own lines p child ks)
        | inl mine ↦ rw mine (
            >>=_congr (execute pool known calls fork l p) _ _ (λ q e.
              let same = execute-current_client fork l p child e in
              run_lines-own lines q (rw same child) ks
              ∙ ap (λ c. run_lines pool known calls (own c lines) q) same))
      ]

  -- A line that starts no child is skipped by the main process.
  execute_skipped :
      (fork : Fork) (l : MainLine) (p : Process World)
      → p.current_client ≡ main_client
      → is_init l ≡ false
      → str_eq l.client main_client ≡ false
      → execute pool known calls fork l p ≡ ok p
  unfolding execute
  execute_skipped fork l p m skipped other = rw (m, other, skipped) refl

  execute_started :
      (pid : ℕ) (l : MainLine) (p : Process World)
      → p.current_client ≡ main_client
      → is_init l ≡ true
      → known l.client ≡ true
      → execute pool known calls (in_parent pid) l p
        ≡ ok (record p { client_pids = p.client_pids ++ pid ∷ [] })
  unfolding execute perform forked
  execute_started pid l p m starts k = elim (Bool-cases (str_eq l.client p.current_client)) [
    | inl same ↦ rw (same, starts, k, m, str_eq_refl main_client) refl
    | inr other ↦ rw (other, starts, k, m, str_eq_refl main_client) refl
  ]

  -- The main process starts a child for each `init` line, in order, remembers them all, and does
  -- nothing else, where each line is of a defined client with a `fork()` that gives a child, or is
  -- no `init` line, and no line names the main process as its client.
  pub run_lines-started :
      (lines : List (MainLine × Fork)) (p : Process World)
      → p.current_client ≡ main_client
      → All (IsParentLine known) lines
      → run_lines pool known calls lines p
        ≡ ok (record p { client_pids = p.client_pids ++ started lines })
  unfolding run_lines started
  run_lines-started [] p m h =
      ap (λ pids. ok (record p { client_pids = pids })) (sym (append-nil p.client_pids))
  run_lines-started ((l, in_parent pid) ∷ lines) p m ((k, other), hs) =
      elim (Bool-cases (is_init l)) [
        | inl starts ↦
            rw (execute_started pid l p m starts k, starts)
              (run_lines-started lines (record p { client_pids = p.client_pids ++ pid ∷ [] }) m hs
                ∙ ap (λ pids. ok (record p { client_pids = pids }))
                    (append_assoc p.client_pids (pid ∷ []) (started lines)))
        | inr skipped ↦
            rw (execute_skipped (in_parent pid) l p m skipped other, skipped)
              (run_lines-started lines p m hs)
      ]
  run_lines-started ((l, in_child) ∷ lines) p m ((skipped, other), hs) =
      rw (execute_skipped in_child l p m skipped other) (run_lines-started lines p m hs)
  run_lines-started ((l, fork_error) ∷ lines) p m ((skipped, other), hs) =
      rw (execute_skipped fork_error l p m skipped other) (run_lines-started lines p m hs)

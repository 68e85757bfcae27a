-- ===== src/Options/Chosen.antt =====
-- Which engine the options choose.
use super_smack.Prelude.{
  ℕ, ◌≡◌, ◌<◌, sym, ap, some, List, [], ◌∷◌, ◌++◌, ◌==◌, Bytes, All, Bool-cases, inl, inr,
}
use super_smack.Result.{Result, ok, >>=-eq-ok, ok_injective}
use super_smack.Engines.{Engine, engine_id, max_engines, new_client, new_client_by_id}
use super_smack.Engines.Ids.{IsTable, new_client_by_id-engine_id}
use super_smack.Options.{Settings, Started, running, exited, set_db_type, take_option, take_options}

running_injective : {s t : Settings} → running s ≡ running t → s ≡ t
running_injective e = cc

module _ {ℓ} {Creator : Type ℓ} (engines : List (Engine Creator)) where
  -- Options that do not end the program: what is behind them starts from some settings.
  take_options-append :
      (xs ys : List (ℕ × Bytes)) (s t : Settings)
      → take_options engines (xs ++ ys) s ≡ ok (running t)
      → (s' : Settings) × (take_options engines ys s' ≡ ok (running t))
  unfolding take_options
  take_options-append [] ys s t e = (s, e)
  take_options-append ((c, optarg) ∷ xs) ys s t e =
      let (started, f, g) = >>=-eq-ok (take_option engines c optarg s) _ e in
      go (λ s' g. take_options-append xs ys s' t g) started g
    where
      go :
          ((s' : Settings)
            → take_options engines (xs ++ ys) s' ≡ ok (running t)
            → (s'' : Settings) × (take_options engines ys s'' ≡ ok (running t)))
          → (started : Started)
          → elim started as (λ x. Result Started) [
            | running s' ↦ take_options engines (xs ++ ys) s'
            | exited code ↦ ok (exited code)
          ]
            ≡ ok (running t)
          → (s' : Settings) × (take_options engines ys s' ≡ ok (running t))
      go later (running s') g = later s' g
      go later (exited code) g = cc g

  set_db_type-db_type :
      (handle : Bytes) (s t : Settings)
      → set_db_type engines handle s ≡ ok t
      → t.db_type ≡ engine_id (some handle) engines
  unfolding set_db_type
  set_db_type-db_type handle s t e = elim (Bool-cases (engine_id (some handle) engines == 0)) [
    | inl none_such ↦ cc (rw none_such at e)
    | inr known ↦ ap (λ (s : Settings). s.db_type) (sym (ok_injective (rw known at e)))
  ]

  datadirs-db_type :
      (options : List (ℕ × Bytes)) (s t : Settings)
      → All (λ (o : ℕ × Bytes). o.0 ≡ b'D') options
      → take_options engines options s ≡ ok (running t)
      → t.db_type ≡ s.db_type
  unfolding take_options take_option
  datadirs-db_type [] s t h e =
      ap (λ (s : Settings). s.db_type) (sym (running_injective (ok_injective e)))
  datadirs-db_type ((c, optarg) ∷ options) s t (h, hs) e =
      datadirs-db_type options (record s { datadir = optarg }) t hs (rw h at e)

  -- Behind options that end in `-d handle`, and then in any of `-D`, a client of `db_type` is a
  -- client of the handle: the table is one that the constructor built, and the id is below 64.
  pub take_options-new_client :
      (options rest : List (ℕ × Bytes)) (handle : Bytes) (s t : Settings)
      → IsTable Creator engines
      → engine_id (some handle) engines < max_engines
      → All (λ (o : ℕ × Bytes). o.0 ≡ b'D') rest
      → take_options engines (options ++ (b'd', handle) ∷ rest) s ≡ ok (running t)
      → new_client_by_id t.db_type engines ≡ new_client (some handle) engines
  unfolding take_options take_option
  take_options-new_client options rest handle s t table small datadirs e =
      let (s1, e1) = take_options-append options ((b'd', handle) ∷ rest) s t e in
      let (started, f, g) = >>=-eq-ok (take_option engines b'd' handle s1) _ e1 in
      let (s2, f2, g2) = >>=-eq-ok (set_db_type engines handle s1) _ f in
      let same : started ≡ running s2 = sym (ok_injective g2) in
      let kept = datadirs-db_type rest s2 t datadirs (rw same at g) in
      rw (kept, set_db_type-db_type handle s1 s2 f2)
        (new_client_by_id-engine_id (some handle) engines table small)

-- ===== src/Database/Upgrade/Order.antt =====
-- The order in which the scripts of an upgrade run, and where it stops.
use opendias.Base.{
  ℕ, zero, suc, ◌≡◌, refl, ap, ◌∙◌, true, false, Option, none, some, List, [], ◌∷◌, ◌++◌,
  Bool-cases, inl, inr,
}
use opendias.Base.Exec.{ok}
use opendias.Base.CString.{CString}
use opendias.Base.Int.{ℤ}
use opendias.Database.{Statement, History, Sqlite, bind_vars}
use opendias.Database.Run.{Run, run_update, updated}
use opendias.Database.Upgrade.{Files, suc_ℤ, run_script, upgrade, scripts}

-- The history after some statements.
abbrev pub after : List Statement → History → History
after [] h = h
after (t ∷ ts) h = after ts (t ∷ h)

-- Given one after the other, none of the statements fails.
abbrev pub Succeed : Sqlite → List Statement → History → Type 0
Succeed s [] h = Unit
Succeed s (t ∷ ts) h = (s.is_error (t ∷ h) ≡ false) × Succeed s ts (t ∷ h)

-- No statement is left and the run returns 0, or the next one fails and the run returns 1 behind it.
abbrev pub Stops : Sqlite → Run ℕ → (ran left : List Statement) → History → Type 0
Stops s m ran [] h = m h ≡ ok (0, after ran h)
Stops s m ran (t ∷ later) h =
    (s.is_error (t ∷ after ran h) ≡ true) × (m h ≡ ok (1, t ∷ after ran h))

-- The run gives the statements in their order, up to the first one that fails.
pub record IsPrefix (s : Sqlite) (m : Run ℕ) (all : List Statement) (h : History) : Type 0 where
  pub ran : List Statement
  pub left : List Statement
  pub in_order : all ≡ ran ++ left
  pub succeeded : Succeed s ran h
  pub stops : Stops s m ran left h

module _ (s : Sqlite) (f : Files) where
  one : CString → Statement
  one sql = record { sql = sql; values = [] }

  -- A run that goes on as another one stops where that one does.
  Stops-step :
      (m m' : Run ℕ) {h : History} (ran left : List Statement)
      → m h ≡ m' h
      → Stops s m' ran left h
      → Stops s m ran left h
  Stops-step m m' ran [] e p = e ∙ p
  Stops-step m m' ran (t ∷ later) e (bad, p) = (bad, e ∙ p)

  Stops-went_on :
      (m m' : Run ℕ) {t : Statement} {h : History} (ran left : List Statement)
      → m h ≡ m' (t ∷ h)
      → Stops s m' ran left (t ∷ h)
      → Stops s m (t ∷ ran) left h
  Stops-went_on m m' ran [] e p = e ∙ p
  Stops-went_on m m' ran (u ∷ later) e (bad, p) = (bad, e ∙ p)

  upgrade-IsPrefix_step :
      (rounds : ℕ) (i : ℤ) (h : History) (o : Option CString)
      → f.script i ≡ o
      → ((h' : History)
          → IsPrefix s (upgrade s f rounds (suc_ℤ i)) (scripts s f rounds (suc_ℤ i)) h')
      → IsPrefix s (upgrade s f (suc rounds) i) (scripts s f (suc rounds) i) h
  unfolding upgrade scripts run_update updated bind_vars one
  upgrade-IsPrefix_step rounds i h none e rest =
      let p = rest h in
      record {
        ran = p.ran;
        left = p.left;
        in_order = rw e p.in_order;
        succeeded = p.succeeded;
        stops =
            Stops-step (upgrade s f (suc rounds) i) (upgrade s f rounds (suc_ℤ i)) p.ran p.left
              (rw (e, run_script) refl) p.stops;
      }
  upgrade-IsPrefix_step rounds i h (some sql) e rest =
      elim (Bool-cases (s.is_error (record { sql = sql; values = [] } ∷ h))) [
        | inl bad ↦ record {
          ran = [];
          left = one sql ∷ scripts s f rounds (suc_ℤ i);
          in_order = rw e refl;
          succeeded = tt;
          stops = (bad, rw (e, run_script, bad) refl);
        }
        | inr good ↦
            let p = rest (one sql ∷ h) in
            record {
              ran = one sql ∷ p.ran;
              left = p.left;
              in_order = rw e (ap (λ r. one sql ∷ r) p.in_order);
              succeeded = (good, p.succeeded);
              stops =
                  Stops-went_on (upgrade s f (suc rounds) i) (upgrade s f rounds (suc_ℤ i)) p.ran
                    p.left (rw (e, run_script, good) refl) p.stops;
            }
      ]

  -- From a version on the scripts run in the order of their numbers, each once. Either all of them
  -- succeed and the upgrade returns 0, or those before the first one that fails succeed, no script runs
  -- behind that one, and the upgrade returns 1.
  pub upgrade-IsPrefix :
      (rounds : ℕ) (i : ℤ) (h : History)
      → IsPrefix s (upgrade s f rounds i) (scripts s f rounds i) h
  unfolding upgrade scripts
  upgrade-IsPrefix zero i h = record {
    ran = [];
    left = [];
    in_order = refl;
    succeeded = tt;
    stops = refl;
  }
  upgrade-IsPrefix (suc rounds) i h =
      upgrade-IsPrefix_step rounds i h (f.script i) refl (upgrade-IsPrefix rounds (suc_ℤ i))

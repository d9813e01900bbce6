-- ===== src/Database/Queries.antt =====
-- What a program that binds its values in order gets from the database.
use opendias.Base.{ℕ, ◌≡◌, refl, Option, none, some, List, ◌∷◌, if◌then◌else◌, Bool-cases, inl, inr}
use opendias.Base.Exec.{Exec, ok, fault}
use opendias.Base.CString.{CString}
use opendias.Database.{Value, Statement, History, Sqlite, RecordSet, record_set, kept_rows}
use opendias.Database.Run.{Run, ◌>>=◌, lift, queried, updated, run_query, run_update}
use opendias.Database.Binding.{vars_of, bind_vars-vars_of}

abbrev pub statement : CString → List Value → Statement
statement sql values = record { sql = sql; values = values }

-- Inversion of a program that returns.
pub lift->>= :
    {A B : Type 0} (x : Exec A) (f : A → Run B) (h : History) {out : B × History}
    → (lift x >>= f) h ≡ ok out
    → (a : A) × (x ≡ ok a) × (f a h ≡ ok out)
lift->>= fault f h e = cc
lift->>= (ok a) f h e = (a, refl, e)

pub >>=-ok :
    {A B : Type 0} (m : Run A) (f : A → Run B) (h : History) {out : B × History}
    → (m >>= f) h ≡ ok out
    → (a : A) × (h' : History) × (m h ≡ ok (a, h')) × (f a h' ≡ ok out)
>>=-ok {A} {B} m f h {out} e = ended (m h) e
  where
    ended :
        (r : Exec (A × History))
        → elim r [ ok (a, h') ↦ f a h' | fault ↦ fault ] ≡ ok out
        → (a : A) × (h' : History) × (r ≡ ok (a, h')) × (f a h' ≡ ok out)
    ended fault e = cc
    ended (ok (a, h')) e = (a, h', refl, e)

-- The step behind a program that returns.
pub >>=-returned :
    {A B : Type 0} (m : Run A) (f : A → Run B) (h : History) {a : A} {h' : History}
    → m h ≡ ok (a, h')
    → (m >>= f) h ≡ f a h'
>>=-returned m f h e = rw (◌>>=◌, e) refl

pub lift->>=-ok :
    {A B : Type 0} {x : Exec A} {a : A} (f : A → Run B) (h : History)
    → x ≡ ok a
    → (lift x >>= f) h ≡ f a h
lift->>=-ok f h e = rw e refl

module _ (s : Sqlite) where
  -- The record set of the last statement, a query with variables.
  abbrev pub answer : History → Option RecordSet
  answer h = if s.is_error h then none else record_set (kept_rows (s.rows h))

  abbrev pub code : History → ℕ
  code h = if s.is_error h then 1 else 0

  module _ (sql : CString) (vs : List Value) (h : History) where
    pub run_query-vars_of :
        run_query s sql (some (vars_of vs)) h
        ≡ ok (answer (statement sql vs ∷ h), statement sql vs ∷ h)
    unfolding queried run_query record_set
    run_query-vars_of = elim (Bool-cases (s.is_error (statement sql vs ∷ h))) [
      | inl bad ↦ rw (run_query, bind_vars-vars_of vs, bad) refl
      | inr good ↦ rw (run_query, bind_vars-vars_of vs, good) refl
    ]

    pub run_update-vars_of :
        run_update s sql (some (vars_of vs)) h
        ≡ ok (code (statement sql vs ∷ h), statement sql vs ∷ h)
    unfolding updated run_update
    run_update-vars_of = rw (run_update, bind_vars-vars_of vs) refl

    module _ {A : Type 0} (f : Option RecordSet → Run A) where
      pub run_query->>= :
          (run_query s sql (some (vars_of vs)) >>= f) h
          ≡ f (answer (statement sql vs ∷ h)) (statement sql vs ∷ h)
      run_query->>= = rw (◌>>=◌, run_query-vars_of) refl

    module _ {A : Type 0} (f : ℕ → Run A) where
      pub run_update->>= :
          (run_update s sql (some (vars_of vs)) >>= f) h
          ≡ f (code (statement sql vs ∷ h)) (statement sql vs ∷ h)
      run_update->>= = rw (◌>>=◌, run_update-vars_of) refl

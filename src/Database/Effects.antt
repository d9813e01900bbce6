-- ===== src/Database/Effects.antt =====
-- The statements that a program gives to the database.
use opendias.Base.{
  ◌≡◌, refl, sym, ap, ◌∙◌, some, List, [], ◌∷◌, ◌++◌, All, All-append, append_assoc,
}
use opendias.Base.Exec.{Exec, ok, fault}
use opendias.Base.CString.{CString}
use opendias.Database.{Value, Statement, History, Sqlite}
use opendias.Database.Run.{Run, return, ◌>>=◌, lift, run_query, run_update}
use opendias.Database.Binding.{vars_of}
use opendias.Database.Queries.{statement, run_query-vars_of, run_update-vars_of}

-- Some run of the program comes to the value.
abbrev pub Gives : {A : Type 0} → Run A → A → Type 0
Gives m a = (h : History) × (h' : History) × (m h ≡ ok (a, h'))

module _ (P : Statement → Type 0) where
  -- All statements since a history have the property.
  pub Grown : History → History → Type 0
  Grown h h' = (added : List Statement) × (h' ≡ added ++ h) × All P added

  pub Ends : {A : Type 0} → History → Exec (A × History) → Type 0
  Ends h fault = Unit
  Ends h (ok (a, h')) = Grown h h'

  -- Wherever the program starts, it gives only such statements.
  pub record Only {A : Type 0} (m : Run A) : Type 0 where
    pub ends : (h : History) → Ends h (m h)

  Grown-trans : (h1 h2 h3 : History) → Grown h1 h2 → Grown h2 h3 → Grown h1 h3
  unfolding Grown
  Grown-trans h1 h2 h3 (a, p, x) (b, q, y) =
      (b ++ a, q ∙ ap (λ h. b ++ h) p ∙ sym (append_assoc b a h1), All-append P b a y x)

  pub Only-return : {A : Type 0} (a : A) → Only (return a)
  unfolding Ends Grown
  Only-return a = record { ends = λ h. ([], refl, tt) }

  pub Only-lift : {A : Type 0} (x : Exec A) → Only (lift x)
  unfolding Ends Grown
  Only-lift fault = record { ends = λ h. tt }
  Only-lift (ok a) = record { ends = λ h. ([], refl, tt) }

  Ends-Grown :
      {A : Type 0} (h h' : History) (r : Exec (A × History)) → Grown h h' → Ends h' r → Ends h r
  unfolding Ends
  Ends-Grown h h' fault e g = tt
  Ends-Grown h h' (ok (b, h'')) e g = Grown-trans h h' h'' e g

  Ends-bind :
      {A B : Type 0} (h : History) (r : Exec (A × History)) (f : A → Run B)
      → Ends h r
      → ((a : A) (h' : History) → r ≡ ok (a, h') → Only (f a))
      → Ends h (elim r [ ok (a, h') ↦ f a h' | fault ↦ fault ])
  unfolding Ends
  Ends-bind h fault f e k = tt
  Ends-bind h (ok (a, h')) f e k = Ends-Grown h h' (f a h') e ((k a h' refl).ends h')

  pub Only->>= :
      {A B : Type 0} (m : Run A) (f : A → Run B) → Only m → ((a : A) → Only (f a)) → Only (m >>= f)
  Only->>= m f o k = record { ends = λ h. Ends-bind h (m h) f (o.ends h) (λ a _ _. k a) }

  -- The same, where what follows needs to know how the first part comes to its value.
  pub Only->>=-Gives :
      {A B : Type 0} (m : Run A) (f : A → Run B)
      → Only m
      → ((a : A) → Gives m a → Only (f a))
      → Only (m >>= f)
  Only->>=-Gives m f o k = record {
    ends = λ h. Ends-bind h (m h) f (o.ends h) (λ a h' e. k a (h, h', e));
  }

  pub Only-lift->>= :
      {A B : Type 0} (x : Exec A) (f : A → Run B)
      → ((a : A) → x ≡ ok a → Only (f a))
      → Only (lift x >>= f)
  unfolding Ends
  Only-lift->>= fault f k = record { ends = λ h. tt }
  Only-lift->>= (ok a) f k = k a refl

  module _ (s : Sqlite) (sql : CString) (vs : List Value) (p : P (statement sql vs)) where
    pub Only-run_query : Only (run_query s sql (some (vars_of vs)))
    unfolding Ends Grown
    Only-run_query = record {
      ends = λ h. rw (run_query-vars_of s sql vs h) (statement sql vs ∷ [], refl, (p, tt));
    }

    pub Only-run_update : Only (run_update s sql (some (vars_of vs)))
    unfolding Ends Grown
    Only-run_update = record {
      ends = λ h. rw (run_update-vars_of s sql vs h) (statement sql vs ∷ [], refl, (p, tt));
    }

All-map :
    {P Q : Statement → Type 0} (ts : List Statement)
    → ((t : Statement) → P t → Q t)
    → All P ts
    → All Q ts
All-map [] f a = tt
All-map (t ∷ ts) f (a, rest) = (f t a, All-map ts f rest)

Ends-map :
    {P Q : Statement → Type 0} {A : Type 0} (h : History) (r : Exec (A × History))
    → ((t : Statement) → P t → Q t)
    → Ends P h r
    → Ends Q h r
unfolding Ends Grown
Ends-map h fault f e = tt
Ends-map h (ok (a, h')) f (ts, p, all) = (ts, p, All-map ts f all)

pub Only-map :
    {P Q : Statement → Type 0} {A : Type 0} {m : Run A}
    → ((t : Statement) → P t → Q t)
    → Only P m
    → Only Q m
Only-map {m = m} f o = record { ends = λ h. Ends-map h (m h) f (o.ends h) }

-- ===== src/Database/Upgrade/Connections.antt =====
-- The connections that `connect_db` leaves open.
use opendias.Base.{
  ℕ, ◌+◌, ◌≡◌, refl, sym, ap, ◌≤◌, ◌≢◌, Bool, true, false, not, ◌&&◌, Option, none, some,
  if◌then◌else◌, ◌==◌, ==_iff, arith, Bool-cases, inl, inr,
}
use mathlib.Core.Option.{some-injective}
use opendias.Base.Exec.{ok, ok-injective}
use opendias.Base.Int.{ℤ, pos, is_zero}
use opendias.Database.{History, Sqlite}
use opendias.Database.Run.{Run, return, ◌>>=◌}
use opendias.Database.Queries.{>>=-ok}
use opendias.Database.Upgrade.{
  Files, get_db_version, bring_up_to_date, open_version, connected, created, connect_db,
}

is_one : (code : ℕ) → 1 ≡ code → (code == 1) ≢ false
is_one code e n = absurd (ground (arith, ==_iff code 1))

module _ (s : Sqlite) (f : Files) where
  -- What is left open where the database was opened, or did not need to be.
  Opened : (may : Bool) (version version' : ℤ) (n n' : ℕ) → Type 0
  Opened true version version' n n' = n' ≡ n + 1
  Opened false version version' n n' = (n' ≡ n) × (version' ≡ version)

  open_version-Opened :
      (may : Bool) (version version' : ℤ) (n n' : ℕ) (h h' : History)
      → open_version s f may (version, n) h ≡ ok ((some version', n'), h')
      → Opened may version version' n n'
  unfolding open_version Opened
  open_version-Opened true version version' n n' h h' e = elim (Bool-cases f.opens) [
    | inl opens ↦
        let (v, h1, p, q) = >>=-ok (get_db_version s) _ h (rw opens at e) in
        sym (ap (λ r. r.0.1) (ok-injective q))
    | inr shut ↦ absurd (none_some (ap (λ r. r.0.0) (ok-injective (rw shut at e))))
  ]
    where
      none_some : none ≢ some version'
      none_some e = cc
  open_version-Opened false version version' n n' h h' e =
      let same = ok-injective e in
      (sym (ap (λ r. r.0.1) same), some-injective version' version (sym (ap (λ r. r.0.0) same)))

  coded-returned :
      (new : Bool) (m : Run ℕ) (n code n' : ℕ) (h h' : History)
      → (if new && not true
            then return {A = ℕ × ℕ} (1, n)
            else (do c ← m; return {A = ℕ × ℕ} (c, n)))
          h
        ≡ ok ((code, n'), h')
      → n' ≡ n
  coded-returned true m n code n' h h' e =
      let (c, h1, p, q) = >>=-ok m _ h e in sym (ap (λ r. r.0.1) (ok-injective q))
  coded-returned false m n code n' h h' e =
      let (c, h1, p, q) = >>=-ok m _ h e in sym (ap (λ r. r.0.1) (ok-injective q))

  connected-returned :
      (o : Option ℤ) (n code n' : ℕ) (h h' : History)
      → connected s f true (o, n) h ≡ ok ((code, n'), h')
      → (code == 1) ≡ false
      → (v : ℤ) × (o ≡ some v) × (n' ≡ n)
  unfolding connected
  connected-returned none n code n' h h' e fine =
      absurd (is_one code (ap (λ r. r.0.0) (ok-injective e)) fine)
  connected-returned (some v) n code n' h h' e fine =
      (v, refl, coded-returned (is_zero v) (bring_up_to_date s f v) n code n' h h' e)

  Opened-le :
      (may : Bool) (version version' : ℤ) (n n' : ℕ) → Opened may version version' n n' → n ≤ n'
  unfolding Opened
  Opened-le true version version' n n' is = omega arith
  Opened-le false version version' n n' (same, _) = omega arith

  -- A connection is opened by the first try, or by the second for a database that is not there.
  tries-le :
      (may : Bool) (version version' : ℤ) (n n' : ℕ)
      → Opened may (pos 0) version 0 n
      → Opened (is_zero version && true) version version' n n'
      → 1 ≤ n'
  unfolding Opened
  tries-le true version version' n n' first again =
      omega (arith, Opened-le (is_zero version && true) version version' n n' again)
  tries-le false version version' n n' (_, first) again =
      let second = rw first at again in omega (arith, second)

  created-opens :
      (may : Bool) (o : Option ℤ) (n : ℕ) (h h1 h' : History) (code n' : ℕ)
      → open_version s f may (pos 0, 0) h ≡ ok ((o, n), h1)
      → created s f true (o, n) h1 ≡ ok ((code, n'), h')
      → (code == 1) ≡ false
      → 1 ≤ n'
  unfolding created
  created-opens may none n h h1 h' code n' p e fine =
      absurd (is_one code (ap (λ r. r.0.0) (ok-injective e)) fine)
  created-opens may (some v) n h h1 h' code n' p e fine =
      let (again, h2, q, r) = >>=-ok (open_version s f (is_zero v && true) (v, n)) _ h1 e in
      again-le again.0 again.1 h2 q r
    where
      again-le :
          (o : Option ℤ) (m : ℕ) (h2 : History)
          → open_version s f (is_zero v && true) (v, n) h1 ≡ ok ((o, m), h2)
          → connected s f true (o, m) h2 ≡ ok ((code, n'), h')
          → 1 ≤ n'
      again-le o m h2 q r =
          let (v', there, same) = connected-returned o m code n' h2 h' r fine in
          rw same (
            tries-le may v v' n m (open_version-Opened may (pos 0) v 0 n h h1 p)
              (open_version-Opened (is_zero v && true) v v' n m h1 h2 (rw there at q)))

  -- Where `connect_db`, which may make the database, returns another code than 1, a connection is open.
  pub connect_db-opens :
      (h h' : History) (code n : ℕ)
      → connect_db s f true h ≡ ok ((code, n), h')
      → (code == 1) ≡ false
      → 1 ≤ n
  unfolding connect_db
  connect_db-opens h h' code n e fine =
      let ((o, m), h1, p, q) =
        >>=-ok (open_version s f (if f.database then true else f.misplaced) (pos 0, 0)) _ h e in
      created-opens (if f.database then true else f.misplaced) o m h h1 h' code n p q fine

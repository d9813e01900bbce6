-- ===== src/Validation/Actions/Checks.antt =====
-- Blocks of `validate` that add up `checkKeys` and checks of fields.
use opendias.Base.{ℕ, zero, suc, ◌+◌, ◌≡◌, refl, ap, ◌∙◌, ◌↔◌, Option, arith, ◌==◌, if◌then◌else◌}
use opendias.Base.Exec.{Exec, ok, fault, ◌>>=◌, >>=-eq-ok}
use opendias.LinkedList.{Sll}
use opendias.Base.CString.{CString}
use opendias.Validation.Keys.{PostData, check_keys}
use opendias.Validation.Keys.Laws.{Distinct, KeysFit, check_keys-zero_iff}
use opendias.Validation.Blocks.{Checked, update_value}
use opendias.Validation.Blocks.Laws.{UpdateFits, update_value-ok_iff}

-- No fault and no error.
abbrev pub Accepted : Exec Checked → Type 0
Accepted r = (post : PostData) × (r ≡ ok (post, 0))

pub Accepted-ok_iff : (post : PostData) (n : ℕ) → Accepted (ok (post, n)) ↔ (n ≡ 0)
Accepted-ok_iff post n = (λ h. ground (arith, h.1), λ e. (post, rw e))

module _ (p post : PostData) (rules : Sll CString) (d : Distinct rules) where
  pub accepted0 : Accepted (ok (p, 0 + check_keys post rules)) ↔ KeysFit post rules
  accepted0 =
      let (acc, acc') = Accepted-ok_iff p (0 + check_keys post rules) in
      let (keys, keys') = check_keys-zero_iff post rules d in
      (λ a. let z = acc a in keys (omega arith), λ h. acc' (omega (arith, keys' h)))

  module _ {P : Type 0} {m : ℕ} (i : (m ≡ 0) ↔ P) where
    pub accepted1 : Accepted (ok (p, 0 + check_keys post rules + m)) ↔ (KeysFit post rules × P)
    accepted1 =
        let (acc, acc') = Accepted-ok_iff p (0 + check_keys post rules + m) in
        let (keys, keys') = check_keys-zero_iff post rules d in
        (
          λ a. let z = acc a in (keys (omega arith), i.0 (omega arith)),
          λ h. acc' (omega (arith, keys' h.0, i.1 h.1)),
        )

    module _ {Q R : Type 0} {n o : ℕ} (j : (n ≡ 0) ↔ Q) (k : (o ≡ 0) ↔ R) where
      pub accepted3 :
          Accepted (ok (p, 0 + check_keys post rules + m + n + o))
          ↔ (KeysFit post rules × (P × Q × R))
      accepted3 =
          let (acc, acc') = Accepted-ok_iff p (0 + check_keys post rules + m + n + o) in
          let (keys, keys') = check_keys-zero_iff post rules d in
          (
            λ a.
                let z = acc a in
                (keys (omega arith), (i.0 (omega arith), j.0 (omega arith), k.0 (omega arith))),
            λ h. acc' (omega (arith, keys' h.0, i.1 h.1.0, j.1 h.1.1, k.1 h.1.2)),
          )

      module _ {S T U : Type 0} {q r s : ℕ} (x : (q ≡ 0) ↔ S) (y : (r ≡ 0) ↔ T)
          (z : (s ≡ 0) ↔ U) where
        pub accepted6 :
            Accepted (ok (p, 0 + check_keys post rules + m + n + o + q + r + s))
            ↔ (KeysFit post rules × (P × Q × R × S × T × U))
        accepted6 =
            let (acc, acc') =
              Accepted-ok_iff p (0 + check_keys post rules + m + n + o + q + r + s) in
            let (keys, keys') = check_keys-zero_iff post rules d in
            (
              λ a.
                  let e = acc a in
                  (
                    keys (omega arith),
                    (
                      i.0 (omega arith),
                      j.0 (omega arith),
                      k.0 (omega arith),
                      x.0 (omega arith),
                      y.0 (omega arith),
                      z.0 (omega arith),
                    ),
                  ),
              λ h. acc' (
                  omega (
                    arith,
                    keys' h.0,
                    i.1 h.1.0,
                    j.1 h.1.1,
                    k.1 h.1.2,
                    x.1 h.1.3,
                    y.1 h.1.4,
                    z.1 h.1.5,
                  )),
            )

-- The part of `updateDocDetails` behind the checks of the keys and the document id.
pub update-Accepted :
    (post : PostData) (n : ℕ) (k v : Option CString)
    → Accepted (if n == 0 then (do total ← update_value n k v; ok (post, total)) else ok (post, n))
      ↔ ((n ≡ 0) × UpdateFits k v)
update-Accepted post zero k v =
    let (to, from) = update_value-ok_iff k v in
    (
      λ a.
          let after : ℕ → Exec Checked = λ t. ok (post, t) in
          let (total, run, e) = >>=-eq-ok (update_value 0 k v) after a.1 in
          (refl, to (run ∙ ap ok ((Accepted-ok_iff post total).0 (a.0, e)))),
      λ h. rw (from h.1) (post, refl),
    )
update-Accepted post (suc n) k v = ground arith

-- Two runs that may fault, and a total of their results.
pub two_runs-Accepted :
    {R : Type 0} (post : PostData) (s e : Exec ℕ) (f : ℕ → ℕ → ℕ)
    → ((m n : ℕ) → (f m n ≡ 0) ↔ ((m ≡ 0) × (n ≡ 0) × R))
    → Accepted (s >>= λ m. e >>= λ n. ok (post, f m n)) ↔ ((s ≡ ok 0) × (e ≡ ok 0) × R)
two_runs-Accepted post (ok m) (ok n) f h =
    let (acc, acc') = Accepted-ok_iff post (f m n) in
    let (to, from) = h m n in
    (
      λ a. let z = to (acc a) in (ap ok z.0, ap ok z.1, z.2),
      λ z. acc' (from (ground (arith, z.0), ground (arith, z.1), z.2)),
    )
two_runs-Accepted post (ok m) fault f h = ((λ a. cc (a.1)), λ z. cc (z.1))
two_runs-Accepted post fault e f h = ((λ a. cc (a.1)), λ z. cc (z.0))

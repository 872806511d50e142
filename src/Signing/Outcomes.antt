-- ===== src/Signing/Outcomes.antt =====
-- What holds of the answers of a signing call.
use mathlib.Core.Path.{subst}
use ledger_namada.Common.{◌≡◌, refl, Option, none, some, Bool, true, false, if◌then◌else◌}
use ledger_namada.Signing.{Attempt, done, failed, bad_access, ◌>>=◌, checked}

-- P of the result. `Bad` is ⊥ where an access outside an array is ruled out, and Unit where it is not.
pub record Outcomes (Bad : Type 0) {A : Type 0} (P : A → Type 0) (m : Attempt A) : Type 0 where
  pub result : (a : A) → m ≡ done a → P a
  pub access : m ≡ bad_access → Bad

pub Outcomes-done : {Bad A : Type 0} {P : A → Type 0} (a : A) → P a → Outcomes Bad P (done a)
Outcomes-done {P = P} a h = record {
  result = λ b e. subst P (inner b e) h;
  access = λ e. absurd cc;
}
  where
    inner : (b : _) → done a ≡ done b → a ≡ b
    inner b e = cc

pub Outcomes-failed : {Bad A : Type 0} {P : A → Type 0} → Outcomes Bad P failed
Outcomes-failed = record { result = λ b e. absurd cc; access = λ e. absurd cc }

module _ {Bad : Type 0} {A : Type 0} {P : A → Type 0} where
  pub Outcomes-bind :
      {B : Type 0} {Q : B → Type 0} (m : Attempt A) (f : A → Attempt B)
      → Outcomes Bad P m
      → ((a : A) → P a → Outcomes Bad Q (f a))
      → Outcomes Bad Q (m >>= f)
  Outcomes-bind (done a) f h k = k a (h.result a refl)
  Outcomes-bind failed f h k = Outcomes-failed
  Outcomes-bind bad_access f h k = record { result = λ b e. absurd cc; access = λ e. h.access refl }

  pub Outcomes-if :
      (b : Bool) (m n : Attempt A)
      → Outcomes Bad P m
      → Outcomes Bad P n
      → Outcomes Bad P (if b then m else n)
  Outcomes-if true m n h k = h
  Outcomes-if false m n h k = k

  pub Outcomes-map :
      {Q : A → Type 0} (m : Attempt A) → Outcomes Bad P m → ((a : A) → P a → Q a) → Outcomes Bad Q m
  Outcomes-map m h k = record { result = λ a e. k a (h.result a e); access = h.access }

pub Outcomes-checked : {Bad A : Type 0} (o : Option A) → Outcomes Bad (λ a. o ≡ some a) (checked o)
Outcomes-checked none = Outcomes-failed
Outcomes-checked (some a) = Outcomes-done a refl

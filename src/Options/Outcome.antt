-- ===== src/Options/Outcome.antt =====
-- What is known of a step of src/main.c that does not end the program.
use nsproxy.Common.{◌≡◌, refl, ap, Bool, true, false, if◌then◌else◌}
use nsproxy.Options.{Result, ok, exits, Fail, and_then}

abbrev value_or {ℓ} : {A : Type ℓ} → A → Result A → A
value_or d (ok a) = a
value_or d (exits e) = d

pub ok_inj {ℓ} : {A : Type ℓ} {a b : A} → ok a ≡ ok b → a ≡ b
ok_inj {a = a} h = ap (value_or a) h

-- A guard that exits has let it pass.
pub guard_passed {ℓ} :
    {A : Type ℓ} {c : A} (b : Bool) (e : Fail) (r : Result A)
    → (if b then exits e else r) ≡ ok c
    → (b ≡ false) × (r ≡ ok c)
guard_passed true e r h = absurd (cc (h))
guard_passed false e r h = (refl, h)

-- A guard that must hold.
pub guard_held {ℓ} :
    {A : Type ℓ} {c : A} (b : Bool) (e : Fail) (r : Result A)
    → (if b then r else exits e) ≡ ok c
    → (b ≡ true) × (r ≡ ok c)
guard_held true e r h = (refl, h)
guard_held false e r h = absurd (cc (h))

pub and_then-ok {ℓ κ} :
    {A : Type ℓ} {B : Type κ} {c : B} (r : Result A) (f : A → Result B)
    → and_then r f ≡ ok c
    → (d : A) × (r ≡ ok d) × (f d ≡ ok c)
and_then-ok (ok d) f h = (d, refl, h)
and_then-ok (exits e) f h = absurd (cc (h))

-- ===== src/Error/Steps.antt =====
-- How a chain of steps that may fail is taken apart.
use harness_talk.Prelude.{◌≡◌, ◌≢◌, refl, arith}
use harness_talk.Error.{Error, Result, Checked, ok, err, ◌>>=◌, ◌>>◌}

-- A check that is followed by more passes where the whole does.
pub both {ℓ} :
    {A : Type ℓ} (m : Checked) (k : Result A) (a : A) → (m >> k) ≡ ok a → (m ≡ ok tt) × (k ≡ ok a)
both (ok tt) k a h = (refl, h)
both (err e) k a h = absurd (ground arith)

clash {ℓ} : {A : Type ℓ} {x : Error} {a : A} → err x ≢ ok a
clash h = cc

pub then_ok {ℓ} : {A : Type ℓ} (m : Checked) (k : Result A) → m ≡ ok tt → (m >> k) ≡ k
then_ok m k h = rw h refl

pub stopped_at {ℓ κ} :
    {A : Type ℓ} {B : Type κ} {r : Result A} {x : Error} {b : B} (k : A → Result B)
    → r ≡ err x
    → (r >>= k) ≢ ok b
stopped_at k e h = clash (rw e at h)

pub ok_same {ℓ} : {A : Type ℓ} {a b : A} → ok a ≡ ok b → a ≡ b
ok_same h = cc

pub ok_step {ℓ κ} :
    {A : Type ℓ} {B : Type κ} (m : Result A) (k : A → Result B) (b : B)
    → (m >>= k) ≡ ok b
    → (a : A) × (m ≡ ok a) × (k a ≡ ok b)
ok_step (ok a) k b h = (a, refl, h)
ok_step (err e) k b h = absurd (clash h)
